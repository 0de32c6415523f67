-- ===== src/Output/Lines.antt =====
-- How many lines a rendered body has, crates/atelia-core/src/tool_output.rs.
use Prim.Native.Char.{code}
use atelia_secretary.Output.Format.{join}
use atelia_secretary.Output.Toon.{any_code}
use atelia_secretary.Output.Avoids.{Avoids, AllAvoid, or-false}
use atelia_secretary.Output.Plain.{line_count, lines_from}
use atelia_secretary.Base.{
  nat_discrete, String, ℕ, ◌+◌, ◌-◌, Bool, false, not, ◌==◌, List, [], ◌∷◌, ◌≡◌, ◌≤◌, refl, arith,
  append, nat_eq, length, if◌then◌else◌,
}

abbrev pub is_newline : ℕ → Bool
is_newline c = c == b'\n'

-- The line feeds of a text.
unfoldable pub newlines : String → ℕ
newlines String.[] = 0
newlines (String.◌∷◌ c s) = newlines s + (if is_newline (code c) then 1 else 0)

lines_from-newlines : (inside : Bool) (s : String) → lines_from inside s ≤ newlines s + 1
unfolding lines_from newlines
lines_from-newlines inside String.[] = ground arith
lines_from-newlines inside (String.◌∷◌ c s) =
    omega (arith, lines_from-newlines (not (is_newline (code c))) s)

line_count-newlines : (s : String) → line_count s ≤ newlines s + 1
unfolding line_count
line_count-newlines s = lines_from-newlines false s

newlines-append : (s t : String) → newlines (append s t) ≡ newlines s + newlines t
unfolding newlines append
newlines-append String.[] t = omega arith
newlines-append (String.◌∷◌ c s) t = omega (arith, newlines-append s t)

newlines-Avoids : (s : String) → Avoids is_newline s → newlines s ≡ 0
unfolding newlines any_code
newlines-Avoids String.[] h = refl
newlines-Avoids (String.◌∷◌ c s) h =
    let (first, rest) = or-false (is_newline (code c)) (any_code is_newline s) h in
    rw first (omega (arith, newlines-Avoids s rest))

newlines_empty : newlines "" ≤ 0
unfolding newlines
newlines_empty = omega arith

newlines-feed : newlines "\n" ≡ 1
unfolding newlines nat_discrete
newlines-feed = refl

newlines-join :
    (ss : List String) → AllAvoid is_newline ss → newlines (join "\n" ss) ≤ length ss - 1
unfolding join
newlines-join [] h = newlines_empty
newlines-join (s ∷ []) (h, _) = omega (arith, newlines-Avoids s h)
newlines-join (s ∷ t ∷ ss) (h, hs) =
    rw
      (
        newlines-append s (append "\n" (join "\n" (t ∷ ss))),
        newlines-append "\n" (join "\n" (t ∷ ss)),
        newlines-Avoids s h,
        newlines-feed,
      )
      (omega (arith, newlines-join (t ∷ ss) hs))

-- Lines that are joined are as many lines, if none has a line feed.
pub line_count-join :
    (ss : List String) (n : ℕ)
    → AllAvoid is_newline ss
    → 1 ≤ n
    → length ss ≤ n
    → line_count (join "\n" ss) ≤ n
line_count-join ss n h one few =
    omega (arith, line_count-newlines (join "\n" ss), newlines-join ss h)

pub line_count-single : (s : String) → Avoids is_newline s → line_count s ≤ 1
line_count-single s h = omega (arith, line_count-newlines s, newlines-Avoids s h)
