-- ===== src/Base/Text.antt =====
-- Rust's `str` operations that the program calls, over the native texts.
use Prim.Native.Nat.{ℕ, compare, Ordering}
use Prim.Native.Char.{code}
use Prim.Native.String.{String, [], ◌∷◌}
use mathlib.Core.Bool.{Bool, true, false, ◌&&◌, ◌||◌}
use mathlib.Core.List.{List, ◌++◌}
use mathlib.Core.Path.{◌≡◌, refl}
use native.Mathlib.Omega.{arith}
use mathlib.Core.Option.{Option, none, some}
use atelia_secretary.Base.Logic.{leb, if◌then◌else◌}

is_code : ℕ → ℕ → Bool
is_code a b = elim (compare a b) [ Ordering.eq ↦ true | _ ↦ false ]

-- `char::is_whitespace`: the code points with the property White_Space.
unfoldable pub is_whitespace : ℕ → Bool
unfolding is_code
is_whitespace c =
    (leb 9 c && leb c 13)
    || is_code c 32
    || is_code c 0x85
    || is_code c 0xA0
    || is_code c 0x1680
    || (leb 0x2000 c && leb c 0x200A)
    || is_code c 0x2028
    || is_code c 0x2029
    || is_code c 0x202F
    || is_code c 0x205F
    || is_code c 0x3000

-- `text.trim().is_empty()`
unfoldable pub is_blank : String → Bool
is_blank [] = true
is_blank (c ∷ s) = is_whitespace (code c) && is_blank s

unfoldable pub trim_end : String → String
unfolding is_blank
trim_end [] = []
trim_end (c ∷ s) = let rest = trim_end s in if is_blank (c ∷ s) then [] else c ∷ rest

unfoldable pub trim_start : String → String
trim_start [] = []
trim_start (c ∷ s) = let rest = trim_start s in if is_whitespace (code c) then rest else c ∷ s

unfoldable pub trim : String → String
unfolding trim_start trim_end
trim s = trim_end (trim_start s)

abbrev pub codes : String → List ℕ
codes [] = List.[]
codes (c ∷ s) = List.◌∷◌ (code c) (codes s)

-- `strip_prefix`
unfoldable pub strip_prefix : String → String → Option String
unfolding is_code
strip_prefix [] s = some s
strip_prefix (p ∷ ps) [] = none
strip_prefix (p ∷ ps) (c ∷ s) =
    let rest = strip_prefix ps s in if is_code (code p) (code c) then rest else none

-- A text held as its code points is a word, or starts or ends with one.
unfoldable pub is_word : List ℕ → String → Bool
unfolding is_code
is_word List.[] [] = true
is_word (List.◌∷◌ a name) (c ∷ s) = is_code a (code c) && is_word name s
is_word _ _ = false

unfoldable pub starts_with : List ℕ → String → Bool
unfolding is_code
starts_with name [] = true
starts_with List.[] (c ∷ s) = false
starts_with (List.◌∷◌ a name) (c ∷ s) = is_code a (code c) && starts_with name s

unfoldable pub ends_with : List ℕ → String → Bool
unfolding is_word
ends_with List.[] s = is_word List.[] s
ends_with (List.◌∷◌ a name) s = is_word (List.◌∷◌ a name) s || ends_with name s

is_code-path : (a b : ℕ) → is_code a b ≡ true → a ≡ b
unfolding is_code
is_code-path a b h = ground arith

-- The tests find only what they look for.
pub is_word-codes : (name : List ℕ) (s : String) → is_word name s ≡ true → name ≡ codes s
unfolding is_word
is_word-codes List.[] [] h = refl
is_word-codes List.[] (c ∷ s) h = absurd (cc)
is_word-codes (List.◌∷◌ a name) [] h = absurd (cc)
is_word-codes (List.◌∷◌ a name) (c ∷ s) h =
    let same : a ≡ code c = is_code-path a (code c) (ground (arith, h)) in
    let rest : name ≡ codes s = is_word-codes name s (ground (arith, h)) in cc (same, rest)

pub starts_with-codes :
    (name : List ℕ) (s : String)
    → starts_with name s ≡ true
    → (rest : List ℕ) × name ≡ codes s ++ rest
unfolding starts_with
starts_with-codes name [] h = (name, refl)
starts_with-codes List.[] (c ∷ s) h = absurd (cc)
starts_with-codes (List.◌∷◌ a name) (c ∷ s) h =
    let same : a ≡ code c = is_code-path a (code c) (ground (arith, h)) in
    let (rest, e) = starts_with-codes name s (ground (arith, h)) in (rest, cc (same, e))
