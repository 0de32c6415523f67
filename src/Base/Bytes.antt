-- ===== src/Base/Bytes.antt =====
-- Texts measured in the bytes of their UTF-8, and cut at a byte position, as `str::len`,
-- `str::is_char_boundary` and `&text[..end]` do. A text in memory has fewer than 2^64 bytes.
use Prim.Native.Nat.{ℕ, zero, suc, ◌+◌, ◌-◌, ◌≤◌, ◌<◌}
use Prim.Native.Char.{Char, len_utf8}
use Prim.Native.String.{String, [], ◌∷◌}
use text.Mathlib.TextPositions.{len_utf8-pos}
use mathlib.Core.Path.{◌≡◌, refl}
use mathlib.Core.Bool.{Bool, true, false}
use native.Mathlib.Omega.{arith}
use mathlib.Core.Logic.{inl, inr}
use atelia_secretary.Base.Logic.{le→leb, leb_false→lt, leb, Bool-cases, leb→le, if◌then◌else◌}

-- `str::len`
unfoldable pub len : String → ℕ
len [] = 0
len (c ∷ s) = len_utf8 c + len s

unfoldable pub append : String → String → String
append [] t = t
append (c ∷ s) t = c ∷ append s t

-- `str::is_char_boundary`
unfoldable pub is_char_boundary : String → ℕ → Bool
is_char_boundary s zero = true
is_char_boundary [] (suc i) = false
is_char_boundary (c ∷ s) (suc i) =
    let later = is_char_boundary s (suc i - len_utf8 c) in
    if leb (len_utf8 c) (suc i) then later else false

-- `&text[..end]` where `end` is a boundary; a character that `end` cuts is left out with all after.
unfoldable pub prefix_to : String → ℕ → String
prefix_to [] end = []
prefix_to (c ∷ s) end =
    let rest = prefix_to s (end - len_utf8 c) in if leb (len_utf8 c) end then c ∷ rest else []

-- The greatest boundary that is not above a position.
unfoldable pub floor_boundary : String → ℕ → ℕ
floor_boundary s zero = zero
floor_boundary s (suc end) =
    let lower = floor_boundary s end in if is_char_boundary s (suc end) then suc end else lower

pub len_utf8-positive : (c : Char) → 1 ≤ len_utf8 c
len_utf8-positive c = omega (arith, (len_utf8-pos c).1)

pub len-positive : (c : Char) (s : String) → 1 ≤ len (c ∷ s)
unfolding len
len-positive c s = omega (arith, len_utf8-positive c)

pub prefix_to-len : (s : String) (end : ℕ) → len (prefix_to s end) ≤ end
unfolding len prefix_to
prefix_to-len [] end = omega arith
prefix_to-len (c ∷ s) end =
    let rest = prefix_to-len s (end - len_utf8 c) in
    elim (Bool-cases (leb (len_utf8 c) end)) [
      | inl fits ↦ rw fits (omega (arith, leb→le (len_utf8 c) end fits, rest))
      | inr cut ↦ rw cut (omega arith)
    ]

pub floor_boundary-boundary :
    (s : String) (end : ℕ) → is_char_boundary s (floor_boundary s end) ≡ true
unfolding floor_boundary is_char_boundary
floor_boundary-boundary s zero = refl
floor_boundary-boundary s (suc end) = ground (arith, floor_boundary-boundary s end)

is_char_boundary-zero : (s : String) → is_char_boundary s 0 ≡ true
unfolding is_char_boundary
is_char_boundary-zero [] = refl
is_char_boundary-zero (c ∷ s) = refl

-- Between boundaries nothing is gained.
prefix_to-inside :
    (s : String) (m n : ℕ)
    → m ≡ suc n
    → is_char_boundary s m ≡ false
    → prefix_to s m ≡ prefix_to s n
unfolding prefix_to is_char_boundary
prefix_to-inside [] m n e h = refl
prefix_to-inside (c ∷ s) zero n e h = absurd (omega arith)
prefix_to-inside (c ∷ s) (suc m) n e h = grind (
  arith,
  prefix_to-inside s (suc m - len_utf8 c) (n - len_utf8 c),
  is_char_boundary-zero s,
  len_utf8-positive c,
)

pub prefix_to-floor_boundary :
    (s : String) (end : ℕ) → prefix_to s (floor_boundary s end) ≡ prefix_to s end
unfolding floor_boundary
prefix_to-floor_boundary s zero = refl
prefix_to-floor_boundary s (suc end) =
    ground (arith, prefix_to-floor_boundary s end, prefix_to-inside s (suc end) end refl)

pub len-append : (s t : String) → len (append s t) ≡ len s + len t
unfolding len append
len-append [] t = omega arith
len-append (c ∷ s) t = omega (arith, len-append s t)

-- The rest of a text after `prefix_to`.
unfoldable pub suffix_from : String → ℕ → String
suffix_from [] end = []
suffix_from (c ∷ s) end =
    let rest = suffix_from s (end - len_utf8 c) in if leb (len_utf8 c) end then rest else c ∷ s

pub prefix_to-suffix_from :
    (s : String) (end : ℕ) → append (prefix_to s end) (suffix_from s end) ≡ s
unfolding prefix_to suffix_from append
prefix_to-suffix_from [] end = refl
prefix_to-suffix_from (c ∷ s) end =
    let rest = prefix_to-suffix_from s (end - len_utf8 c) in
    elim (Bool-cases (leb (len_utf8 c) end)) [
      | inl fits ↦ rw fits (cc rest)
      | inr cut ↦ rw cut refl
    ]

-- The first byte that is cut off belongs to a character that does not fit.
pub prefix_to-longest :
    (s t : String) (end : ℕ) (c : Char)
    → suffix_from s end ≡ c ∷ t
    → end < len (prefix_to s end) + len_utf8 c
unfolding prefix_to suffix_from len
prefix_to-longest [] t end c e = cc
prefix_to-longest (d ∷ s) t end c e = elim (Bool-cases (leb (len_utf8 d) end)) [
  | inl fits ↦
      let later : suffix_from s (end - len_utf8 d) ≡ c ∷ t = rw fits at e in
      rw fits (
        omega
          (arith, leb→le (len_utf8 d) end fits, prefix_to-longest s t (end - len_utf8 d) c later))
  | inr cut ↦
      let same : d ∷ s ≡ c ∷ t = rw cut at e in
      let first : d ≡ c = cc same in
      rw cut (rw (← first) (omega (arith, leb_false→lt (len_utf8 d) end cut)))
]

-- What fits is kept whole.
pub prefix_to-whole : (s : String) (end : ℕ) → len s ≤ end → prefix_to s end ≡ s
unfolding prefix_to len
prefix_to-whole [] end h = refl
prefix_to-whole (c ∷ s) end h =
    let fits : leb (len_utf8 c) end ≡ true = le→leb (len_utf8 c) end (omega (arith, h)) in
    rw (fits, prefix_to-whole s (end - len_utf8 c) (omega (arith, h))) refl
