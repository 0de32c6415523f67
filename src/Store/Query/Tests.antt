-- ===== src/Store/Query/Tests.antt =====
-- A walk over the pages of four records.
use Prim.Native.Char.{char}
use atelia_secretary.Base.{
  zero, suc, ℕ, ◌-◌, ◌≡◌, String, some, none, refl, arith, ap, eq→path, Bool-cases, inl, inr, ◌==◌,
  string_eq, length, [], ◌∷◌, List,
}
use atelia_secretary.Store.Query.{Decimal}
use atelia_secretary.Store.Query.Walk.{IsDecimal, walk, walk-records}

-- Numbers in strokes, with a mark at the end.
strokes : ℕ → String
strokes zero = "#"
strokes (suc n) = String.◌∷◌ (char 124 tt) (strokes n)

count : String → ℕ
count String.[] = 0
count (String.◌∷◌ c s) = suc (count s)

count-strokes : (n : ℕ) → count (strokes n) ≡ suc n
unfolding count strokes
count-strokes zero = refl
count-strokes (suc n) = ap suc (count-strokes n)

count_empty : count "" ≡ 0
unfolding count
count_empty = refl

abbrev in_strokes : Decimal
in_strokes = record { print = strokes; parse = λ s. some (count s - 1) }

in_strokes-IsDecimal : IsDecimal in_strokes
in_strokes-IsDecimal = record {
  parsed = λ n. ap some (omega (arith, count-strokes n));
  written = λ n. elim (Bool-cases (strokes n == "")) [
    | inl e ↦
        absurd (omega (arith, ap count (eq→path (strokes n) "" e), count-strokes n, count_empty))
    | inr e ↦ e
  ];
}

abbrev four : List ℕ
four = 1 ∷ 2 ∷ 3 ∷ 4 ∷ []

walk-records_example : walk in_strokes four 3 (suc (length four)) none ≡ some four
walk-records_example = walk-records in_strokes in_strokes-IsDecimal four 3 (omega arith)
