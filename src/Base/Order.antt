-- ===== src/Base/Order.antt =====
-- The order of texts, by code points, is asymmetric.
use Prim.Native.Nat.{ℕ, Ordering, compare as compare_ℕ}
use Prim.Native.Char.{code}
use Prim.Native.String.compare
use Prim.Native.String.{String, [], ◌∷◌, compare, then}
use mathlib.Core.Path.{◌≡◌, refl}
use mathlib.Core.Bool.{true, false}
use native.Mathlib.Omega.{arith}
use atelia_secretary.Base.Maps.{string_ord}

flipped : Ordering → Ordering
flipped Ordering.lt = Ordering.gt
flipped Ordering.eq = Ordering.eq
flipped Ordering.gt = Ordering.lt

compare_ℕ-flipped : (m n : ℕ) → compare_ℕ n m ≡ flipped (compare_ℕ m n)
unfolding flipped
compare_ℕ-flipped m n = ground arith

then-flipped : (a b : Ordering) → then (flipped a) (flipped b) ≡ flipped (then a b)
unfolding flipped
then-flipped Ordering.lt b = refl
then-flipped Ordering.eq b = refl
then-flipped Ordering.gt b = refl

compare-flipped : (s t : String) → compare t s ≡ flipped (compare s t)
unfolding flipped
compare-flipped [] [] = rw compare.nil-nil refl
compare-flipped [] (d ∷ t) = rw (compare.nil-cons d t) (compare.cons-nil d t)
compare-flipped (c ∷ s) [] = rw (compare.cons-nil c s) (compare.nil-cons c s)
compare-flipped (c ∷ s) (d ∷ t) =
    rw
      (
        compare.cons-cons c d s t,
        compare.cons-cons d c t s,
        compare_ℕ-flipped (code c) (code d),
        compare-flipped s t,
      )
      (then-flipped (compare_ℕ (code c) (code d)) (compare s t))

lt-flipped :
    (o : Ordering)
    → (elim o [ Ordering.lt ↦ true | _ ↦ false ]) ≡ true
    → (elim (flipped o) [ Ordering.lt ↦ true | _ ↦ false ]) ≡ false
unfolding flipped
lt-flipped Ordering.lt h = refl
lt-flipped Ordering.eq h = refl
lt-flipped Ordering.gt h = cc

pub string_lt_asym : (s t : String) → string_ord.lt s t ≡ true → string_ord.lt t s ≡ false
string_lt_asym s t h = rw (compare-flipped s t, string_ord) (lt-flipped (compare s t) h)
