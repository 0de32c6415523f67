-- ===== src/Base/Maps.antt =====
-- `HashMap` and `BTreeMap` as association lists. A `HashMap` keeps the order of insertion, which
-- stands for its unspecified order of iteration; a `BTreeMap` keeps its keys in rising order.
use Prim.Native.Nat.{ℕ}
use Prim.Native.Nat as Nat
use mathlib.Core.Logic.{inl, inr}
use Prim.Native.String.{String, compare}
use mathlib.Core.Path.{◌≡◌, refl}
use mathlib.Core.Bool.{Bool, true, false}
use mathlib.Core.Option.{Option, none, some}
use mathlib.Core.List.{List, [], ◌∷◌}
use native.Mathlib.Omega.{arith}
use atelia_secretary.Base.Logic.{Bool-cases, if◌then◌else◌, ltb, is_some}
use atelia_secretary.Base.Lists.{any}
use atelia_secretary.Base.Equality.{Eq, ◌==◌, eq_refl}

abbrev pub Assoc {ℓ κ} : Type ℓ → Type κ → Type (ℓ ⊔ κ)
Assoc K V = List (K × V)

-- The order of the keys of a `BTreeMap`.
pub record Ord {ℓ} (K : Type ℓ) : Type ℓ where
  pub lt : K → K → Bool

instance abbrev pub nat_ord : Ord ℕ
nat_ord = record { lt = ltb }

instance abbrev pub string_ord : Ord String
string_ord = record { lt = λ a b. elim (compare a b) [ Nat.Ordering.lt ↦ true | _ ↦ false ] }

module _ {ℓ κ} {K : Type ℓ} {V : Type κ} ⦃e : Eq K⦄ where
  unfoldable pub get : Assoc K V → K → Option V
  get [] k = none
  get ((j, v) ∷ m) k = if j == k then some v else get m k

  abbrev pub contains_key : Assoc K V → K → Bool
  contains_key m k = is_some (get m k)

  -- `HashMap::insert`
  unfoldable pub insert : Assoc K V → K → V → Assoc K V
  insert [] k v = (k, v) ∷ []
  insert ((j, w) ∷ m) k v = if j == k then (j, v) ∷ m else (j, w) ∷ insert m k v

  pub get-insert :
      (m : Assoc K V) (k j : K) (v : V)
      → get (insert m k v) j ≡ (if k == j then some v else get m j)
  unfolding get insert
  get-insert [] k j v = refl
  get-insert ((i, w) ∷ m) k j v = ground (arith, get-insert m k j v)

  pub get-insert_self : (m : Assoc K V) (k : K) (v : V) → get (insert m k v) k ≡ some v
  get-insert_self m k v = simp (get-insert, eq_refl)

module _ {ℓ κ} {K : Type ℓ} {V : Type κ} ⦃e : Eq K⦄ ⦃o : Ord K⦄ where
  -- `BTreeMap::insert`
  unfoldable pub insert_ordered : Assoc K V → K → V → Assoc K V
  insert_ordered [] k v = (k, v) ∷ []
  insert_ordered ((j, w) ∷ m) k v =
      let rest = insert_ordered m k v in
      if j == k then (j, v) ∷ m else if o.lt k j then (k, v) ∷ (j, w) ∷ m else (j, w) ∷ rest

  pub get-insert_ordered :
      (m : Assoc K V) (k j : K) (v : V)
      → get (insert_ordered m k v) j ≡ (if k == j then some v else get m j)
  unfolding get insert_ordered
  get-insert_ordered [] k j v = refl
  get-insert_ordered ((i, w) ∷ m) k j v = ground (arith, get-insert_ordered m k j v)

  pub get-insert_ordered_self :
      (m : Assoc K V) (k : K) (v : V) → get (insert_ordered m k v) k ≡ some v
  get-insert_ordered_self m k v = simp (get-insert_ordered, eq_refl)

module _ {ℓ κ} {K : Type ℓ} {V : Type κ} where
  abbrev pub values : Assoc K V → List V
  values [] = []
  values ((j, v) ∷ m) = v ∷ values m

  abbrev pub keys : Assoc K V → List K
  keys [] = []
  keys ((j, v) ∷ m) = j ∷ keys m

  -- `values_mut`
  abbrev pub map_values : (V → V) → Assoc K V → Assoc K V
  map_values f [] = []
  map_values f ((j, v) ∷ m) = (j, f v) ∷ map_values f m

-- A test that no value passes fails for the value of each key.
module _ {ℓ κ} {K : Type ℓ} {V : Type κ} ⦃e : Eq K⦄ where
  pub any-values-get :
      (p : V → Bool) (m : Assoc K V) (k : K) (v : V)
      → any p (values m) ≡ false
      → get m k ≡ some v
      → p v ≡ false
  unfolding get
  any-values-get p ((j, w) ∷ m) k v h g = ground (arith, any-values-get p m k v)
  any-values-get p [] k v h g = cc

  pub contains_key-false : (m : Assoc K V) (k : K) → contains_key m k ≡ false → get m k ≡ none
  contains_key-false m k h = ground arith

  pub get-map_values-some :
      (f : V → V) (m : Assoc K V) (k : K) (v : V)
      → get (map_values f m) k ≡ some v
      → (old : V) × (get m k ≡ some old) × (v ≡ f old)
  unfolding get
  get-map_values-some f ((j, w) ∷ m) k v g = elim (Bool-cases (j == k)) [
    | inl same ↦ (w, ground arith, ground arith)
    | inr other ↦
        let (old, found, e) = get-map_values-some f m k v (ground arith) in (old, ground arith, e)
  ]
  get-map_values-some f [] k v g = absurd (cc)

  pub get-map_values :
      (f : V → V) (m : Assoc K V) (k : K) (v : V)
      → get m k ≡ some v
      → get (map_values f m) k ≡ some (f v)
  unfolding get
  get-map_values f ((j, w) ∷ m) k v g = ground (arith, get-map_values f m k v)
  get-map_values f [] k v g = absurd (cc)

  pub get-map_values-none :
      (f : V → V) (m : Assoc K V) (k : K) → get m k ≡ none → get (map_values f m) k ≡ none
  unfolding get
  get-map_values-none f ((j, w) ∷ m) k g = ground (arith, get-map_values-none f m k)
  get-map_values-none f [] k g = refl
