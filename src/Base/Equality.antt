-- ===== src/Base/Equality.antt =====
-- Equality as the source's `==`: one operator over every type with decidable equality.
use Prim.Native.Nat.{ℕ}
use Prim.Native.String.{String}
use mathlib.Core.Path.{◌≡◌, refl}
use mathlib.Core.Bool.{Bool, true, false}
use mathlib.Core.Option.{Option, none, some}
use mathlib.Core.List.{List, [], ◌∷◌}
use native.Mathlib.Omega.{arith}
use native.Mathlib.Decide.{ℕ_discrete}
use text.Mathlib.Text.{◌==◌ as str_eq}
use text.Mathlib.TextEquality.{eq_iff}

pub record Eq {ℓ} (A : Type ℓ) : Type ℓ where
  pub dec : Discrete A

infix 50 ◌==◌ ◌!=◌
abbrev pub ◌==◌ {ℓ} : {A : Type ℓ} ⦃e : Eq A⦄ → A → A → Bool
◌==◌ ⦃e⦄ a b = elim (e.dec a b) [ yes _ ↦ true | no _ ↦ false ]

abbrev pub ◌!=◌ {ℓ} : {A : Type ℓ} ⦃e : Eq A⦄ → A → A → Bool
◌!=◌ ⦃e⦄ a b = elim (e.dec a b) [ yes _ ↦ false | no _ ↦ true ]

string_dec : (s t : String) (b : Bool) → str_eq s t ≡ b → Dec (s ≡ t)
string_dec s t true e = yes ((eq_iff s t).0 e)
string_dec s t false e = no (λ p. cc (e, (eq_iff s t).1 p))

unfoldable pub string_discrete : Discrete String
unfolding string_dec
string_discrete s t = string_dec s t (str_eq s t) refl

unfoldable pub nat_discrete : Discrete ℕ
unfolding ℕ_discrete
nat_discrete = ℕ_discrete

instance abbrev pub nat_eq : Eq ℕ
nat_eq = record { dec = nat_discrete }

instance abbrev pub string_eq : Eq String
string_eq = record { dec = string_discrete }

unfoldable pub option_discrete {ℓ} : {A : Type ℓ} → Discrete A → Discrete (Option A)
option_discrete d none none = yes refl
option_discrete d none (some b) = no (λ p. cc)
option_discrete d (some a) none = no (λ p. cc)
option_discrete d (some a) (some b) = elim (d a b) [ yes p ↦ yes (cc) | no q ↦ no (λ p. q (cc)) ]

instance abbrev pub option_eq {ℓ} : {A : Type ℓ} ⦃e : Eq A⦄ → Eq (Option A)
option_eq ⦃e⦄ = record { dec = option_discrete e.dec }

module _ {ℓ} {A : Type ℓ} ⦃e : Eq A⦄ where
  pub eq→path : (a b : A) → (a == b) ≡ true → a ≡ b
  eq→path a b h = ground arith

  pub ne→path : (a b : A) → (a != b) ≡ false → a ≡ b
  ne→path a b h = ground arith

  pub eq_refl : (a : A) → (a == a) ≡ true
  eq_refl a = elim (e.dec a a) as (λ d. (elim d [ yes _ ↦ true | no _ ↦ false ]) ≡ true) [
    | yes _ ↦ refl
    | no q ↦ absurd (q refl)
  ]

  pub ne_refl : (a : A) → (a != a) ≡ false
  ne_refl a = ground (arith, eq_refl a)

  abbrev pub contains : List A → A → Bool
  contains [] a = false
  contains (x ∷ xs) a = elim (x == a) [ true ↦ true | false ↦ contains xs a ]
