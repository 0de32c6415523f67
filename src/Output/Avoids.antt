-- ===== src/Output/Avoids.antt =====
-- Texts that are put together without characters of a kind, for
-- crates/atelia-core/src/tool_output.rs.
use Prim.Native.Char.{code}
use atelia_secretary.Output.Format.{concat, join}
use atelia_secretary.Output.Toon.{any_code}
use atelia_secretary.Base.{
  true, false, if◌then◌else◌, String, ℕ, Bool, false, ◌||◌, List, [], ◌∷◌, ◌++◌, ◌≡◌, refl, arith,
  append, map, take, zero, suc,
}

-- No character of a text passes a test.
abbrev pub Avoids : (ℕ → Bool) → String → Type 0
Avoids p s = any_code p s ≡ false

abbrev pub AllAvoid : (ℕ → Bool) → List String → Type 0
AllAvoid p [] = Unit
AllAvoid p (s ∷ ss) = Avoids p s × AllAvoid p ss

pub or-false : (a b : Bool) → a || b ≡ false → (a ≡ false) × (b ≡ false)
or-false a b h = ground arith

module _ (p : ℕ → Bool) where
  pub append-Avoids : (s t : String) → Avoids p s → Avoids p t → Avoids p (append s t)
  unfolding any_code append
  append-Avoids String.[] t h k = k
  append-Avoids (String.◌∷◌ c s) t h k =
      let (first, rest) = or-false (p (code c)) (any_code p s) h in
      rw (first, append-Avoids s t rest k) refl

  pub concat-Avoids : (ss : List String) → AllAvoid p ss → Avoids p (concat ss)
  unfolding concat any_code
  concat-Avoids [] h = refl
  concat-Avoids (s ∷ ss) (h, hs) = append-Avoids s (concat ss) h (concat-Avoids ss hs)

  pub join-Avoids :
      (separator : String) (ss : List String)
      → Avoids p separator
      → AllAvoid p ss
      → Avoids p (join separator ss)
  unfolding join any_code
  join-Avoids separator [] h hs = refl
  join-Avoids separator (s ∷ []) h (k, hs) = k
  join-Avoids separator (s ∷ t ∷ ss) h (k, hs) =
      append-Avoids s _ k (append-Avoids separator _ h (join-Avoids separator (t ∷ ss) h hs))

  pub append-AllAvoid :
      (ss ts : List String) → AllAvoid p ss → AllAvoid p ts → AllAvoid p (ss ++ ts)
  append-AllAvoid [] ts h k = k
  append-AllAvoid (s ∷ ss) ts (h, hs) k = (h, append-AllAvoid ss ts hs k)

  pub take-AllAvoid : (n : ℕ) (ss : List String) → AllAvoid p ss → AllAvoid p (take n ss)
  take-AllAvoid zero ss h = tt
  take-AllAvoid (suc n) [] h = tt
  take-AllAvoid (suc n) (s ∷ ss) (h, hs) = (h, take-AllAvoid n ss hs)

  pub map-AllAvoid {ℓ} :
      {A : Type ℓ} (f : A → String)
      → ((a : A) → Avoids p (f a))
      → (xs : List A) → AllAvoid p (map f xs)
  map-AllAvoid f h [] = tt
  map-AllAvoid f h (x ∷ xs) = (h x, map-AllAvoid f h xs)

  -- A choice avoids them if both sides do, the second where the test fails.
  pub if-Avoids :
      (b : Bool) (s t : String)
      → Avoids p s
      → (b ≡ false → Avoids p t)
      → Avoids p (if b then s else t)
  if-Avoids true s t h k = h
  if-Avoids false s t h k = k refl

-- Characters of one kind are of another.
pub Avoids-mono :
    (p q : ℕ → Bool) (s : String) → ((n : ℕ) → p n ≡ false → q n ≡ false) → Avoids p s → Avoids q s
unfolding any_code
Avoids-mono p q String.[] h k = refl
Avoids-mono p q (String.◌∷◌ c s) h k =
    let (first, rest) = or-false (p (code c)) (any_code p s) k in
    rw (h (code c) first) (Avoids-mono p q s h rest)
