-- ===== src/Output/Filled.antt =====
-- What the cutting of a list keeps, crates/atelia-core/src/tool_output.rs.
use Prim.Native.Char.{Char, len_utf8, len_utf8_def, width}
use Prim.Native.Nat.{Ordering}
use atelia_secretary.Domain.Time.{u64_max}
use atelia_secretary.Output.Budget.{
  separator_after, list_bytes, list_round, list_loop, truncate_string_list, push_truncated,
  truncate_string_value, saturating_add,
}
use atelia_secretary.Output.Counted.{
  IsCounted, truncate_string_list-IsCounted, list_round-IsCounted, truncated_value-prefix_to,
}
use atelia_secretary.Output.Cut.{truncate_string_value-IsCutAt}
use atelia_secretary.Base.{
  String, ℕ, false, sym, subst, option_eq, ◌+◌, ◌-◌, ◌≤◌, ◌≡◌, ◌⊎◌, inl, inr, refl, some, none,
  List, [], ◌∷◌, ◌++◌, arith, len, append, prefix_to, suffix_from, prefix_to-suffix_from,
  prefix_to-whole, len-positive, ◌∙◌, leb, prefix_to-floor_boundary, leb→le, Bool-cases,
  Option-cases, ◌==◌, nat_eq, ap,
}

-- The beginnings of values of a list, in their order; values may be left out.
pub data ArePrefixes : (values kept : List String) → Type 0 where
  no_more : {values : List String} → ArePrefixes values []
  left_out :
      {value : String} {values kept : List String}
      → ArePrefixes values kept
      → ArePrefixes (value ∷ values) kept
  next_prefix :
      {value start : String} {values kept : List String} (rest : String)
      → append start rest ≡ value
      → ArePrefixes values kept
      → ArePrefixes (value ∷ values) (start ∷ kept)

-- The values that are not empty.
abbrev pub non_empty : List String → List String
non_empty [] = []
non_empty (String.[] ∷ values) = non_empty values
non_empty (String.◌∷◌ c s ∷ values) = String.◌∷◌ c s ∷ non_empty values

-- What is kept of a list that is cut: beginnings of its values, which leave at most four bytes of
-- the budget, or else all but the empty values.
pub record IsListCut (limit : ℕ) (values kept : List String) : Type 0 where
  pub prefixes : ArePrefixes values kept
  pub filled : (limit ≤ list_bytes kept + 4) ⊎ (kept ≡ non_empty values)

width_le : (a b d : Ordering) → width a b d ≤ 4
width_le a b d = ground arith

len_utf8_le : (c : Char) → len_utf8 c ≤ 4
len_utf8_le c = rw (len_utf8_def c) (width_le _ _ _)

-- A text that is cut leaves fewer bytes than a character has.
prefix_to-nearly :
    (value : String) (n : ℕ) → leb (len value) n ≡ false → n ≤ len (prefix_to value n) + 3
unfolding truncate_string_value
prefix_to-nearly value n over =
    let cut : truncate_string_value value n ≡ some (prefix_to value n) =
      rw over (rw (prefix_to-floor_boundary value n) refl) in
    let at_end = truncate_string_value-IsCutAt value (prefix_to value n) n cut in
    omega (arith, at_end.longest, len_utf8_le at_end.dropped)

separator_after_le : (kept : List String) → separator_after kept ≤ 1
separator_after_le [] = omega arith
separator_after_le (k ∷ kept) = omega arith

append-nil : (kept : List String) → kept ≡ kept ++ []
append-nil [] = refl
append-nil (k ∷ kept) = ap (λ rest. k ∷ rest) (append-nil kept)

append-middle :
    (kept : List String) (start : String) (more : List String)
    → (kept ++ (start ∷ [])) ++ more ≡ kept ++ (start ∷ more)
append-middle [] start more = refl
append-middle (k ∷ kept) start more = ap (λ rest. k ∷ rest) (append-middle kept start more)

-- What the loop adds to what it has kept.
record Looped (limit : ℕ) (values kept : List String) (bytes : ℕ) (after : List String × ℕ)
    : Type 0 where
  more : List String
  appended : after.0 ≡ kept ++ more
  prefixes : ArePrefixes values more
  grown : bytes ≤ after.1
  filled : (limit ≤ after.1 + 4) ⊎ (more ≡ non_empty values)

module _ (limit : ℕ) (small : limit ≤ u64_max) where
  abbrev left_of : List String → ℕ → ℕ
  left_of kept bytes = limit - saturating_add bytes (separator_after kept)

  -- A value is pushed whole, or the budget is used up but for a character.
  Pushed : String → String → List String → ℕ → Type 0
  Pushed value start kept bytes =
      (limit ≤ bytes + separator_after kept + len start + 3) ⊎ (start ≡ value)

  prefix_to-Pushed :
      (value : String) (kept : List String) (bytes : ℕ)
      → Pushed value (prefix_to value (left_of kept bytes)) kept bytes
  unfolding Pushed
  prefix_to-Pushed value kept bytes = elim (Bool-cases (leb (len value) (left_of kept bytes))) [
    | inl fits ↦ inr (prefix_to-whole value _ (leb→le _ _ fits))
    | inr over ↦ inl (omega (arith, prefix_to-nearly value _ over))
  ]

  push-Looped :
      (value start rest : String) (values kept : List String) (bytes : ℕ)
      (r after : List String × ℕ)
      → bytes ≤ limit
      → append start rest ≡ value
      → Pushed value start kept bytes
      → push_truncated (some start) kept bytes ≡ some r
      → Looped limit values r.0 r.1 after
      → Looped limit (value ∷ values) kept bytes after
  unfolding Pushed len
  push-Looped value String.[] rest values kept bytes r after room whole pushed h looped =
      let same : (kept, bytes) ≡ r = cc h in
      let later : Looped limit values kept bytes after =
        subst (λ (p : List String × ℕ). Looped limit values p.0 p.1 after) (sym same) looped in
      record {
        more = later.more;
        appended = later.appended;
        prefixes = left_out later.prefixes;
        grown = later.grown;
        filled = elim pushed [
          | inl full ↦ inl (omega (arith, full, later.grown, separator_after_le kept))
          | inr e ↦ rw (← e) later.filled
        ];
      }
  push-Looped value (String.◌∷◌ c s) rest values kept bytes r after room whole pushed h looped =
      let start = String.◌∷◌ c s in
      let total = saturating_add bytes (separator_after kept + len start) in
      let same : (kept ++ (start ∷ []), total) ≡ r = cc h in
      let later : Looped limit values (kept ++ (start ∷ [])) total after =
        subst (λ (p : List String × ℕ). Looped limit values p.0 p.1 after) (sym same) looped in
      let positive = len-positive c s in
      record {
        more = start ∷ later.more;
        appended = later.appended ∙ append-middle kept start later.more;
        prefixes = next_prefix rest whole later.prefixes;
        grown = omega (arith, later.grown, room, small);
        filled = elim pushed [
          | inl full ↦ inl (omega (arith, full, later.grown, small))
          | inr e ↦ elim later.filled [
            | inl full ↦ inl full
            | inr more ↦ inr (rw (← e) (ap (λ rest. start ∷ rest) more))
          ]
        ];
      }

  -- A round stops only when the budget is used up.
  push-some :
      (start : String) (kept : List String) (bytes : ℕ)
      → push_truncated (some start) kept bytes ≡ none
      → ⊥
  push-some String.[] kept bytes h = cc
  push-some (String.◌∷◌ c s) kept bytes h = cc

  list_round-none :
      (value : String) (kept : List String) (bytes : ℕ)
      → list_round value limit kept bytes ≡ none
      → limit ≤ bytes + 1
  unfolding list_round
  list_round-none value kept bytes h = elim (Bool-cases (left_of kept bytes == 0)) [
    | inl full ↦ ground (arith, full, small, separator_after_le kept)
    | inr left ↦ absurd (
        push-some (prefix_to value (left_of kept bytes)) kept bytes
          (rw (left, truncated_value-prefix_to value (left_of kept bytes)) at h))
  ]

  list_round-some :
      (value : String) (kept : List String) (bytes : ℕ) (r : List String × ℕ)
      → list_round value limit kept bytes ≡ some r
      → push_truncated (some (prefix_to value (left_of kept bytes))) kept bytes ≡ some r
  unfolding list_round
  list_round-some value kept bytes r h = elim (Bool-cases (left_of kept bytes == 0)) [
    | inl full ↦ absurd (ground (arith, h, full))
    | inr left ↦ rw (left, truncated_value-prefix_to value (left_of kept bytes)) at h
  ]

  list_loop-Looped :
      (values kept : List String) (bytes : ℕ)
      → IsCounted limit kept bytes
      → Looped limit values kept bytes (list_loop values limit kept bytes)
  unfolding list_loop
  list_loop-Looped [] kept bytes counted = record {
    more = [];
    appended = append-nil kept;
    prefixes = no_more;
    grown = omega arith;
    filled = inr refl;
  }
  list_loop-Looped (value ∷ values) kept bytes counted =
      elim (Option-cases (list_round value limit kept bytes)) [
        | inl broken ↦
            rw (broken, list_loop)
              (record {
                more = [];
                appended = append-nil kept;
                prefixes = no_more;
                grown = omega arith;
                filled = inl (omega (arith, list_round-none value kept bytes broken));
              })
        | inr (r, e) ↦
            rw (e, list_loop)
              (push-Looped value _ (suffix_from value (left_of kept bytes)) values kept bytes r _
                counted.1 (prefix_to-suffix_from value (left_of kept bytes))
                (prefix_to-Pushed value kept bytes) (list_round-some value kept bytes r e)
                (list_loop-Looped values r.0 r.1
                  (list_round-IsCounted limit small value kept bytes r counted e)))
      ]

  pub truncate_string_list-IsListCut :
      (values : List String) → IsListCut limit values (truncate_string_list values limit).0
  unfolding truncate_string_list list_bytes
  truncate_string_list-IsListCut values =
      let looped = list_loop-Looped values [] 0 (refl, omega arith) in
      let counted = (truncate_string_list-IsCounted limit small values).0 in
      record {
        prefixes = rw looped.appended looped.prefixes;
        filled = elim looped.filled [
          | inl full ↦ inl (rw (← counted) full)
          | inr all ↦ inr (looped.appended ∙ all)
        ];
      }
