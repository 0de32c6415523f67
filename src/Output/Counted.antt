-- ===== src/Output/Counted.antt =====
-- The loop over a list counts the bytes that it keeps, crates/atelia-core/src/tool_output.rs.
use atelia_secretary.Domain.Time.{u64_max}
use atelia_secretary.Output.Budget.{
  above, truncate_string_list, list_bytes, truncate_string_value, separator_after, truncated_value,
  push_truncated, list_round, list_loop, saturating_add, sum_len,
}
use atelia_secretary.Base.{
  ◌<◌, none, option_eq, nat_eq, string_eq, len-positive, ◌==◌, Option-cases, leb→le, length-append,
  String, ℕ, ◌+◌, ◌-◌, ◌≤◌, ◌≡◌, refl, some, List, [], ◌∷◌, ◌++◌, arith, len, prefix_to,
  prefix_to-len, prefix_to-floor_boundary, prefix_to-whole, leb, Bool-cases, inl, inr,
}

pub above-none : (n limit : ℕ) → n ≤ limit → above n limit ≡ none
above-none n limit h = ground arith

pub above-some : (n limit bytes : ℕ) → above n limit ≡ some bytes → (bytes ≡ n) × (limit < n)
above-some n limit bytes h = ground arith

-- Cutting a text keeps the longest whole prefix that fits.
pub truncated_value-prefix_to :
    (value : String) (remaining : ℕ)
    → truncated_value value remaining ≡ some (prefix_to value remaining)
unfolding truncate_string_value
truncated_value-prefix_to value remaining = elim (Bool-cases (leb (len value) remaining)) [
  | inl fits ↦
      rw fits (rw (prefix_to-whole value remaining (leb→le (len value) remaining fits)) refl)
  | inr over ↦ rw over (rw (prefix_to-floor_boundary value remaining) refl)
]

sum_len-append :
    (kept : List String) (value : String)
    → sum_len (kept ++ (value ∷ [])) ≡ sum_len kept + len value
sum_len-append [] value = omega arith
sum_len-append (k ∷ kept) value = omega (arith, sum_len-append kept value)

pub list_bytes-append :
    (kept : List String) (value : String)
    → list_bytes (kept ++ (value ∷ [])) ≡ list_bytes kept + (separator_after kept + len value)
unfolding list_bytes
list_bytes-append [] value = omega arith
list_bytes-append (k ∷ kept) value =
    omega (arith, sum_len-append kept value, length-append kept (value ∷ []))

-- The loop counts the bytes of what it keeps, within the budget.
abbrev pub IsCounted : ℕ → List String → ℕ → Type 0
IsCounted limit kept bytes = (bytes ≡ list_bytes kept) × (bytes ≤ limit)

module _ (limit : ℕ) (small : limit ≤ u64_max) where
  push_truncated-IsCounted :
      (value : String) (kept : List String) (bytes : ℕ) (after : List String × ℕ)
      → IsCounted limit kept bytes
      → len value + saturating_add bytes (separator_after kept) ≤ limit
      → push_truncated (some value) kept bytes ≡ some after
      → IsCounted limit after.0 after.1
  push_truncated-IsCounted String.[] kept bytes after (same, fits) room h =
      let e : (kept, bytes) ≡ after = cc h in rw (← e) (same, fits)
  push_truncated-IsCounted (String.◌∷◌ c s) kept bytes after (same, fits) room h =
      let e : (
        kept ++ (String.◌∷◌ c s ∷ []),
        saturating_add bytes (separator_after kept + len (String.◌∷◌ c s)),
      )
          ≡ after =
        cc h in
      let total = list_bytes-append kept (String.◌∷◌ c s) in
      let some_bytes = len-positive c s in
      rw (← e) (
        omega (arith, same, total, room, small, some_bytes),
        omega (arith, room, small, some_bytes),
      )

  pub list_round-IsCounted :
      (value : String) (kept : List String) (bytes : ℕ) (after : List String × ℕ)
      → IsCounted limit kept bytes
      → list_round value limit kept bytes ≡ some after
      → IsCounted limit after.0 after.1
  unfolding list_round
  list_round-IsCounted value kept bytes after counted h =
      let remaining = limit - saturating_add bytes (separator_after kept) in
      elim (Bool-cases (remaining == 0)) [
        | inl full ↦ absurd (ground (arith, h))
        | inr left ↦
            let cut = truncated_value-prefix_to value remaining in
            push_truncated-IsCounted (prefix_to value remaining) kept bytes after counted
              (ground (arith, prefix_to-len value remaining, left)) (rw (left, cut) at h)
      ]

  list_loop-IsCounted :
      (values kept : List String) (bytes : ℕ)
      → IsCounted limit kept bytes
      → IsCounted limit (list_loop values limit kept bytes).0 (list_loop values limit kept bytes).1
  unfolding list_loop
  list_loop-IsCounted [] kept bytes counted = counted
  list_loop-IsCounted (value ∷ values) kept bytes counted =
      elim (Option-cases (list_round value limit kept bytes)) [
        | inl broken ↦ rw (broken, list_loop) counted
        | inr (r, e) ↦
            rw (e, list_loop)
              (list_loop-IsCounted values r.0 r.1
                (list_round-IsCounted value kept bytes r counted e))
      ]

  pub truncate_string_list-IsCounted :
      (values : List String)
      → IsCounted limit (truncate_string_list values limit).0 (truncate_string_list values limit).1
  unfolding truncate_string_list list_bytes
  truncate_string_list-IsCounted values = list_loop-IsCounted values [] 0 (refl, omega arith)
