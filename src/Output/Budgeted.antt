-- ===== src/Output/Budgeted.antt =====
-- The outcome of applying a byte budget to a result, crates/atelia-core/src/tool_output.rs.
use atelia_secretary.Output.{OversizeOutputPolicy-discrete, oversize_eq}
use atelia_secretary.Base.{min, any, is_ok, ◌!=◌, ◌||◌, not, Bool}
use atelia_secretary.Domain.Time.{u64_max}
use atelia_secretary.Output.{reject_oversize, truncate_with_metadata, spill_to_artifact_ref}
use atelia_secretary.Base.{subst, Option-cases, length, ◌+◌, false, ◌==◌, nat_eq}
use atelia_secretary.Domain.Tool.{ToolResult, TruncationMetadata, ToolResultField}
use atelia_secretary.Output.{OversizeOutputPolicy}
use atelia_secretary.Output.Format.{Notation}
use atelia_secretary.Output.Within.{
  oversized_total, retained_total, AreFitted, truncate_fields-AreFitted, oversized_fields-AreFitted,
}
use atelia_secretary.Output.Budget.{
  oversized_field_bytes, truncate_field, no_tally, Tally, truncate_fields, apply_render_byte_budget,
  max_inline_bytes_as_usize, merge_truncation, oversized_fields, budgeted, over_budget,
  truncated_result,
}
use atelia_secretary.Base.{
  ℕ, String, Option, none, some, List, [], ◌∷◌, ◌≡◌, refl, ◌≤◌, ok, is_some, true, arith, ◌⊎◌, inl,
  inr,
}

-- A result within the budget: its fields fit and keep their order, and either nothing is done, or
-- the bytes that the cut values had and those that are left of them are told, added to what was
-- truncated before.
pub record IsBudgeted (limit : ℕ) (result after : ToolResult) (reason : Option String)
    : Type 0 where
  pub fitted : AreFitted limit result.fields after.fields
  pub told :
      ((after ≡ result) × (reason ≡ none))
      ⊎ ((rendered : TruncationMetadata) × (rendered.original_bytes
            ≡ min (oversized_total limit result.fields) u64_max)
          × (rendered.retained_bytes
              ≡ min (retained_total limit result.fields after.fields) u64_max)
          × (after ≡ record result {
            fields = after.fields;
            truncation = some (merge_truncation result.truncation rendered);
          })
          × (is_some reason ≡ true))

-- The loop counts the fields that are above the budget.
truncate_fields-omitted :
    (limit : ℕ) (fields : List ToolResultField) (tally : Tally)
    → (truncate_fields fields limit tally).1.omitted_fields
      ≡ tally.omitted_fields + length (oversized_fields fields limit)
unfolding truncate_fields oversized_fields
truncate_fields-omitted limit [] tally = omega arith
truncate_fields-omitted limit (field ∷ fields) tally =
    let rest = truncate_fields-omitted limit fields (truncate_field field limit tally).1 in
    elim (Option-cases (oversized_field_bytes field limit)) [
      | inl fits ↦
          rw (fits, truncate_field, oversized_fields) (truncate_fields-omitted limit fields tally)
      | inr (bytes, over) ↦
          rw (over, truncate_field, oversized_fields)
            (omega (arith, rw (over, truncate_field) at rest))
    ]

module _ (notation : Notation) (result : ToolResult) (limit : ℕ) (small : limit ≤ u64_max)
    (first : String × ℕ) (more : List (String × ℕ))
    (over : oversized_fields result.fields limit ≡ first ∷ more) where
  truncated-IsBudgeted :
      (details : String)
      → IsBudgeted limit result
          (truncated_result notation result limit details).0
          (truncated_result notation result limit details).1
  truncated-IsBudgeted details =
      let (fitted, told) =
        truncate_fields-AreFitted limit small result.fields no_tally (omega arith) (omega arith) in
      let counted = truncate_fields-omitted limit result.fields no_tally in
      let some_over : ((truncate_fields result.fields limit no_tally).1.omitted_fields == 0)
          ≡ false =
        ground (arith, counted, over) in
      rw some_over (record {
        fitted = fitted;
        told = inr (_, omega (arith, told.original), omega (arith, told.retained), refl, refl);
      })

  over_budget-IsBudgeted :
      (oversize_policy : OversizeOutputPolicy) (details : String) (after : ToolResult)
      (reason : Option String)
      → over_budget notation oversize_policy result limit details ≡ ok (after, reason)
      → IsBudgeted limit result after reason
  unfolding over_budget
  over_budget-IsBudgeted reject_oversize details after reason h = cc
  over_budget-IsBudgeted truncate_with_metadata details after reason h =
      let e : truncated_result notation result limit details ≡ (after, reason) = cc h in
      subst (λ (p : ToolResult × Option String). IsBudgeted limit result p.0 p.1) e
        (truncated-IsBudgeted details)
  over_budget-IsBudgeted spill_to_artifact_ref details after reason h =
      let e : truncated_result notation result limit details ≡ (after, reason) = cc h in
      subst (λ (p : ToolResult × Option String). IsBudgeted limit result p.0 p.1) e
        (truncated-IsBudgeted details)

module _ (notation : Notation) (result : ToolResult) (max_inline_bytes : ℕ)
    (oversize_policy : OversizeOutputPolicy) where
  abbrev budget : ℕ
  budget = max_inline_bytes_as_usize max_inline_bytes

  budget-small : budget ≤ u64_max
  unfolding max_inline_bytes_as_usize
  budget-small = omega arith

  budgeted-IsBudgeted :
      (oversized : List (String × ℕ)) (after : ToolResult) (reason : Option String)
      → oversized_fields result.fields budget ≡ oversized
      → budgeted notation oversized result budget oversize_policy ≡ ok (after, reason)
      → IsBudgeted budget result after reason
  budgeted-IsBudgeted [] after reason fits h =
      let same : result ≡ after = cc h in
      let silent : none ≡ reason = cc h in
      rw (← same, ← silent)
        (record {
          fitted = oversized_fields-AreFitted budget budget-small result.fields fits;
          told = inl (refl, refl);
        })
  budgeted-IsBudgeted (first ∷ more) after reason over h =
      over_budget-IsBudgeted notation result budget budget-small first more over oversize_policy _
        after reason h

  -- A byte budget, where it is applied and not refused, leaves fields that all fit it, under the
  -- same keys in the same order, those that fitted before unchanged. A text above it is cut to the
  -- longest prefix of whole characters that fits. Of a list above it beginnings of its values are
  -- kept in their order, which leave no more than four bytes of the budget or are all the values
  -- that are not empty. What is cut is told: the bytes of the values above the budget and those that
  -- are left of them, each up to the greatest u64, are added to the truncation of the result, and
  -- there is a reason.
  pub apply_render_byte_budget-IsBudgeted :
      (after : ToolResult) (reason : Option String)
      → apply_render_byte_budget notation result max_inline_bytes oversize_policy
        ≡ ok (after, reason)
      → IsBudgeted (max_inline_bytes_as_usize max_inline_bytes) result after reason
  unfolding apply_render_byte_budget
  apply_render_byte_budget-IsBudgeted after reason h = budgeted-IsBudgeted _ after reason refl h

is_empty_list : List (String × ℕ) → Bool
is_empty_list [] = true
is_empty_list (x ∷ xs) = false

abbrev pub is_oversized : ℕ → ToolResultField → Bool
is_oversized limit field = is_some (oversized_field_bytes field limit)

oversized_fields-any :
    (limit : ℕ) (fields : List ToolResultField)
    → is_empty_list (oversized_fields fields limit) ≡ not (any (is_oversized limit) fields)
unfolding oversized_fields is_empty_list
oversized_fields-any limit [] = refl
oversized_fields-any limit (field ∷ fields) =
    elim (Option-cases (oversized_field_bytes field limit)) [
      | inl fits ↦ rw (fits, oversized_fields) (oversized_fields-any limit fields)
      | inr (bytes, over) ↦ rw (over, oversized_fields) refl
    ]

over_budget-is_ok :
    (notation : Notation) (result : ToolResult) (limit : ℕ) (details : String)
    (oversize_policy : OversizeOutputPolicy)
    → is_ok (over_budget notation oversize_policy result limit details)
      ≡ (oversize_policy != reject_oversize) || false
unfolding over_budget OversizeOutputPolicy-discrete
over_budget-is_ok notation result limit details reject_oversize = refl
over_budget-is_ok notation result limit details truncate_with_metadata = refl
over_budget-is_ok notation result limit details spill_to_artifact_ref = refl

module _ (notation : Notation) (result : ToolResult) (max_inline_bytes : ℕ)
    (oversize_policy : OversizeOutputPolicy) where
  budgeted-is_ok :
      (oversized : List (String × ℕ)) (limit : ℕ)
      → is_ok (budgeted notation oversized result limit oversize_policy)
        ≡ (oversize_policy != reject_oversize) || is_empty_list oversized
  unfolding is_empty_list
  budgeted-is_ok [] limit = ground arith
  budgeted-is_ok (first ∷ more) limit = over_budget-is_ok notation result limit _ oversize_policy

  -- A byte budget is refused exactly when the policy rejects and some field is above the budget.
  pub apply_render_byte_budget-is_ok :
      is_ok (apply_render_byte_budget notation result max_inline_bytes oversize_policy)
      ≡ (oversize_policy != reject_oversize)
        || not (any (is_oversized (max_inline_bytes_as_usize max_inline_bytes)) result.fields)
  unfolding apply_render_byte_budget
  apply_render_byte_budget-is_ok =
      let limit = max_inline_bytes_as_usize max_inline_bytes in
      rw (← oversized_fields-any limit result.fields)
        (budgeted-is_ok (oversized_fields result.fields limit) limit)
