-- ===== src/Output/Within.antt =====
-- Fields within the byte budget, crates/atelia-core/src/tool_output.rs.
use atelia_secretary.Domain.Tool.{
  ToolResultField, null, boolean, integer, text_list, StructuredValue,
}
use atelia_secretary.Domain.Tool.{integer, boolean, text_list, StructuredValue}
use atelia_secretary.Domain.Time.{u64_max}
use atelia_secretary.Output.Budget.{
  oversized_field_bytes, oversized_fields, Tally, above, truncate_field, truncate_fields,
  truncate_value, oversized_bytes, list_bytes, truncate_string_value, saturating_add,
}
use atelia_secretary.Output.Counted.{above-none, above-some, truncate_string_list-IsCounted}
use atelia_secretary.Output.Filled.{IsListCut, truncate_string_list-IsListCut}
use atelia_secretary.Output.Cut.{IsCutAt, truncate_string_value-IsCutAt}
use atelia_secretary.Base.{
  true, false, ltb, if◌then◌else◌, ◌<◌, floor_boundary, none, option_eq, nat_eq, string_eq,
  Option-cases, ℕ, ◌+◌, ◌≤◌, ◌≡◌, refl, some, List, [], ◌∷◌, arith, len, prefix_to, prefix_to-len,
  prefix_to-floor_boundary, inl, inr,
}

-- The bytes of a value that has a size.
abbrev pub value_bytes : StructuredValue → ℕ
value_bytes (StructuredValue.text value) = len value
value_bytes (text_list values) = list_bytes values
value_bytes _ = 0

-- What is left of a value that is cut.
abbrev pub IsValueCut : ℕ → StructuredValue → StructuredValue → Type 0
IsValueCut limit (StructuredValue.text value) (StructuredValue.text kept) = IsCutAt value kept limit
IsValueCut limit (text_list values) (text_list kept) = IsListCut limit values kept
IsValueCut limit _ _ = ⊥

oversized_bytes-above :
    (value : StructuredValue) (limit : ℕ)
    → oversized_bytes value limit ≡ above (value_bytes value) limit
unfolding oversized_bytes
oversized_bytes-above (StructuredValue.text value) limit = refl
oversized_bytes-above (text_list values) limit = refl
oversized_bytes-above null limit = ground arith
oversized_bytes-above (boolean b) limit = ground arith
oversized_bytes-above (integer n) limit = ground arith

module _ (limit : ℕ) (small : limit ≤ u64_max) where
  -- What stays of a value is cut as it should be and fits, and its bytes are told.
  truncate_value-cut :
      (value : StructuredValue) (bytes : ℕ)
      → oversized_bytes value limit ≡ some bytes
      → IsValueCut limit value (truncate_value value limit).0
        × ((truncate_value value limit).1 ≡ value_bytes (truncate_value value limit).0)
        × (oversized_bytes (truncate_value value limit).0 limit ≡ none)
        × (limit < bytes)
        × (bytes ≡ value_bytes value)
  unfolding oversized_bytes truncate_value truncate_string_value
  truncate_value-cut (StructuredValue.text value) bytes h =
      let (same, over) = above-some (len value) limit bytes h in
      let cut : truncate_string_value value limit
          ≡ some (prefix_to value (floor_boundary value limit)) =
        ground (arith, over) in
      let fits : len (prefix_to value (floor_boundary value limit)) ≤ limit =
        rw (prefix_to-floor_boundary value limit) (prefix_to-len value limit) in
      rw cut (
        truncate_string_value-IsCutAt value _ limit cut,
        refl,
        above-none _ limit fits,
        omega (arith, same, over),
        same,
      )
  truncate_value-cut (text_list values) bytes h =
      let (same, fits) = truncate_string_list-IsCounted limit small values in
      let (total, over) = above-some (list_bytes values) limit bytes h in
      (
        truncate_string_list-IsListCut limit small values,
        same,
        above-none _ limit (omega (arith, same, fits)),
        omega (arith, total, over),
        total,
      )
  truncate_value-cut null bytes h = cc
  truncate_value-cut (boolean b) bytes h = cc
  truncate_value-cut (integer n) bytes h = cc

-- What becomes of a field: its key stays; a value that fits stays, and another is cut to fit.
pub record IsFitted (limit : ℕ) (field after : ToolResultField) : Type 0 where
  pub same_key : after.key ≡ field.key
  pub within : value_bytes after.value ≤ limit
  pub kept : value_bytes field.value ≤ limit → after ≡ field
  pub cut : limit < value_bytes field.value → IsValueCut limit field.value after.value

pub data AreFitted (limit : ℕ) : (fields after : List ToolResultField) → Type 0 where
  no_fields : AreFitted limit [] []
  next_field :
      {field after : ToolResultField} {fields afters : List ToolResultField}
      → IsFitted limit field after
      → AreFitted limit fields afters
      → AreFitted limit (field ∷ fields) (after ∷ afters)

-- The bytes that the values above the budget had, and those that are left of them.
abbrev pub oversized_total : ℕ → List ToolResultField → ℕ
oversized_total limit [] = 0
oversized_total limit (field ∷ fields) =
    (if ltb limit (value_bytes field.value) then value_bytes field.value else 0)
    + oversized_total limit fields

abbrev pub retained_total : ℕ → List ToolResultField → List ToolResultField → ℕ
retained_total limit (field ∷ fields) (after ∷ afters) =
    (if ltb limit (value_bytes field.value) then value_bytes after.value else 0)
    + retained_total limit fields afters
retained_total limit _ _ = 0

-- The bytes that are told, up to the greatest number.
pub record IsTold (limit : ℕ) (fields after : List ToolResultField) (from to : Tally) : Type 0 where
  pub original :
      to.original_bytes ≡ saturating_add from.original_bytes (oversized_total limit fields)
  pub retained :
      to.retained_bytes ≡ saturating_add from.retained_bytes (retained_total limit fields after)

fits-IsFitted :
    (limit : ℕ) (field : ToolResultField)
    → oversized_field_bytes field limit ≡ none
    → (value_bytes field.value ≤ limit) × IsFitted limit field field
fits-IsFitted limit field fits =
    let within : value_bytes field.value ≤ limit =
      ground (arith, fits, oversized_bytes-above field.value limit) in
    (
      within,
      record {
        same_key = refl;
        within = within;
        kept = λ h. refl;
        cut = λ over. absurd (omega (arith, over, within));
      },
    )

module _ (limit : ℕ) (small : limit ≤ u64_max) where
  pub truncate_fields-AreFitted :
      (fields : List ToolResultField) (tally : Tally)
      → tally.original_bytes ≤ u64_max
      → tally.retained_bytes ≤ u64_max
      → AreFitted limit fields (truncate_fields fields limit tally).0
        × IsTold limit fields
            (truncate_fields fields limit tally).0
            tally
            (truncate_fields fields limit tally).1
  unfolding truncate_fields truncate_field
  truncate_fields-AreFitted [] tally o r =
      (no_fields, record { original = omega (arith, o); retained = omega (arith, r) })
  truncate_fields-AreFitted (field ∷ fields) tally o r =
      elim (Option-cases (oversized_field_bytes field limit)) [
        | inl fits ↦
            let (within, fitted) = fits-IsFitted limit field fits in
            let (rest, told) = truncate_fields-AreFitted fields tally o r in
            let small_value : ltb limit (value_bytes field.value) ≡ false =
              ground (arith, within) in
            rw (fits, truncate_fields, truncate_field)
              (
                next_field fitted rest,
                record {
                  original = rw small_value (omega (arith, told.original));
                  retained = rw small_value (omega (arith, told.retained));
                },
              )
        | inr (bytes, over) ↦
            let (cut, same, fits, big, total) =
              truncate_value-cut limit small field.value bytes over in
            let after = truncate_value field.value limit in
            let (rest, told) =
              truncate_fields-AreFitted fields
                (record {
                  omitted_fields = tally.omitted_fields + 1;
                  original_bytes = saturating_add tally.original_bytes bytes;
                  retained_bytes = saturating_add tally.retained_bytes after.1;
                })
                (omega arith) (omega arith) in
            let big_value : ltb limit (value_bytes field.value) ≡ true =
              ground (arith, big, total) in
            rw (over, truncate_fields, truncate_field)
              (
                next_field
                    (record {
                      same_key = refl;
                      within = ground (arith, fits, oversized_bytes-above after.0 limit);
                      kept = λ h. absurd (omega (arith, h, big, total));
                      cut = λ h. cut;
                    })
                    rest,
                record {
                  original = rw big_value (omega (arith, told.original, total));
                  retained = rw big_value (omega (arith, told.retained, same));
                },
              )
      ]

  pub oversized_fields-AreFitted :
      (fields : List ToolResultField)
      → oversized_fields fields limit ≡ []
      → AreFitted limit fields fields
  unfolding oversized_fields
  oversized_fields-AreFitted [] h = no_fields
  oversized_fields-AreFitted (field ∷ fields) h =
      elim (Option-cases (oversized_field_bytes field limit)) [
        | inl fits ↦
            next_field (fits-IsFitted limit field fits).1
              (oversized_fields-AreFitted fields (rw (fits, oversized_fields) at h))
        | inr (bytes, over) ↦ absurd (ground (arith, h, over))
      ]
