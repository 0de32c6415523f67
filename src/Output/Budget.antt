-- ===== src/Output/Budget.antt =====
-- The byte budget of rendered fields, crates/atelia-core/src/tool_output.rs. A usize has 64 bits.
use atelia_secretary.Domain.Time.{u64_max}
use atelia_secretary.Domain.Tool.{
  StructuredValue, ToolResultField, TruncationMetadata, ToolResult, text_list,
}
use atelia_secretary.Output.{
  OutputFormat, OversizeOutputPolicy, truncate_with_metadata, spill_to_artifact_ref,
  reject_oversize,
}
use atelia_secretary.Output.Format.{Notation, concat, join}
use atelia_secretary.Base.{
  option_eq, nat_eq, string_eq, String, ℕ, ◌+◌, ◌-◌, Option, none, some, List, [], ◌∷◌, ◌++◌, ltb,
  leb, min, len, prefix_to, floor_boundary, or_else, if◌then◌else◌, ◌==◌, Result, ok, err, length,
  map,
}

pub data ToolOutputRenderError : Type 0 where
  unsupported_format : OutputFormat → ToolOutputRenderError
  json_serialize oversize_output : String → ToolOutputRenderError

abbrev pub RenderResult {ℓ} : Type ℓ → Type ℓ
RenderResult A = Result ToolOutputRenderError A

abbrev pub saturating_add : ℕ → ℕ → ℕ
saturating_add a b = min (a + b) u64_max

unfoldable pub max_inline_bytes_as_usize : ℕ → ℕ
max_inline_bytes_as_usize max_inline_bytes = min max_inline_bytes u64_max

abbrev pub sum_len : List String → ℕ
sum_len [] = 0
sum_len (value ∷ values) = len value + sum_len values

-- The bytes of a list, with a separator between its elements.
unfoldable pub list_bytes : List String → ℕ
list_bytes [] = 0
list_bytes (value ∷ values) = sum_len (value ∷ values) + (length (value ∷ values) - 1)

abbrev pub above : ℕ → ℕ → Option ℕ
above bytes max_inline_bytes = if ltb max_inline_bytes bytes then some bytes else none

unfoldable pub oversized_bytes : StructuredValue → ℕ → Option ℕ
unfolding list_bytes
oversized_bytes (StructuredValue.text value) max_inline_bytes = above (len value) max_inline_bytes
oversized_bytes (text_list values) max_inline_bytes = above (list_bytes values) max_inline_bytes
oversized_bytes _ max_inline_bytes = none

abbrev pub oversized_field_bytes : ToolResultField → ℕ → Option ℕ
oversized_field_bytes field max_inline_bytes = oversized_bytes field.value max_inline_bytes

unfoldable pub truncate_string_value : String → ℕ → Option String
truncate_string_value value max_inline_bytes =
    if leb (len value) max_inline_bytes
    then none
    else some (prefix_to value (floor_boundary value max_inline_bytes))

abbrev pub separator_after : List String → ℕ
separator_after [] = 0
separator_after (value ∷ values) = 1

-- What is pushed of a value: all of it, or as much as still fits.
abbrev pub truncated_value : String → ℕ → Option String
truncated_value value remaining =
    or_else (truncate_string_value value remaining)
      (if leb (len value) remaining then some value else none)

abbrev pub push_truncated : Option String → List String → ℕ → Option (List String × ℕ)
push_truncated none kept bytes = none
push_truncated (some String.[]) kept bytes = some (kept, bytes)
push_truncated (some (String.◌∷◌ c s)) kept bytes = some (
  kept ++ (String.◌∷◌ c s ∷ []),
  saturating_add bytes (separator_after kept + len (String.◌∷◌ c s)),
)

-- One round of the loop of `truncate_string_list`; `none` is its `break`.
unfoldable pub list_round : String → ℕ → List String → ℕ → Option (List String × ℕ)
unfolding truncate_string_value
list_round value max_inline_bytes kept bytes =
    let remaining = max_inline_bytes - saturating_add bytes (separator_after kept) in
    if remaining == 0 then none else push_truncated (truncated_value value remaining) kept bytes

unfoldable pub list_loop : List String → ℕ → List String → ℕ → List String × ℕ
unfolding list_round
list_loop [] max_inline_bytes kept bytes = (kept, bytes)
list_loop (value ∷ values) max_inline_bytes kept bytes =
    elim (list_round value max_inline_bytes kept bytes) [
      | none ↦ (kept, bytes)
      | some r ↦ list_loop values max_inline_bytes r.0 r.1
    ]

unfoldable pub truncate_string_list : List String → ℕ → List String × ℕ
unfolding list_loop
truncate_string_list values max_inline_bytes = list_loop values max_inline_bytes [] 0

-- What the loop over the fields counts.
pub record Tally : Type 0 where
  pub omitted_fields : ℕ
  pub original_bytes : ℕ
  pub retained_bytes : ℕ

abbrev pub kept_or : Option String → String → StructuredValue × ℕ
kept_or none value = (StructuredValue.text value, 0)
kept_or (some truncated) value = (StructuredValue.text truncated, len truncated)

-- The value that stays of an oversized one, and the bytes it retains.
unfoldable pub truncate_value : StructuredValue → ℕ → StructuredValue × ℕ
unfolding truncate_string_value truncate_string_list
truncate_value (StructuredValue.text value) max_inline_bytes =
    kept_or (truncate_string_value value max_inline_bytes) value
truncate_value (text_list values) max_inline_bytes =
    let r = truncate_string_list values max_inline_bytes in (text_list r.0, r.1)
truncate_value value max_inline_bytes = (value, 0)

unfoldable pub truncate_field : ToolResultField → ℕ → Tally → ToolResultField × Tally
unfolding truncate_value
truncate_field field max_inline_bytes tally = elim (oversized_field_bytes field max_inline_bytes) [
  | none ↦ (field, tally)
  | some bytes ↦
      let r = truncate_value field.value max_inline_bytes in
      (
        record field { value = r.0 },
        record {
          omitted_fields = tally.omitted_fields + 1;
          original_bytes = saturating_add tally.original_bytes bytes;
          retained_bytes = saturating_add tally.retained_bytes r.1;
        },
      )
]

unfoldable pub truncate_fields : List ToolResultField → ℕ → Tally → List ToolResultField × Tally
unfolding truncate_field
truncate_fields [] max_inline_bytes tally = ([], tally)
truncate_fields (field ∷ fields) max_inline_bytes tally =
    let r = truncate_field field max_inline_bytes tally in
    let rest = truncate_fields fields max_inline_bytes r.1 in (r.0 ∷ rest.0, rest.1)

abbrev pub no_tally : Tally
no_tally = record { omitted_fields = 0; original_bytes = 0; retained_bytes = 0 }

-- The keys and sizes of the fields above the budget.
unfoldable pub oversized_fields : List ToolResultField → ℕ → List (String × ℕ)
oversized_fields [] max_inline_bytes = []
oversized_fields (field ∷ fields) max_inline_bytes =
    let rest = oversized_fields fields max_inline_bytes in
    elim (oversized_field_bytes field max_inline_bytes) [
      | none ↦ rest
      | some bytes ↦ (field.key, bytes) ∷ rest
    ]

abbrev pub merge_truncation : Option TruncationMetadata → TruncationMetadata → TruncationMetadata
merge_truncation none rendered = rendered
merge_truncation (some existing) rendered = record {
  original_bytes = saturating_add existing.original_bytes rendered.original_bytes;
  retained_bytes = saturating_add existing.retained_bytes rendered.retained_bytes;
  reason = concat (existing.reason ∷ "; " ∷ rendered.reason ∷ []);
}

module _ (notation : Notation) where
  unfoldable pub budget_details : List (String × ℕ) → String
  budget_details oversized = join ", " (
      map (λ (f : String × ℕ). concat (f.0 ∷ " (" ∷ notation.print f.1 ∷ " bytes)" ∷ [])) oversized)

  abbrev pub truncated_result : ToolResult → ℕ → String → ToolResult × Option String
  truncated_result result limit details =
      let r = truncate_fields result.fields limit no_tally in
      if r.1.omitted_fields == 0 then (record result { fields = r.0 }, none) else (
        record result {
          fields = r.0;
          truncation = some (
              merge_truncation result.truncation (record {
                original_bytes = r.1.original_bytes;
                retained_bytes = r.1.retained_bytes;
                reason = concat (
                    "rendering truncated oversized tool output to max_inline_bytes="
                    ∷ notation.print limit
                    ∷ []);
              }));
        },
        some (
            concat (
              "rendering truncated oversized output to max_inline_bytes="
              ∷ notation.print limit
              ∷ "; omitted fields="
              ∷ notation.print r.1.omitted_fields
              ∷ ", details="
              ∷ details
              ∷ [])),
      )

  unfoldable pub over_budget :
      OversizeOutputPolicy → ToolResult → ℕ → String → RenderResult (ToolResult × Option String)
  over_budget reject_oversize result limit details = err (
      oversize_output (
        concat (
          "tool output field(s) exceed max_inline_bytes="
          ∷ notation.print limit
          ∷ " with configured policy reject_oversize: "
          ∷ details
          ∷ [])))
  over_budget truncate_with_metadata result limit details =
      ok (truncated_result result limit details)
  over_budget spill_to_artifact_ref result limit details =
      ok (truncated_result result limit details)

  abbrev pub budgeted :
      List (String × ℕ)
      → ToolResult
      → ℕ
      → OversizeOutputPolicy
      → RenderResult (ToolResult × Option String)
  budgeted [] result limit oversize_policy = ok (result, none)
  budgeted (field ∷ fields) result limit oversize_policy =
      over_budget oversize_policy result limit (budget_details (field ∷ fields))

  unfoldable pub apply_render_byte_budget :
      ToolResult → ℕ → OversizeOutputPolicy → RenderResult (ToolResult × Option String)
  unfolding oversized_fields
  apply_render_byte_budget result max_inline_bytes oversize_policy =
      let limit = max_inline_bytes_as_usize max_inline_bytes in
      budgeted (oversized_fields result.fields limit) result limit oversize_policy
