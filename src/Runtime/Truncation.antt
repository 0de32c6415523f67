-- ===== src/Runtime/Truncation.antt =====
-- How the runtime truncates the fields of a result before it is stored,
-- crates/atelia-core/src/runtime.rs.
use Prim.Native.Char.{len_utf8}
use atelia_secretary.Base.{
  option_eq, nat_eq, string_eq, String, ℕ, ◌+◌, ◌-◌, Option, none, some, List, [], ◌∷◌, ◌++◌, ◌==◌,
  ltb, leb, len, prefix_to, if◌then◌else◌,
}
use atelia_secretary.Domain.Tool.{
  StructuredValue, text_list, ToolResultField, TruncationMetadata, ToolResult,
}
use atelia_secretary.Settings.{ToolOutputDefaults}
use atelia_secretary.Output.Format.{Notation, concat}
use atelia_secretary.Output.Budget.{
  saturating_add, above, truncate_string_value, max_inline_bytes_as_usize, budget_details,
}

-- `string_list_byte_len`, from the bytes counted so far.
unfoldable pub list_len_from : List String → ℕ → ℕ
list_len_from [] bytes = bytes
list_len_from (value ∷ []) bytes = saturating_add bytes (len value)
list_len_from (value ∷ next ∷ values) bytes =
    list_len_from (next ∷ values) (saturating_add (saturating_add bytes (len value)) 1)

unfoldable pub string_list_byte_len : List String → ℕ
unfolding list_len_from
string_list_byte_len values = list_len_from values 0

unfoldable pub runtime_oversized_bytes : StructuredValue → ℕ → Option ℕ
unfolding string_list_byte_len
runtime_oversized_bytes (StructuredValue.text value) limit = above (len value) limit
runtime_oversized_bytes (text_list values) limit = above (string_list_byte_len values) limit
runtime_oversized_bytes _ limit = none

-- `oversized_field_bytes`
abbrev pub runtime_oversized_field_bytes : ToolResultField → ℕ → Option ℕ
runtime_oversized_field_bytes field limit = runtime_oversized_bytes field.value limit

-- The loop over the characters that finds where to cut.
unfoldable pub truncation_end : String → ℕ → ℕ → ℕ
truncation_end String.[] remaining offset = offset
truncation_end (String.◌∷◌ c s) remaining offset =
    let later = truncation_end s remaining (offset + len_utf8 c) in
    if ltb remaining (offset + len_utf8 c) then offset else later

abbrev pub cut_last : ℕ → String → ℕ → List String → ℕ → List String × ℕ
cut_last end value separator kept bytes =
    if ltb 0 end
    then (kept ++ (prefix_to value end ∷ []), bytes + (separator + end))
    else (kept, bytes)

-- The loop over the values; the separator is that of every value but the first.
unfoldable pub runtime_list_loop : List String → ℕ → ℕ → List String → ℕ → List String × ℕ
unfolding truncation_end
runtime_list_loop [] limit separator kept bytes = (kept, bytes)
runtime_list_loop (value ∷ values) limit separator kept bytes =
    let remaining = limit - saturating_add bytes separator in
    let rest =
      runtime_list_loop values limit 1 (kept ++ (value ∷ [])) (bytes + (separator + len value)) in
    if remaining == 0
    then (kept, bytes)
    else if leb (len value) remaining
    then rest
    else cut_last (truncation_end value remaining 0) value separator kept bytes

-- `truncate_string_list`
unfoldable pub runtime_truncate_string_list : List String → ℕ → List String × ℕ
unfolding runtime_list_loop
runtime_truncate_string_list values limit = runtime_list_loop values limit 0 [] 0

pub record ToolResultTruncationReport : Type 0 where
  pub fields : ℕ
  pub original_bytes : ℕ
  pub retained_bytes : ℕ

abbrev pub truncated_text : Option String → Option (StructuredValue × ℕ)
truncated_text none = none
truncated_text (some value) = some (StructuredValue.text value, len value)

unfoldable pub runtime_truncated_value : StructuredValue → ℕ → Option (StructuredValue × ℕ)
unfolding runtime_truncate_string_list
runtime_truncated_value (StructuredValue.text value) limit =
    truncated_text (truncate_string_value value limit)
runtime_truncated_value (text_list values) limit =
    let r = runtime_truncate_string_list values limit in some (text_list r.0, r.1)
runtime_truncated_value _ limit = none

abbrev pub report_truncated :
    Option (StructuredValue × ℕ)
    → ℕ
    → ToolResultField
    → ToolResultTruncationReport
    → ToolResultField × ToolResultTruncationReport
report_truncated none bytes field report = (field, report)
report_truncated (some r) bytes field report = (
  record field { value = r.0 },
  record {
    fields = report.fields + 1;
    original_bytes = saturating_add report.original_bytes bytes;
    retained_bytes = saturating_add report.retained_bytes r.1;
  },
)

unfoldable pub runtime_truncate_field :
    ToolResultField → ℕ → ToolResultTruncationReport → ToolResultField × ToolResultTruncationReport
unfolding runtime_truncated_value
runtime_truncate_field field limit report = elim (runtime_oversized_field_bytes field limit) [
  | none ↦ (field, report)
  | some bytes ↦ report_truncated (runtime_truncated_value field.value limit) bytes field report
]

unfoldable pub runtime_truncate_fields :
    List ToolResultField
    → ℕ
    → ToolResultTruncationReport
    → List ToolResultField × ToolResultTruncationReport
unfolding runtime_truncate_field
runtime_truncate_fields [] limit report = ([], report)
runtime_truncate_fields (field ∷ fields) limit report =
    let r = runtime_truncate_field field limit report in
    let rest = runtime_truncate_fields fields limit r.1 in (r.0 ∷ rest.0, rest.1)

abbrev pub no_report : ToolResultTruncationReport
no_report = record { fields = 0; original_bytes = 0; retained_bytes = 0 }

-- The result afterwards, and the report if a field was truncated.
unfoldable pub truncate_oversized_tool_result_fields :
    ToolResult → ℕ → ToolResult × Option ToolResultTruncationReport
unfolding runtime_truncate_fields
truncate_oversized_tool_result_fields result limit =
    let r = runtime_truncate_fields result.fields limit no_report in
    (record result { fields = r.0 }, if r.1.fields == 0 then none else some r.1)

unfoldable pub merge_runtime_truncation :
    Option TruncationMetadata → ℕ → ℕ → String → TruncationMetadata
merge_runtime_truncation none original_bytes retained_bytes reason = record {
  original_bytes = original_bytes;
  retained_bytes = retained_bytes;
  reason = reason;
}
merge_runtime_truncation (some existing) original_bytes retained_bytes reason = record {
  original_bytes = saturating_add existing.original_bytes original_bytes;
  retained_bytes = saturating_add existing.retained_bytes retained_bytes;
  reason = concat (existing.reason ∷ "; " ∷ reason ∷ []);
}

-- The keys and sizes that `reject_oversized_tool_result` collects.
unfoldable pub runtime_oversized_fields : List ToolResultField → ℕ → List (String × ℕ)
unfolding runtime_oversized_bytes
runtime_oversized_fields [] limit = []
runtime_oversized_fields (field ∷ fields) limit =
    let rest = runtime_oversized_fields fields limit in
    elim (runtime_oversized_field_bytes field limit) [
      | none ↦ rest
      | some bytes ↦ (field.key, bytes) ∷ rest
    ]

abbrev pub rejection : Notation → ToolOutputDefaults → List (String × ℕ) → Option String
rejection notation defaults [] = none
rejection notation defaults (field ∷ fields) = some (
    concat (
      "tool output field(s) exceed max_inline_bytes="
      ∷ notation.print defaults.max_inline_bytes
      ∷ " with configured policy reject_oversize: "
      ∷ budget_details notation (field ∷ fields)
      ∷ []))

unfoldable pub reject_oversized_tool_result :
    Notation → ToolResult → ToolOutputDefaults → Option String
unfolding runtime_oversized_fields
reject_oversized_tool_result notation result defaults =
    rejection notation defaults
      (runtime_oversized_fields result.fields (max_inline_bytes_as_usize defaults.max_inline_bytes))
