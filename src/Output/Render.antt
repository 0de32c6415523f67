-- ===== src/Output/Render.antt =====
-- What is rendered of a result under a policy, crates/atelia-core/src/tool_output.rs.
use atelia_secretary.Policy.Names.{to_ascii_lowercase}
use atelia_secretary.Domain.Tool.{
  succeeded, failed, canceled, timed_out, StructuredValue, ToolResultField, TruncationMetadata,
  ToolResult, ToolResultStatus,
}
use atelia_secretary.Output.{OutputFormat, RenderOptions, ToolOutputRenderPolicy}
use atelia_secretary.Output.Format.{Notation, concat}
use atelia_secretary.Output.Budget.{RenderResult, apply_render_byte_budget}
use atelia_secretary.Base.{
  option_eq, nat_eq, string_eq, String, ℕ, ◌-◌, Bool, true, not, ◌||◌, Option, none, some, List, [],
  ◌∷◌, ◌++◌, ◌==◌, ltb, trim, codes, map, select, take, length, is_word, starts_with, ends_with, ok,
  ◌>>=◌, if◌then◌else◌,
}

pub record RenderedToolOutput : Type 0 where
  pub format : OutputFormat
  pub schema_version : String
  pub body : String
  pub fallback_reason : Option String
  pub truncation : Option TruncationMetadata

pub data OptionalFieldChannel : Type 0 where
  policy diagnostics cost : OptionalFieldChannel

-- `replace(['-', '.', ' '], "_")`, of one code point.
abbrev pub to_underscore : ℕ → ℕ
to_underscore c = if c == b'-' || c == b'.' || c == b' ' then b'_' else c

unfoldable pub normalized_key : String → List ℕ
normalized_key key = map (λ c. to_underscore (to_ascii_lowercase c)) (codes (trim key))

unfoldable pub optional_field_channel : String → Option OptionalFieldChannel
unfolding normalized_key
optional_field_channel key =
    let k = normalized_key key in
    if is_word k "policy"
      || starts_with k "policy_"
      || is_word k "needs_approval"
      || is_word k "blocked_reason"
    then some policy
    else if is_word k "diagnostic"
        || is_word k "diagnostics"
        || starts_with k "diagnostic_"
        || starts_with k "diagnostics_"
        || is_word k "retry_hint"
        || is_word k "parser_failure"
    then some diagnostics
    else if is_word k "cost"
        || starts_with k "cost_"
        || ends_with k "_tokens"
        || is_word k "duration_ms"
        || is_word k "elapsed_ms"
    then some cost
    else none

unfoldable pub should_render_field : String → RenderOptions → Bool
should_render_field key options = elim (optional_field_channel key) [
  | some policy ↦ options.include_policy
  | some diagnostics ↦ options.include_diagnostics
  | some cost ↦ options.include_cost
  | none ↦ true
]

-- The stable sort by `field.key != "summary"`.
unfoldable pub prioritize_renderable_fields : List ToolResultField → List ToolResultField
prioritize_renderable_fields fields =
    select (λ field. field.key == "summary") fields
    ++ select (λ field. not (field.key == "summary")) fields

abbrev pub limit_fields : Option ℕ → List ToolResultField → List ToolResultField
limit_fields none fields = fields
limit_fields (some max_fields) fields = take max_fields (prioritize_renderable_fields fields)

abbrev pub keep_if {ℓ} : {A : Type ℓ} → Bool → List A → List A
keep_if b xs = if b then xs else []

unfoldable pub combine_fallback_reasons : Option String → Option String → Option String
combine_fallback_reasons none none = none
combine_fallback_reasons (some reason) none = some reason
combine_fallback_reasons none (some reason) = some reason
combine_fallback_reasons (some policy_reason) (some truncation_reason) =
    some (concat (policy_reason ∷ "; " ∷ truncation_reason ∷ []))

-- The result before the byte budget applies.
abbrev pub compacted : ToolResult → ToolOutputRenderPolicy → ToolResult
compacted result render_policy = record result {
  fields = limit_fields render_policy.max_fields (
      select
        (λ (field : ToolResultField). should_render_field field.key render_policy.render_options)
        result.fields);
  evidence_refs = keep_if render_policy.include_evidence_refs result.evidence_refs;
  output_refs = keep_if render_policy.include_output_refs result.output_refs;
  redactions = keep_if render_policy.include_redactions result.redactions;
}

abbrev pub with_byte_budget :
    Notation
    → Option ℕ
    → ToolOutputRenderPolicy
    → ToolResult
    → RenderResult (ToolResult × Option String)
with_byte_budget notation none render_policy result = ok (result, none)
with_byte_budget notation (some max_inline_bytes) render_policy result = do
  r ← apply_render_byte_budget notation result max_inline_bytes render_policy.oversize_policy
  ok (r.0, combine_fallback_reasons none r.1)

unfoldable pub renderable_result :
    Notation → ToolResult → ToolOutputRenderPolicy → RenderResult (ToolResult × Option String)
unfolding prioritize_renderable_fields
renderable_result notation result render_policy =
    with_byte_budget notation render_policy.max_inline_bytes render_policy
      (compacted result render_policy)

module _ (notation : Notation) where
  unfoldable pub render_policy_fallback_reason : ToolResult → ToolResult → Option String
  render_policy_fallback_reason original rendered =
      let omitted_fields = length original.fields - length rendered.fields in
      let omitted_evidence_refs = length original.evidence_refs - length rendered.evidence_refs in
      let omitted_output_refs = length original.output_refs - length rendered.output_refs in
      let omitted_redactions = length original.redactions - length rendered.redactions in
      if ltb 0 omitted_fields
        || ltb 0 omitted_evidence_refs
        || ltb 0 omitted_output_refs
        || ltb 0 omitted_redactions
      then some (
          concat (
            "render policy compacted output; omitted fields="
            ∷ notation.print omitted_fields
            ∷ ", evidence_refs="
            ∷ notation.print omitted_evidence_refs
            ∷ ", output_refs="
            ∷ notation.print omitted_output_refs
            ∷ ", redactions="
            ∷ notation.print omitted_redactions
            ∷ []))
      else none

  unfoldable pub schema_version : ToolResult → String
  schema_version result = concat ("tool_result" ∷ ".v" ∷ notation.print result.schema_version ∷ [])

-- The text of the first field `summary` that holds one.
unfoldable pub summary_of : List ToolResultField → Option String
summary_of [] = none
summary_of (field ∷ fields) =
    let rest = summary_of fields in
    elim field.value [
      | StructuredValue.text value ↦ (if field.key == "summary" then some value else rest)
      | _ ↦ rest
    ]

abbrev pub summary_field : ToolResult → Option String
summary_field result = summary_of result.fields

unfoldable pub status_name : ToolResultStatus → String
status_name succeeded = "succeeded"
status_name failed = "failed"
status_name canceled = "canceled"
status_name timed_out = "timeout"
