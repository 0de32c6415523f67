-- ===== src/Output/Plain.antt =====
-- The formats text and JSON, and the choice of a format, crates/atelia-core/src/tool_output.rs.
-- What serde_json prints is the record `Json`.
use atelia_secretary.Output.{OutputFormat}
use atelia_secretary.Output.Toon.{any_code}
use Prim.Native.Char.{Char, char, code}
use atelia_secretary.Domain.Tool.{TruncationMetadata, ToolResult}
use atelia_secretary.Domain.Repository.{RedactionMarker}
use atelia_secretary.Output.{RenderOptions, ToolOutputRenderPolicy, from_render_options, toon, json}
use atelia_secretary.Output.Format.{Notation, concat, join}
use atelia_secretary.Output.Budget.{RenderResult, json_serialize}
use atelia_secretary.Output.Body.{Rendering, exceeds, render_toon, policy_reason}
use atelia_secretary.Output.Render.{
  RenderedToolOutput, combine_fallback_reasons, renderable_result, schema_version, status_name,
  summary_field,
}
use atelia_secretary.Base.{
  option_eq, nat_eq, string_eq, String, ℕ, ◌+◌, ◌-◌, Bool, false, not, ◌||◌, Option, none, some,
  List, [], ◌∷◌, ◌++◌, ◌==◌, map, take, length, if◌then◌else◌, Result, ok, err, ◌>>=◌, map_err, ltb,
}

-- `serde_json::to_string_pretty` and `serde_json::to_string`.
pub record Json : Type 0 where
  pub to_string_pretty : ToolResult → Result String String
  pub to_string : ToolResult → Result String String

abbrev pub space : Char
space = char 32 tt

-- The loop of `normalize_text_output_value`; the flag tells that a carriage return came before, whose
-- line feed is skipped.
unfoldable pub normalize_from : Bool → String → String
normalize_from after_return String.[] = String.[]
normalize_from after_return (String.◌∷◌ c s) =
    let rest = normalize_from (code c == b'\r') s in
    if code c == b'\r'
    then String.◌∷◌ space rest
    else if code c == b'\n'
    then (if after_return then rest else String.◌∷◌ space rest)
    else String.◌∷◌ c rest

abbrev pub is_break : ℕ → Bool
is_break c = c == b'\r' || c == b'\n'

unfoldable pub normalize_text_output_value : String → String
unfolding normalize_from
normalize_text_output_value value =
    if any_code is_break value then normalize_from false value else value

module _ (notation : Notation) where
  unfoldable pub redaction_marker : RedactionMarker → String
  unfolding normalize_text_output_value
  redaction_marker redaction = concat (
      normalize_text_output_value redaction.field_path
      ∷ " ("
      ∷ normalize_text_output_value redaction.reason
      ∷ ", redacted_at_ms "
      ∷ notation.print_i64 redaction.redacted_at
      ∷ ")"
      ∷ [])

  abbrev pub summary_text : Option String → String
  summary_text none = "no summary"
  summary_text (some value) = normalize_text_output_value value

  -- `{count}{what}`, where there is something to count.
  abbrev pub counted {ℓ} : {A : Type ℓ} → List A → String → List String
  counted [] what = []
  counted (x ∷ xs) what = concat (notation.print (length (x ∷ xs)) ∷ what ∷ []) ∷ []

  abbrev pub truncated_part : Option TruncationMetadata → List String
  truncated_part none = []
  truncated_part (some truncation) =
      concat (
        "truncated "
        ∷ notation.print truncation.retained_bytes
        ∷ "/"
        ∷ notation.print truncation.original_bytes
        ∷ " bytes: "
        ∷ normalize_text_output_value truncation.reason
        ∷ [])
      ∷ []

  abbrev pub redactions_part : List RedactionMarker → List String
  redactions_part [] = []
  redactions_part (r ∷ rs) =
      concat (
        notation.print (length (r ∷ rs))
        ∷ " redaction(s): "
        ∷ join ", " (map redaction_marker (r ∷ rs))
        ∷ [])
      ∷ []

  unfoldable pub text_parts : ToolResult → List String
  text_parts result =
      concat (
        normalize_text_output_value result.tool_id
        ∷ " "
        ∷ status_name result.status
        ∷ ": "
        ∷ summary_text (summary_field result)
        ∷ [])
      ∷ (counted result.fields " field(s)"
          ++ (counted result.evidence_refs " evidence ref(s)"
              ++ (counted result.output_refs " output ref(s)"
                  ++ (truncated_part result.truncation ++ redactions_part result.redactions))))

  unfoldable pub render_text : ToolResult → ToolOutputRenderPolicy → RenderResult Rendering
  unfolding text_parts
  render_text result policy = do
    r ← renderable_result notation result policy
    ok (join "; " (text_parts r.0), policy_reason notation result r, r.0.truncation)

-- The lines that `str::lines` counts, from inside a line or not: a last line that is empty is none.
unfoldable pub lines_from : Bool → String → ℕ
lines_from inside String.[] = if inside then 1 else 0
lines_from inside (String.◌∷◌ c s) =
    lines_from (not (code c == b'\n')) s + (if code c == b'\n' then 1 else 0)

-- `text.lines().count()`
unfoldable pub line_count : String → ℕ
unfolding lines_from
line_count s = lines_from false s

abbrev pub fits : Result String String → ℕ → Bool
fits (ok body) max_inline_lines = not (ltb max_inline_lines (line_count body))
fits (err reason) max_inline_lines = false

module _ (notation : Notation) (json_format : Json) where
  -- The result cut to a number of records, fields first.
  unfoldable pub cut_records : ToolResult → ℕ → ToolResult
  cut_records result max_inline_lines =
      let fields = take max_inline_lines result.fields in
      let for_evidence = max_inline_lines - length fields in
      let evidence_refs = take for_evidence result.evidence_refs in
      let for_output = for_evidence - length evidence_refs in
      let output_refs = take for_output result.output_refs in
      let for_redactions = for_output - length output_refs in
      record result {
        fields = fields;
        evidence_refs = evidence_refs;
        output_refs = output_refs;
        redactions = take for_redactions result.redactions;
      }

  abbrev pub truncation_told : ToolResult → ToolResult → ℕ → Option String
  truncation_told result cut max_inline_lines =
      let fields = length result.fields - length cut.fields in
      let evidence_refs = length result.evidence_refs - length cut.evidence_refs in
      let output_refs = length result.output_refs - length cut.output_refs in
      let redactions = length result.redactions - length cut.redactions in
      if fields + evidence_refs + output_refs + redactions == 0
        || fits (json_format.to_string cut) max_inline_lines
      then none
      else some (
          concat (
            "json rendering truncated to max_inline_lines="
            ∷ notation.print max_inline_lines
            ∷ "; omitted fields="
            ∷ notation.print fields
            ∷ ", evidence_refs="
            ∷ notation.print evidence_refs
            ∷ ", output_refs="
            ∷ notation.print output_refs
            ∷ ", redactions="
            ∷ notation.print redactions
            ∷ []))

  unfoldable pub truncate_json_rendering : ToolResult → ℕ → ToolResult × Option String
  unfolding cut_records
  truncate_json_rendering result max_inline_lines =
      if fits (json_format.to_string result) max_inline_lines then (result, none) else (
        cut_records result max_inline_lines,
        truncation_told result (cut_records result max_inline_lines) max_inline_lines,
      )

  abbrev pub serialized : Result String String → RenderResult String
  serialized r = map_err json_serialize r

  abbrev pub truncate_json : Option ℕ → ToolResult → ToolResult × Option String
  truncate_json none result = (result, none)
  truncate_json (some max_inline_lines) result = truncate_json_rendering result max_inline_lines

  abbrev pub compact_reason : Option ℕ → Option String
  compact_reason none = none
  compact_reason (some max_inline_lines) = some (
      concat (
        "json rendering switched from pretty to compact to fit max_inline_lines="
        ∷ notation.print max_inline_lines
        ∷ []))

  -- What is returned when neither the pretty nor the compact text fits.
  unfoldable pub render_json_truncated :
      ToolResult → Option ℕ → Option String → RenderResult Rendering
  unfolding truncate_json_rendering
  render_json_truncated rendered max_inline_lines reason = do
    let cut = truncate_json max_inline_lines rendered
    body ← serialized (json_format.to_string cut.0)
    ok (body, combine_fallback_reasons reason cut.1, rendered.truncation)

  unfoldable pub render_json_compact :
      ToolResult → Option ℕ → Option String → RenderResult Rendering
  unfolding render_json_truncated
  render_json_compact rendered max_inline_lines reason = do
    compact_body ← serialized (json_format.to_string rendered)
    if exceeds (line_count compact_body) max_inline_lines
        then render_json_truncated rendered max_inline_lines reason
        else ok (compact_body, reason, rendered.truncation)

  unfoldable pub render_json : ToolResult → ToolOutputRenderPolicy → RenderResult Rendering
  unfolding render_json_compact
  render_json result policy = do
    r ← renderable_result notation result policy
    pretty_body ← serialized (json_format.to_string_pretty r.0)
    if exceeds (line_count pretty_body) policy.max_inline_lines
        then render_json_compact r.0 policy.max_inline_lines (
            combine_fallback_reasons (policy_reason notation result r)
              (compact_reason policy.max_inline_lines))
        else ok (pretty_body, policy_reason notation result r, r.0.truncation)

  abbrev pub render_as : OutputFormat → ToolResult → ToolOutputRenderPolicy → RenderResult Rendering
  render_as toon result policy = render_toon notation result policy none
  render_as json result policy = render_json result policy
  render_as OutputFormat.text result policy = render_text notation result policy

  unfoldable pub render_tool_result_with_policy :
      ToolResult → ToolOutputRenderPolicy → RenderResult RenderedToolOutput
  render_tool_result_with_policy result policy = do
    r ← render_as policy.render_options.format result policy
    ok (record {
      format = policy.render_options.format;
      schema_version = schema_version notation result;
      body = r.0;
      fallback_reason = r.1;
      truncation = r.2;
    })

  unfoldable pub render_tool_result : ToolResult → RenderOptions → RenderResult RenderedToolOutput
  render_tool_result result options =
      render_tool_result_with_policy result (from_render_options options)
