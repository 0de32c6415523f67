-- ===== src/Output/Tests.antt =====
-- The theorems on rendered output at concrete inputs.
use atelia_secretary.Output.Cut.{truncate_string_value-IsCutAt, IsCutAt}
use atelia_secretary.Output.Budgeted.{
  apply_render_byte_budget-IsBudgeted, apply_render_byte_budget-is_ok, is_oversized, IsBudgeted,
}
use atelia_secretary.Policy.Names.{to_ascii_lowercase}
use atelia_secretary.Output.Budget.{
  truncate_string_value, truncate_value, truncate_field, truncate_fields, max_inline_bytes_as_usize,
  budget_details, over_budget, list_bytes, oversized_bytes, oversized_fields,
  apply_render_byte_budget,
}
use atelia_secretary.Output.Avoids.{Avoids}
use atelia_secretary.Output.Sections.{HasPlainIds}
use atelia_secretary.Output.LineBudget.{render_tool_result_with_policy-line_count, IsCompact}
use atelia_secretary.Output.Quoting.{IsPlain}
use atelia_secretary.Output.Plain.{
  lines_from, render_json_compact, render_json, render_tool_result_with_policy, line_count, Json,
}
use atelia_secretary.Output.Toon.{is_control, any_code}
use atelia_secretary.Output.Visible.{renderable_result-AreVisible, AreVisible}
use atelia_secretary.Output.Format.{join, concat, Notation}
use atelia_secretary.Output.Render.{
  schema_version, render_policy_fallback_reason, RenderedToolOutput, combine_fallback_reasons,
  normalized_key, optional_field_channel, should_render_field, prioritize_renderable_fields,
  renderable_result,
}
use atelia_secretary.Output.{default_options, from_render_options, ToolOutputRenderPolicy}
use atelia_secretary.Output.{json, truncate_with_metadata, reject_oversize, oversize_eq}
use Prim.Native.Char.{char}
use atelia_secretary.Base.{
  ◌||◌, not, any, is_ok, ◌!=◌, ends_with, starts_with, is_word, is_whitespace, is_blank, trim_end,
  trim_start, trim, string_discrete, prefix_to, is_char_boundary, floor_boundary, len, ◌>>=◌,
  nat_discrete, append, zero, suc, ℕ, String, false, ok, ◌≡◌, ◌≤◌, refl, none, some, [], ◌∷◌, arith,
}
use atelia_secretary.Domain.Tool.{ToolResultField, succeeded, ToolResult, StructuredValue}

-- Numbers in strokes.
strokes : ℕ → String
strokes zero = ""
strokes (suc n) = String.◌∷◌ (char 124 tt) (strokes n)

strokes-Avoids : (n : ℕ) → Avoids is_control (strokes n)
unfolding strokes any_code is_control
strokes-Avoids zero = refl
strokes-Avoids (suc n) = strokes-Avoids n

abbrev notation : Notation
notation = record {
  print = strokes;
  print_i64 = strokes;
  print_hex = strokes;
  parses_i64 = λ s. false;
  parses_f64 = λ s. false;
}

notation-IsPlain : IsPlain notation
notation-IsPlain = record {
  plain_print = strokes-Avoids;
  plain_i64 = strokes-Avoids;
  plain_hex = strokes-Avoids;
}

-- A notation of results that is one line, and two lines when it is pretty.
abbrev braces : Json
braces = record { to_string_pretty = λ r. ok "{\n}"; to_string = λ r. ok "{}" }

braces-IsCompact : IsCompact braces
unfolding any_code nat_discrete
braces-IsCompact r body h = let same : "{}" ≡ body = cc h in rw (← same) refl

abbrev long_field : ToolResultField
long_field = record { key = "log"; value = StructuredValue.text "first\nsecond" }

abbrev summary : ToolResultField
summary = record { key = "summary"; value = StructuredValue.text "ok" }

abbrev cost_field : ToolResultField
cost_field = record { key = "cost_total"; value = StructuredValue.text "7" }

abbrev result : ToolResult
result = record {
  id = "res_1";
  schema_version = 1;
  created_at = 5;
  invocation_id = "inv_1";
  tool_id = "echo";
  status = succeeded;
  schema_ref = none;
  fields = long_field ∷ cost_field ∷ summary ∷ [];
  evidence_refs = [];
  output_refs = [];
  truncation = none;
  redactions = [];
}

result-HasPlainIds : HasPlainIds result
unfolding any_code is_control
result-HasPlainIds = record {
  plain_id = refl;
  plain_invocation = refl;
  plain_evidence = tt;
  plain_output = tt;
}

abbrev policy : ToolOutputRenderPolicy
policy = record (from_render_options default_options) {
  max_fields = some 2;
  max_inline_lines = some 5;
  max_inline_bytes = some 8;
}

abbrev first_bytes : String
first_bytes = "first\nse"

-- The field above the budget is cut, and the field of the cost channel is not there.
abbrev cut_result : ToolResult
cut_result = record result {
  fields = summary ∷ record long_field { value = StructuredValue.text first_bytes } ∷ [];
  truncation = some (record {
    original_bytes = 12;
    retained_bytes = 8;
    reason = append "rendering truncated oversized tool output to max_inline_bytes=" (strokes 8);
  });
}

abbrev cut_reason : String
cut_reason = concat (
    "rendering truncated oversized output to max_inline_bytes="
    ∷ strokes 8
    ∷ "; omitted fields="
    ∷ strokes 1
    ∷ ", details=log ("
    ∷ strokes 12
    ∷ " bytes)"
    ∷ [])

result_renders : renderable_result notation result policy ≡ ok (cut_result, some cut_reason)
unfolding ◌>>=◌ renderable_result prioritize_renderable_fields should_render_field
    optional_field_channel normalized_key apply_render_byte_budget oversized_fields oversized_bytes
    list_bytes over_budget budget_details max_inline_bytes_as_usize truncate_fields truncate_field
    truncate_value truncate_string_value len floor_boundary is_char_boundary prefix_to append concat
    join combine_fallback_reasons strokes nat_discrete string_discrete trim trim_start trim_end
    is_blank is_whitespace to_ascii_lowercase is_word starts_with ends_with from_render_options
result_renders = refl

renderable_result-AreVisible_example : AreVisible policy cut_result.fields
renderable_result-AreVisible_example =
    renderable_result-AreVisible notation result policy cut_result (some cut_reason) result_renders

abbrev shown : ToolResult
shown = record result { fields = summary ∷ long_field ∷ [] }

budget_applies :
    apply_render_byte_budget notation shown 8 truncate_with_metadata
    ≡ ok (cut_result, some cut_reason)
unfolding apply_render_byte_budget oversized_fields oversized_bytes list_bytes over_budget
    budget_details max_inline_bytes_as_usize truncate_fields truncate_field truncate_value
    truncate_string_value len floor_boundary is_char_boundary prefix_to append concat join strokes
    nat_discrete
budget_applies = refl

apply_render_byte_budget-IsBudgeted_example :
    IsBudgeted (max_inline_bytes_as_usize 8) shown cut_result (some cut_reason)
apply_render_byte_budget-IsBudgeted_example =
    apply_render_byte_budget-IsBudgeted notation shown 8 truncate_with_metadata cut_result
      (some cut_reason) budget_applies

apply_render_byte_budget-is_ok_example :
    is_ok (apply_render_byte_budget notation shown 8 reject_oversize)
    ≡ (reject_oversize != reject_oversize)
      || not (any (is_oversized (max_inline_bytes_as_usize 8)) shown.fields)
apply_render_byte_budget-is_ok_example =
    apply_render_byte_budget-is_ok notation shown 8 reject_oversize

-- A character of two bytes is not cut in the middle.
abbrev accented : String
accented = "né"

accent_dropped : truncate_string_value accented 2 ≡ some "n"
unfolding truncate_string_value len floor_boundary is_char_boundary prefix_to
accent_dropped = refl

truncate_string_value-IsCutAt_example : IsCutAt accented "n" 2
truncate_string_value-IsCutAt_example = truncate_string_value-IsCutAt accented "n" 2 accent_dropped

abbrev one_line : ToolOutputRenderPolicy
one_line = record (from_render_options (record default_options { format = json })) {
  max_inline_lines = some 1;
}

abbrev short : ToolResult
short = record result { fields = summary ∷ [] }

abbrev compact_output : RenderedToolOutput
compact_output = record {
  format = json;
  schema_version = "tool_result.v|";
  body = "{}";
  fallback_reason = some "json rendering switched from pretty to compact to fit max_inline_lines=|";
  truncation = none;
}

short_renders : render_tool_result_with_policy notation braces short one_line ≡ ok compact_output
unfolding ◌>>=◌ render_tool_result_with_policy render_json render_json_compact renderable_result
    should_render_field optional_field_channel normalized_key append concat combine_fallback_reasons
    render_policy_fallback_reason schema_version line_count lines_from strokes nat_discrete trim
    trim_start trim_end is_blank is_whitespace to_ascii_lowercase is_word starts_with ends_with
    from_render_options
short_renders = refl

short-HasPlainIds : HasPlainIds short
unfolding any_code is_control
short-HasPlainIds = record {
  plain_id = refl;
  plain_invocation = refl;
  plain_evidence = tt;
  plain_output = tt;
}

bound_given : one_line.max_inline_lines ≡ some 1
unfolding from_render_options
bound_given = refl

render_tool_result_with_policy-line_count_example : line_count compact_output.body ≤ 1
render_tool_result_with_policy-line_count_example =
    render_tool_result_with_policy-line_count notation notation-IsPlain short short-HasPlainIds
      one_line 1 (omega arith) bound_given braces braces-IsCompact compact_output short_renders
