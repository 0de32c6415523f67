-- ===== src/Output/Body.antt =====
-- The body of a rendered result in each format, crates/atelia-core/src/tool_output.rs.
use atelia_secretary.Domain.Tool.{TruncationMetadata, ToolResult}
use atelia_secretary.Output.{ToolOutputRenderPolicy}
use atelia_secretary.Output.Format.{Notation, concat, join}
use atelia_secretary.Output.Budget.{RenderResult}
use atelia_secretary.Output.Render.{
  combine_fallback_reasons, renderable_result, render_policy_fallback_reason, schema_version,
  status_name,
}
use atelia_secretary.Output.Toon.{ToonSection, toon_sections, render_toon_value}
use atelia_secretary.Domain.Time.{u64_max}
use atelia_secretary.Base.{
  option_eq, nat_eq, string_eq, String, ℕ, ◌+◌, ◌-◌, Bool, false, not, ◌&&◌, Option, none, some,
  List, [], ◌∷◌, ◌++◌, ◌==◌, leb, ltb, take, length, unwrap_or, if◌then◌else◌, ok, ◌>>=◌,
}

abbrev pub Rendering : Type 0
Rendering = String × Option String × Option TruncationMetadata

-- `is_some_and(|max_inline_lines| …)` for a count of lines.
abbrev pub exceeds : ℕ → Option ℕ → Bool
exceeds n none = false
exceeds n (some max_inline_lines) = ltb max_inline_lines n

module _ (notation : Notation) where
  unfoldable pub count_of : String → List ToonSection → ℕ
  count_of label [] = 0
  count_of label (section ∷ sections) =
      (if section.label == label then section.count else 0) + count_of label sections

  unfoldable pub format_omitted_section_counts : List ToonSection → String
  format_omitted_section_counts sections = concat (
      "fields="
      ∷ notation.print (count_of "fields" sections)
      ∷ ", evidence_refs="
      ∷ notation.print (count_of "evidence_refs" sections)
      ∷ ", output_refs="
      ∷ notation.print (count_of "output_refs" sections)
      ∷ ", truncation="
      ∷ notation.print (count_of "truncation" sections)
      ∷ ", redactions="
      ∷ notation.print (count_of "redactions" sections)
      ∷ [])

  abbrev pub print_bound : Option ℕ → String
  print_bound none = "unbounded"
  print_bound (some value) = notation.print value

  abbrev pub print_prelude_omitted : Option ℕ → String
  print_prelude_omitted none = ""
  print_prelude_omitted (some value) =
      concat ("; prelude_lines_omitted=" ∷ notation.print value ∷ [])

  unfoldable pub rendering_truncation_reason :
      List ToonSection → Option ℕ → String → Option ℕ → String
  rendering_truncation_reason omitted_sections max_inline_lines omitted_section prelude_omitted =
      concat (
        "toon rendering truncated to max_inline_lines="
        ∷ print_bound max_inline_lines
        ∷ " before "
        ∷ omitted_section
        ∷ print_prelude_omitted prelude_omitted
        ∷ "; omitted "
        ∷ format_omitted_section_counts omitted_sections
        ∷ [])

  unfoldable pub build_rendering_truncation_notice : String → ℕ → List String
  build_rendering_truncation_notice reason remaining_lines =
      if leb remaining_lines 1
      then concat (
          "rendering_truncated true; rendering_truncation_reason "
          ∷ render_toon_value notation reason
          ∷ [])
        ∷ []
      else "rendering_truncated true"
        ∷ concat ("rendering_truncation_reason " ∷ render_toon_value notation reason ∷ [])
        ∷ []

  -- The loop over the sections: the lines so far, and the reason to stop before a section.
  unfoldable pub add_sections :
      Option ℕ → List ToonSection → List String → ℕ → List String × Option String
  add_sections max_inline_lines [] lines body_lines = (lines, none)
  add_sections max_inline_lines (section ∷ sections) lines body_lines =
      let count = length section.lines in
      let rest =
        add_sections max_inline_lines sections (lines ++ section.lines) (body_lines + count) in
      if not (count == 0) && exceeds (body_lines + count) max_inline_lines
      then (
        lines,
        some (rendering_truncation_reason (section ∷ sections) max_inline_lines section.label none),
      )
      else rest

  abbrev pub fallback_lines : Option String → List String
  fallback_lines none = []
  fallback_lines (some reason) =
      concat ("requested_format " ∷ render_toon_value notation "json" ∷ [])
      ∷ concat ("format_fallback_reason " ∷ render_toon_value notation reason ∷ [])
      ∷ []

  abbrev pub schema_ref_lines : Option String → List String
  schema_ref_lines none = []
  schema_ref_lines (some schema_ref) =
      concat ("schema_ref " ∷ render_toon_value notation schema_ref ∷ []) ∷ []

  unfoldable pub prelude : ToolResult → Option String → List String
  prelude result fallback_reason =
      concat ("status " ∷ status_name result.status ∷ [])
      ∷ concat ("schema_version " ∷ schema_version notation result ∷ [])
      ∷ "format toon"
      ∷ (fallback_lines fallback_reason
          ++ (concat ("tool_id " ∷ render_toon_value notation result.tool_id ∷ [])
              ∷ concat ("result_id " ∷ result.id ∷ [])
              ∷ concat ("invocation_id " ∷ result.invocation_id ∷ [])
              ∷ schema_ref_lines result.schema_ref))

  -- The lines of the body, and the reason for cutting it.
  unfoldable pub toon_lines :
      Option ℕ → List ToonSection → List String → List String × Option String
  unfolding add_sections
  toon_lines max_inline_lines sections lines =
      if exceeds (length lines) max_inline_lines
      then (
        lines,
        some (
            rendering_truncation_reason sections max_inline_lines "tool output prelude"
              (some (length lines - unwrap_or max_inline_lines 0))),
      )
      else add_sections max_inline_lines sections lines (length lines)

  abbrev pub cut_lines : List String → Option String → Option ℕ → List String
  cut_lines lines none max_inline_lines = lines
  cut_lines lines (some reason) max_inline_lines =
      let bound = unwrap_or max_inline_lines u64_max in
      let notice = build_rendering_truncation_notice reason (bound - length lines) in
      take (bound - length notice) lines ++ notice

  abbrev pub policy_reason : ToolResult → ToolResult × Option String → Option String
  policy_reason result r =
      combine_fallback_reasons r.1 (render_policy_fallback_reason notation result r.0)

  unfoldable pub render_toon :
      ToolResult → ToolOutputRenderPolicy → Option String → RenderResult Rendering
  unfolding toon_lines
  render_toon result policy fallback_reason = do
    r ← renderable_result notation result policy
    let t =
        toon_lines policy.max_inline_lines (toon_sections notation r.0)
          (prelude r.0 fallback_reason)
    ok (
      join "\n" (cut_lines t.0 t.1 policy.max_inline_lines),
      combine_fallback_reasons (policy_reason result r) t.1,
      r.0.truncation,
    )
