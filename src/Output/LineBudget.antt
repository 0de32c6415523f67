-- ===== src/Output/LineBudget.antt =====
-- The budget of lines of a rendered result, crates/atelia-core/src/tool_output.rs.
use atelia_secretary.Domain.Policy.{ArtifactRef, OutputRef}
use atelia_secretary.Domain.Tool.{ToolResult}
use atelia_secretary.Output.{ToolOutputRenderPolicy, OutputFormat, toon, json}
use atelia_secretary.Output.Format.{Notation, join}
use atelia_secretary.Output.Toon.{ToonSection}
use atelia_secretary.Output.Budget.{json_serialize}
use atelia_secretary.Output.Budgeted.{apply_render_byte_budget-IsBudgeted}
use atelia_secretary.Output.Avoids.{Avoids, AllAvoid, Avoids-mono}
use atelia_secretary.Output.Quoting.{IsPlain}
use atelia_secretary.Output.Lines.{is_newline, line_count-join, line_count-single}
use atelia_secretary.Output.Sections.{HasPlainIds, toon_sections-Avoid}
use atelia_secretary.Output.Cutting.{
  prelude-Avoid, toon_lines-Avoid, cut_lines-Avoid, toon_body-length,
}
use atelia_secretary.Output.Singles.{text_parts-Avoid}
use atelia_secretary.Output.Render.{
  RenderedToolOutput, compacted, keep_if, with_byte_budget, renderable_result,
}
use atelia_secretary.Output.Body.{Rendering, render_toon, cut_lines, toon_lines, prelude, exceeds}
use atelia_secretary.Output.Plain.{
  Json, is_break, line_count, render_text, text_parts, render_json, render_json_compact,
  render_json_truncated, render_as, render_tool_result_with_policy,
}
use atelia_secretary.Output.Toon.{is_control, toon_sections}
use atelia_secretary.Base.{
  ltb_false→le, map_err, String, ℕ, ◌≤◌, Bool, true, false, Option, none, some, List, [], ◌∷◌, ◌≡◌,
  arith, ok, map, >>=-eq-ok, map_err-eq-ok, Bool-cases, inl, inr, length, nat_eq,
}

-- A compact JSON text is one line: serde_json escapes the line feeds of texts.
abbrev pub IsCompact : Json → Type 0
IsCompact json_format =
    (result : ToolResult) (body : String)
    → json_format.to_string result ≡ ok body
    → Avoids is_newline body

module _ {A : Type 0} (p : ℕ → Bool) (id : A → String) where
  keep_if-AllAvoid :
      (b : Bool) (xs : List A) → AllAvoid p (map id xs) → AllAvoid p (map id (keep_if b xs))
  keep_if-AllAvoid true xs h = h
  keep_if-AllAvoid false xs h = tt

compacted-HasPlainIds :
    (result : ToolResult) (policy : ToolOutputRenderPolicy)
    → HasPlainIds result
    → HasPlainIds (compacted result policy)
compacted-HasPlainIds result policy ids = record {
  plain_id = ids.plain_id;
  plain_invocation = ids.plain_invocation;
  plain_evidence =
      keep_if-AllAvoid is_control (λ (r : ArtifactRef). r.id) policy.include_evidence_refs
        result.evidence_refs ids.plain_evidence;
  plain_output =
      keep_if-AllAvoid is_control (λ (r : OutputRef). r.id) policy.include_output_refs
        result.output_refs ids.plain_output;
}

-- The byte budget leaves the identifiers alone.
budget-HasPlainIds :
    (notation : Notation) (max_inline_bytes : Option ℕ) (policy : ToolOutputRenderPolicy)
    (result after : ToolResult) (reason : Option String)
    → with_byte_budget notation max_inline_bytes policy result ≡ ok (after, reason)
    → HasPlainIds result
    → HasPlainIds after
budget-HasPlainIds notation none policy result after reason h ids =
    let same : result ≡ after = cc h in rw (← same) ids
budget-HasPlainIds notation (some max_inline_bytes) policy result after reason h ids =
    let (r, e, h1) = >>=-eq-ok _ _ h in
    let same : r.0 ≡ after = cc h1 in
    let told =
      (apply_render_byte_budget-IsBudgeted notation result max_inline_bytes policy.oversize_policy
        r.0 r.1 e).told in
    rw (← same) (elim told [
      | inl (kept, _) ↦ rw kept ids
      | inr (rendered, _, _, cut, _) ↦ rw cut (record {
        plain_id = ids.plain_id;
        plain_invocation = ids.plain_invocation;
        plain_evidence = ids.plain_evidence;
        plain_output = ids.plain_output;
      })
    ])

renderable_result-HasPlainIds :
    (notation : Notation) (policy : ToolOutputRenderPolicy) (result : ToolResult)
    (r : ToolResult × Option String)
    → renderable_result notation result policy ≡ ok r
    → HasPlainIds result
    → HasPlainIds r.0
unfolding renderable_result
renderable_result-HasPlainIds notation policy result r h ids =
    budget-HasPlainIds notation policy.max_inline_bytes policy (compacted result policy) r.0 r.1 h
      (compacted-HasPlainIds result policy ids)

is_control-is_newline : (n : ℕ) → is_control n ≡ false → is_newline n ≡ false
unfolding is_control
is_control-is_newline n h = ground arith

is_break-is_newline : (n : ℕ) → is_break n ≡ false → is_newline n ≡ false
is_break-is_newline n h = ground arith

AllAvoid-newline : (ss : List String) → AllAvoid is_control ss → AllAvoid is_newline ss
AllAvoid-newline [] h = tt
AllAvoid-newline (s ∷ ss) (h, hs) =
    (Avoids-mono is_control is_newline s is_control-is_newline h, AllAvoid-newline ss hs)

toon_body-bounded :
    (notation : Notation) (plain : IsPlain notation) (limit : Option ℕ) (m : ℕ)
    (sections : List ToonSection) (lines : List String)
    → 1 ≤ m
    → limit ≡ some m
    → (let t = toon_lines notation limit sections lines in
        length (cut_lines notation t.0 t.1 limit) ≤ m)
toon_body-bounded notation plain none m sections lines one e = absurd (cc e)
toon_body-bounded notation plain (some k) m sections lines one e =
    let same : k ≡ m = cc e in
    let few = toon_body-length notation plain k sections lines (omega (arith, one, same)) in
    omega (arith, few, same)

module _ (notation : Notation) (plain : IsPlain notation) (result : ToolResult)
    (ids : HasPlainIds result) (policy : ToolOutputRenderPolicy) (m : ℕ) (one : 1 ≤ m)
    (bound : policy.max_inline_lines ≡ some m) where
  render_toon-line_count :
      (r : Rendering) → render_toon notation result policy none ≡ ok r → line_count r.0 ≤ m
  unfolding render_toon
  render_toon-line_count r h =
      let (x, e, h1) = >>=-eq-ok _ _ h in
      let own = renderable_result-HasPlainIds notation policy result x e ids in
      let sections = toon_sections notation x.0 in
      let lines = prelude notation x.0 none in
      let t = toon_lines notation policy.max_inline_lines sections lines in
      let body = cut_lines notation t.0 t.1 policy.max_inline_lines in
      let same : join "\n" body ≡ r.0 = cc h1 in
      let plain_lines = AllAvoid-newline body (
        cut_lines-Avoid notation plain t.0 t.1 policy.max_inline_lines (
          toon_lines-Avoid notation plain policy.max_inline_lines sections lines
            (toon_sections-Avoid notation plain x.0 own)
            (prelude-Avoid notation plain x.0 none own))) in
      rw (← same) (
        line_count-join body m plain_lines one
          (toon_body-bounded notation plain policy.max_inline_lines m sections lines one bound))

  render_text-line_count :
      (r : Rendering) → render_text notation result policy ≡ ok r → line_count r.0 ≤ m
  unfolding render_text
  render_text-line_count r h =
      let (x, e, h1) = >>=-eq-ok _ _ h in
      let same : join "; " (text_parts notation x.0) ≡ r.0 = cc h1 in
      let single = line_count-single _ (
        Avoids-mono is_break is_newline _ is_break-is_newline
          (text_parts-Avoid notation plain x.0)) in
      rw (← same) (omega (arith, single, one))

  module _ (json_format : Json) (compact : IsCompact json_format) where
    compact-line_count :
        (record_set : ToolResult) (body : String)
        → map_err json_serialize (json_format.to_string record_set) ≡ ok body
        → line_count body ≤ m
    compact-line_count record_set body h =
        let single = line_count-single body (compact record_set body (map_err-eq-ok _ _ h)) in
        omega (arith, single, one)

    -- A body that is not above the bound, or else a compact one.
    fits-line_count : (n : ℕ) → exceeds n policy.max_inline_lines ≡ false → n ≤ m
    fits-line_count n h = ltb_false→le m n (rw bound at h)

    render_json_truncated-line_count :
        (rendered : ToolResult) (reason : Option String) (r : Rendering)
        → render_json_truncated notation json_format rendered policy.max_inline_lines reason ≡ ok r
        → line_count r.0 ≤ m
    unfolding render_json_truncated
    render_json_truncated-line_count rendered reason r h =
        let (body, e, h1) = >>=-eq-ok _ _ h in
        let same : body ≡ r.0 = cc h1 in rw (← same) (compact-line_count _ body e)

    render_json_compact-line_count :
        (rendered : ToolResult) (reason : Option String) (r : Rendering)
        → render_json_compact notation json_format rendered policy.max_inline_lines reason ≡ ok r
        → line_count r.0 ≤ m
    unfolding render_json_compact
    render_json_compact-line_count rendered reason r h =
        let (body, e, h1) = >>=-eq-ok _ _ h in
        elim (Bool-cases (exceeds (line_count body) policy.max_inline_lines)) [
          | inl long ↦ render_json_truncated-line_count rendered reason r (rw long at h1)
          | inr short ↦
              let same : body ≡ r.0 = cc (rw short at h1) in
              rw (← same) (compact-line_count rendered body e)
        ]

    render_json-line_count :
        (r : Rendering) → render_json notation json_format result policy ≡ ok r → line_count r.0 ≤ m
    unfolding render_json
    render_json-line_count r h =
        let (x, e, h1) = >>=-eq-ok _ _ h in
        let (pretty, p, h2) = >>=-eq-ok _ _ h1 in
        elim (Bool-cases (exceeds (line_count pretty) policy.max_inline_lines)) [
          | inl long ↦ render_json_compact-line_count x.0 _ r (rw long at h2)
          | inr short ↦
              let same : pretty ≡ r.0 = cc (rw short at h2) in
              rw (← same) (fits-line_count (line_count pretty) short)
        ]

    render_as-line_count :
        (format : OutputFormat) (r : Rendering)
        → render_as notation json_format format result policy ≡ ok r
        → line_count r.0 ≤ m
    render_as-line_count toon r h = render_toon-line_count r h
    render_as-line_count json r h = render_json-line_count r h
    render_as-line_count OutputFormat.text r h = render_text-line_count r h

    -- Whatever format is asked for, a rendered body has no more lines than a positive
    -- `max_inline_lines` allows. Numbers are printed without control characters, the identifiers of
    -- the result have none, and serde_json writes a compact text on one line.
    pub render_tool_result_with_policy-line_count :
        (r : RenderedToolOutput)
        → render_tool_result_with_policy notation json_format result policy ≡ ok r
        → line_count r.body ≤ m
    unfolding render_tool_result_with_policy
    render_tool_result_with_policy-line_count r h =
        let (x, e, h1) = >>=-eq-ok _ _ h in
        let same : x.0 ≡ r.body = cc h1 in
        rw (← same) (render_as-line_count policy.render_options.format x e)
