-- ===== src/Output/Cutting.antt =====
-- The lines of a TOON body and their number, crates/atelia-core/src/tool_output.rs.
use atelia_secretary.Output.Visible.{length-take_le}
use atelia_secretary.Domain.Tool.{
  ToolResult, ToolResultStatus, succeeded, failed, canceled, timed_out,
}
use atelia_secretary.Output.Format.{Notation, concat}
use atelia_secretary.Output.Avoids.{Avoids, AllAvoid, concat-Avoids, append-AllAvoid, take-AllAvoid}
use atelia_secretary.Output.Quoting.{IsPlain, render_toon_value-Avoids}
use atelia_secretary.Output.Sections.{HasPlainIds, SectionsAvoid}
use atelia_secretary.Output.Render.{schema_version, status_name}
use atelia_secretary.Output.Body.{
  fallback_lines, schema_ref_lines, prelude, toon_lines, add_sections, cut_lines, exceeds,
  build_rendering_truncation_notice,
}
use atelia_secretary.Output.Toon.{any_code, is_control, ToonSection}
use atelia_secretary.Base.{
  leb_false→lt, String, ℕ, ◌+◌, ◌-◌, ◌≤◌, Bool, not, ◌&&◌, ◌==◌, Option, none, some, List, [], ◌∷◌,
  ◌++◌, ◌≡◌, refl, arith, length, take, leb, Bool-cases, inl, inr, length-append, nat_eq,
}

abbrev words : List String
words =
    "status " ∷ "schema_version " ∷ "format toon" ∷ "requested_format " ∷ "format_fallback_reason "
    ∷ "tool_id " ∷ "result_id " ∷ "invocation_id " ∷ "schema_ref " ∷ "tool_result" ∷ ".v"
    ∷ "rendering_truncated true; rendering_truncation_reason " ∷ "rendering_truncated true"
    ∷ "rendering_truncation_reason " ∷ []

words-Avoid : AllAvoid is_control words
unfolding any_code is_control
words-Avoid = (
  refl,
  (
    refl,
    (
      refl,
      (refl, (refl, (refl, (refl, (refl, (refl, (refl, (refl, (refl, (refl, (refl, tt))))))))))),
    ),
  ),
)

status_name-Avoids : (s : ToolResultStatus) → Avoids is_control (status_name s)
unfolding any_code is_control status_name
status_name-Avoids succeeded = refl
status_name-Avoids failed = refl
status_name-Avoids canceled = refl
status_name-Avoids timed_out = refl

-- Whether the loop stops before a section.
abbrev stops : Option ℕ → ToonSection → ℕ → Bool
stops max_inline_lines section n =
    not (length section.lines == 0) && exceeds (n + length section.lines) max_inline_lines

module _ (notation : Notation) (plain : IsPlain notation) where
  schema_version-Avoids : (result : ToolResult) → Avoids is_control (schema_version notation result)
  unfolding schema_version
  schema_version-Avoids result =
      let (_, (_, (_, (_, (_, (_, (_, (_, (_, (name, (v, _))))))))))) = words-Avoid in
      concat-Avoids is_control _ (name, (v, (plain.plain_print result.schema_version, tt)))

  labelled-Avoids :
      (label value : String)
      → Avoids is_control label
      → Avoids is_control value
      → Avoids is_control (concat (label ∷ value ∷ []))
  labelled-Avoids label value h k = concat-Avoids is_control (label ∷ value ∷ []) (h, (k, tt))

  fallback_lines-Avoid :
      (reason : Option String) → AllAvoid is_control (fallback_lines notation reason)
  fallback_lines-Avoid none = tt
  fallback_lines-Avoid (some reason) =
      let (_, (_, (_, (requested, (told, _))))) = words-Avoid in
      (
        labelled-Avoids "requested_format " _ requested (render_toon_value-Avoids notation plain _),
        (
          labelled-Avoids "format_fallback_reason " _ told
              (render_toon_value-Avoids notation plain _),
          tt,
        ),
      )

  schema_ref_lines-Avoid :
      (schema_ref : Option String) → AllAvoid is_control (schema_ref_lines notation schema_ref)
  schema_ref_lines-Avoid none = tt
  schema_ref_lines-Avoid (some schema_ref) =
      let (_, (_, (_, (_, (_, (_, (_, (_, (label, _))))))))) = words-Avoid in
      (
        labelled-Avoids "schema_ref " _ label (render_toon_value-Avoids notation plain schema_ref),
        tt,
      )

  pub prelude-Avoid :
      (result : ToolResult) (reason : Option String)
      → HasPlainIds result
      → AllAvoid is_control (prelude notation result reason)
  unfolding prelude
  prelude-Avoid result reason ids =
      let (status, (version, (format, (_, (_, (tool, (id, (invocation, _)))))))) = words-Avoid in
      (
        labelled-Avoids "status " _ status (status_name-Avoids result.status),
        (
          labelled-Avoids "schema_version " _ version (schema_version-Avoids result),
          (
            format,
            append-AllAvoid is_control (fallback_lines notation reason) _
                (fallback_lines-Avoid reason)
                (
                  labelled-Avoids "tool_id " _ tool (render_toon_value-Avoids notation plain _),
                  (
                    labelled-Avoids "result_id " _ id ids.plain_id,
                    (
                      labelled-Avoids "invocation_id " _ invocation ids.plain_invocation,
                      schema_ref_lines-Avoid result.schema_ref,
                    ),
                  ),
                ),
          ),
        ),
      )

  notice-Avoid :
      (reason : String) (remaining : ℕ)
      → AllAvoid is_control (build_rendering_truncation_notice notation reason remaining)
  unfolding build_rendering_truncation_notice
  notice-Avoid reason remaining =
      let (_, (_, (_, (_, (_, (_, (_, (_, (_, (_, (_, (single, (first, (second, _)))))))))))))) =
        words-Avoid in
      let value = render_toon_value-Avoids notation plain reason in
      elim (Bool-cases (leb remaining 1)) [
        | inl few ↦ rw few (labelled-Avoids _ _ single value, tt)
        | inr more ↦ rw more (first, (labelled-Avoids _ _ second value, tt))
      ]

  notice-length :
      (reason : String) (remaining bound : ℕ)
      → 1 ≤ bound
      → remaining ≤ bound
      → length (build_rendering_truncation_notice notation reason remaining) ≤ bound
  unfolding build_rendering_truncation_notice
  notice-length reason remaining bound one enough = elim (Bool-cases (leb remaining 1)) [
    | inl few ↦ rw few one
    | inr more ↦ rw more (omega (arith, leb_false→lt remaining 1 more, enough))
  ]

  add_sections-Avoid :
      (max_inline_lines : Option ℕ) (sections : List ToonSection) (lines : List String) (n : ℕ)
      → SectionsAvoid notation plain sections
      → AllAvoid is_control lines
      → AllAvoid is_control (add_sections notation max_inline_lines sections lines n).0
  unfolding add_sections
  add_sections-Avoid max_inline_lines [] lines n h k = k
  add_sections-Avoid max_inline_lines (section ∷ sections) lines n (h, hs) k =
      let more =
        add_sections-Avoid max_inline_lines sections (lines ++ section.lines)
          (n + length section.lines) hs (append-AllAvoid is_control lines section.lines k h) in
      elim (Bool-cases (stops max_inline_lines section n)) [
        | inl cut ↦ rw (cut, add_sections) k
        | inr on ↦ rw (on, add_sections) more
      ]

  add_sections-length :
      (m : ℕ) (sections : List ToonSection) (lines : List String) (n : ℕ)
      → n ≡ length lines
      → length lines ≤ m
      → (add_sections notation (some m) sections lines n).1 ≡ none
      → length (add_sections notation (some m) sections lines n).0 ≤ m
  unfolding add_sections
  add_sections-length m [] lines n same few h = few
  add_sections-length m (section ∷ sections) lines n same few h =
      elim (Bool-cases (stops (some m) section n)) [
        | inl cut ↦ let e = rw (cut, add_sections) at h in absurd (cc e)
        | inr on ↦
            let longer = length-append lines section.lines in
            rw (on, add_sections)
              (add_sections-length m sections (lines ++ section.lines) (n + length section.lines)
                (omega (arith, same, longer)) (ground (arith, same, few, longer, on))
                (rw (on, add_sections) at h))
      ]

  -- The lines before the notice, and whether they stand without one.
  pub toon_lines-Avoid :
      (max_inline_lines : Option ℕ) (sections : List ToonSection) (lines : List String)
      → SectionsAvoid notation plain sections
      → AllAvoid is_control lines
      → AllAvoid is_control (toon_lines notation max_inline_lines sections lines).0
  unfolding toon_lines
  toon_lines-Avoid max_inline_lines sections lines h k =
      elim (Bool-cases (exceeds (length lines) max_inline_lines)) [
        | inl cut ↦ rw cut k
        | inr on ↦ rw on (add_sections-Avoid max_inline_lines sections lines (length lines) h k)
      ]

  toon_lines-length :
      (m : ℕ) (sections : List ToonSection) (lines : List String)
      → (toon_lines notation (some m) sections lines).1 ≡ none
      → length (toon_lines notation (some m) sections lines).0 ≤ m
  unfolding toon_lines
  toon_lines-length m sections lines h = elim (Bool-cases (exceeds (length lines) (some m))) [
    | inl cut ↦ absurd (cc (rw (cut, toon_lines) at h))
    | inr on ↦
        rw (on, toon_lines)
          (add_sections-length m sections lines (length lines) refl (ground (arith, on))
            (rw (on, toon_lines) at h))
  ]

  pub cut_lines-Avoid :
      (lines : List String) (reason : Option String) (max_inline_lines : Option ℕ)
      → AllAvoid is_control lines
      → AllAvoid is_control (cut_lines notation lines reason max_inline_lines)
  cut_lines-Avoid lines none max_inline_lines h = h
  cut_lines-Avoid lines (some reason) max_inline_lines h =
      append-AllAvoid is_control _ _ (take-AllAvoid is_control _ lines h) (notice-Avoid reason _)

  cut_lines-length :
      (lines : List String) (reason : Option String) (m : ℕ)
      → 1 ≤ m
      → (reason ≡ none → length lines ≤ m)
      → length (cut_lines notation lines reason (some m)) ≤ m
  cut_lines-length lines none m one h = h refl
  cut_lines-length lines (some reason) m one h =
      let notice = build_rendering_truncation_notice notation reason (m - length lines) in
      let few = notice-length reason (m - length lines) m one (omega arith) in
      omega (
        arith,
        few,
        length-append (take (m - length notice) lines) notice,
        length-take_le (m - length notice) lines,
      )

  pub toon_body-length :
      (m : ℕ) (sections : List ToonSection) (lines : List String)
      → 1 ≤ m
      → (let t = toon_lines notation (some m) sections lines in
          length (cut_lines notation t.0 t.1 (some m)) ≤ m)
  toon_body-length m sections lines one =
      let t = toon_lines notation (some m) sections lines in
      cut_lines-length t.0 t.1 m one (toon_lines-length m sections lines)
