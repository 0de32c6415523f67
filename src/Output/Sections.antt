-- ===== src/Output/Sections.antt =====
-- The lines of TOON hold no control character, and no more are kept than the policy allows,
-- crates/atelia-core/src/tool_output.rs.
use atelia_secretary.Domain.Policy.{ArtifactRef, OutputRef}
use atelia_secretary.Domain.Repository.{RedactionMarker}
use atelia_secretary.Domain.Tool.{ToolResultField, TruncationMetadata, ToolResult}
use atelia_secretary.Output.Format.{Notation}
use atelia_secretary.Output.Avoids.{Avoids, AllAvoid, concat-Avoids, map-AllAvoid}
use atelia_secretary.Output.Quoting.{
  IsPlain, render_toon_value-Avoids, render_structured_value-Avoids, render_optional_string-Avoids,
}
use atelia_secretary.Output.Toon.{
  any_code, is_control, section_lines, field_line, ref_line, build_truncation_section,
  redaction_line, truncation_section, toon_sections, ToonSection,
}
use atelia_secretary.Base.{String, Option, none, some, List, [], ◌∷◌, ◌++◌, refl, length, map}

-- The identifiers that a body shows unquoted have no control character.
pub record HasPlainIds (result : ToolResult) : Type 0 where
  pub plain_id : Avoids is_control result.id
  pub plain_invocation : Avoids is_control result.invocation_id
  pub plain_evidence : AllAvoid is_control (map (λ (r : ArtifactRef). r.id) result.evidence_refs)
  pub plain_output : AllAvoid is_control (map (λ (r : OutputRef). r.id) result.output_refs)

abbrev words : List String
words =
    "  " ∷ "," ∷ "[" ∷ "]{" ∷ "}" ∷ "fields" ∷ "evidence_refs" ∷ "output_refs" ∷ "redactions"
    ∷ "key,value" ∷ "id,uri,media_type,label,digest" ∷ "field_path,reason,redacted_at_ms" ∷ []

abbrev truncation_words : List String
truncation_words =
    "truncation" ∷ "  truncated true" ∷ "  original_bytes " ∷ "  retained_bytes " ∷ "  reason " ∷ []

words-Avoid : AllAvoid is_control words
unfolding any_code is_control
words-Avoid = (
  refl,
  (refl, (refl, (refl, (refl, (refl, (refl, (refl, (refl, (refl, (refl, (refl, tt))))))))))),
)

truncation_words-Avoid : AllAvoid is_control truncation_words
unfolding any_code is_control
truncation_words-Avoid = (refl, (refl, (refl, (refl, (refl, tt)))))

module _ (notation : Notation) (plain : IsPlain notation) where
  section_lines-Avoid {ℓ} :
      {A : Type ℓ} (name columns : String) (line : A → String) (xs : List A)
      → Avoids is_control name
      → Avoids is_control columns
      → AllAvoid is_control (map line xs)
      → AllAvoid is_control (section_lines notation name columns line xs)
  section_lines-Avoid name columns line [] h k hs = tt
  section_lines-Avoid name columns line (x ∷ xs) h k hs =
      let (_, (_, (opened, (middle, (closed, _))))) = words-Avoid in
      (
        concat-Avoids is_control
            (name ∷ "[" ∷ notation.print (length (x ∷ xs)) ∷ "]{" ∷ columns ∷ "}" ∷ [])
            (h, (opened, (plain.plain_print _, (middle, (k, (closed, tt)))))),
        hs,
      )

  field_line-Avoids : (field : ToolResultField) → Avoids is_control (field_line notation field)
  unfolding field_line
  field_line-Avoids field =
      let (indent, (comma, _)) = words-Avoid in
      concat-Avoids is_control _ (
        indent,
        (
          render_toon_value-Avoids notation plain field.key,
          (comma, (render_structured_value-Avoids notation plain field.value, tt)),
        ),
      )

  ref_line-Avoids :
      (id uri media_type : String) (label digest : Option String)
      → Avoids is_control id
      → Avoids is_control (ref_line notation id uri media_type label digest)
  unfolding ref_line
  ref_line-Avoids id uri media_type label digest h =
      let (indent, (comma, _)) = words-Avoid in
      concat-Avoids is_control _ (
        indent,
        (
          h,
          (
            comma,
            (
              render_toon_value-Avoids notation plain uri,
              (
                comma,
                (
                  render_toon_value-Avoids notation plain media_type,
                  (
                    comma,
                    (
                      render_optional_string-Avoids notation plain label,
                      (comma, (render_optional_string-Avoids notation plain digest, tt)),
                    ),
                  ),
                ),
              ),
            ),
          ),
        ),
      )

  redaction_line-Avoids :
      (redaction : RedactionMarker) → Avoids is_control (redaction_line notation redaction)
  unfolding redaction_line
  redaction_line-Avoids redaction =
      let (indent, (comma, _)) = words-Avoid in
      concat-Avoids is_control _ (
        indent,
        (
          render_toon_value-Avoids notation plain redaction.field_path,
          (
            comma,
            (
              render_toon_value-Avoids notation plain redaction.reason,
              (comma, (plain.plain_i64 redaction.redacted_at, tt)),
            ),
          ),
        ),
      )

  artifact_lines-Avoid :
      (refs : List ArtifactRef)
      → AllAvoid is_control (map (λ (r : ArtifactRef). r.id) refs)
      → AllAvoid is_control (
          map
            (λ (r : ArtifactRef). ref_line notation r.id r.uri r.media_type r.label r.digest)
            refs)
  artifact_lines-Avoid [] h = tt
  artifact_lines-Avoid (r ∷ refs) (h, hs) =
      (ref_line-Avoids r.id r.uri r.media_type r.label r.digest h, artifact_lines-Avoid refs hs)

  output_lines-Avoid :
      (refs : List OutputRef)
      → AllAvoid is_control (map (λ (r : OutputRef). r.id) refs)
      → AllAvoid is_control
          (map (λ (r : OutputRef). ref_line notation r.id r.uri r.media_type r.label r.digest) refs)
  output_lines-Avoid [] h = tt
  output_lines-Avoid (r ∷ refs) (h, hs) =
      (ref_line-Avoids r.id r.uri r.media_type r.label r.digest h, output_lines-Avoid refs hs)

  truncation_lines-Avoid :
      (t : TruncationMetadata) → AllAvoid is_control (build_truncation_section notation t)
  unfolding build_truncation_section
  truncation_lines-Avoid t =
      let (name, (told, (original, (retained, (reason, _))))) = truncation_words-Avoid in
      (
        name,
        (
          told,
          (
            concat-Avoids is_control _ (original, (plain.plain_print t.original_bytes, tt)),
            (
              concat-Avoids is_control _ (retained, (plain.plain_print t.retained_bytes, tt)),
              (
                concat-Avoids is_control _
                    (reason, (render_toon_value-Avoids notation plain t.reason, tt)),
                tt,
              ),
            ),
          ),
        ),
      )

  -- All lines of sections.
  abbrev pub SectionsAvoid : List ToonSection → Type 0
  SectionsAvoid [] = Unit
  SectionsAvoid (s ∷ ss) = AllAvoid is_control s.lines × SectionsAvoid ss

  append-SectionsAvoid :
      (ss ts : List ToonSection) → SectionsAvoid ss → SectionsAvoid ts → SectionsAvoid (ss ++ ts)
  append-SectionsAvoid [] ts h k = k
  append-SectionsAvoid (s ∷ ss) ts (h, hs) k = (h, append-SectionsAvoid ss ts hs k)

  truncation_section-Avoid :
      (t : Option TruncationMetadata) → SectionsAvoid (truncation_section notation t)
  truncation_section-Avoid none = tt
  truncation_section-Avoid (some t) = (truncation_lines-Avoid t, tt)

  pub toon_sections-Avoid :
      (result : ToolResult) → HasPlainIds result → SectionsAvoid (toon_sections notation result)
  unfolding toon_sections
  toon_sections-Avoid result ids =
      let (
        _,
        (
          _,
          (_, (_, (_, (fields, (evidence, (output, (redactions, (keys, (refs, (marks, _)))))))))),
        ),
      ) =
        words-Avoid in
      (
        section_lines-Avoid "fields" "key,value" (field_line notation) result.fields fields keys
            (map-AllAvoid is_control (field_line notation) field_line-Avoids result.fields),
        (
          section_lines-Avoid "evidence_refs" _ _ result.evidence_refs evidence refs
              (artifact_lines-Avoid result.evidence_refs ids.plain_evidence),
          (
            section_lines-Avoid "output_refs" _ _ result.output_refs output refs
                (output_lines-Avoid result.output_refs ids.plain_output),
            append-SectionsAvoid (truncation_section notation result.truncation) _
                (truncation_section-Avoid result.truncation)
                (
                  section_lines-Avoid "redactions" _ _ result.redactions redactions marks (
                      map-AllAvoid is_control (redaction_line notation) redaction_line-Avoids
                        result.redactions),
                  tt,
                ),
          ),
        ),
      )
