-- ===== src/Output/Toon.antt =====
-- Values and sections of the format TOON, crates/atelia-core/src/tool_output.rs.
use Prim.Native.Char.{Char, code}
use atelia_secretary.Domain.Policy.{ArtifactRef, OutputRef}
use atelia_secretary.Domain.Repository.{RedactionMarker}
use atelia_secretary.Domain.Tool.{
  StructuredValue, ToolResultField, TruncationMetadata, ToolResult, text_list, boolean, integer,
  null,
}
use atelia_secretary.Output.Format.{Notation, concat, join}
use atelia_secretary.Base.{
  option_eq, nat_eq, string_eq, String, ℕ, Bool, true, false, ◌&&◌, ◌||◌, Option, none, some, List,
  [], ◌∷◌, ◌++◌, ◌==◌, leb, map, append, length, is_whitespace, if◌then◌else◌,
}

-- `char::is_control`: the code points of the category Cc.
unfoldable pub is_control : ℕ → Bool
is_control c = leb c 0x1F || (leb 0x7F c && leb c 0x9F)

unfoldable pub needs_quotes : ℕ → Bool
unfolding is_control
needs_quotes c =
    is_control c
    || is_whitespace c
    || c == b','
    || c == b'['
    || c == b']'
    || c == b'{'
    || c == b'}'
    || c == b'"'
    || c == b'\''
    || c == b'#'
    || c == b':'
    || c == b'\\'

unfoldable pub any_code : (ℕ → Bool) → String → Bool
any_code p String.[] = false
any_code p (String.◌∷◌ c s) = p (code c) || any_code p s

module _ (notation : Notation) where
  -- What is pushed for one character of a quoted text.
  unfoldable pub quoted_char : Char → String
  unfolding is_control
  quoted_char c =
      if code c == b'\\'
      then "\\\\"
      else if code c == b'"'
      then "\\\""
      else if code c == b'\n'
      then "\\n"
      else if code c == b'\r'
      then "\\r"
      else if code c == b'\t'
      then "\\t"
      else if is_control (code c)
      then concat ("\\u{" ∷ notation.print_hex (code c) ∷ "}" ∷ [])
      else String.◌∷◌ c String.[]

  unfoldable pub quoted_chars : String → String
  unfolding quoted_char
  quoted_chars String.[] = ""
  quoted_chars (String.◌∷◌ c s) = append (quoted_char c) (quoted_chars s)

  unfoldable pub quote_string : String → String
  unfolding quoted_chars
  quote_string value = append "\"" (append (quoted_chars value) "\"")

  unfoldable pub is_toon_literal : String → Bool
  is_toon_literal value =
      value == "null"
      || value == "true"
      || value == "false"
      || notation.parses_i64 value
      || notation.parses_f64 value

  unfoldable pub render_toon_value : String → String
  unfolding is_toon_literal any_code needs_quotes quote_string
  render_toon_value value =
      if value == "" || is_toon_literal value || any_code needs_quotes value
      then quote_string value
      else value

  abbrev pub print_bool : Bool → String
  print_bool true = "true"
  print_bool false = "false"

  unfoldable pub render_structured_value : StructuredValue → String
  unfolding render_toon_value
  render_structured_value null = "null"
  render_structured_value (boolean value) = print_bool value
  render_structured_value (integer value) = notation.print_i64 value
  render_structured_value (StructuredValue.text value) = render_toon_value value
  render_structured_value (text_list values) =
      concat ("[" ∷ join "," (map render_toon_value values) ∷ "]" ∷ [])

  unfoldable pub render_optional_string : Option String → String
  unfolding render_toon_value
  render_optional_string none = "null"
  render_optional_string (some value) = render_toon_value value

  -- A section's heading with its count, and one line for each record; nothing if there is none.
  abbrev pub section_lines {ℓ} :
      {A : Type ℓ} → String → String → (A → String) → List A → List String
  section_lines name columns line [] = []
  section_lines name columns line (x ∷ xs) =
      concat (name ∷ "[" ∷ notation.print (length (x ∷ xs)) ∷ "]{" ∷ columns ∷ "}" ∷ [])
      ∷ map line (x ∷ xs)

  unfoldable pub field_line : ToolResultField → String
  field_line field =
      concat ("  " ∷ render_toon_value field.key ∷ "," ∷ render_structured_value field.value ∷ [])

  abbrev pub build_fields_section : List ToolResultField → List String
  build_fields_section fields = section_lines "fields" "key,value" field_line fields

  unfoldable pub ref_line : String → String → String → Option String → Option String → String
  ref_line id uri media_type label digest = concat (
      "  "
      ∷ id
      ∷ ","
      ∷ render_toon_value uri
      ∷ ","
      ∷ render_toon_value media_type
      ∷ ","
      ∷ render_optional_string label
      ∷ ","
      ∷ render_optional_string digest
      ∷ [])

  abbrev pub build_artifact_refs_section : String → List ArtifactRef → List String
  build_artifact_refs_section label refs =
      section_lines label "id,uri,media_type,label,digest"
        (λ (r : ArtifactRef). ref_line r.id r.uri r.media_type r.label r.digest) refs

  abbrev pub build_output_refs_section : List OutputRef → List String
  build_output_refs_section refs =
      section_lines "output_refs" "id,uri,media_type,label,digest"
        (λ (r : OutputRef). ref_line r.id r.uri r.media_type r.label r.digest) refs

  unfoldable pub build_truncation_section : TruncationMetadata → List String
  build_truncation_section truncation =
      "truncation"
      ∷ "  truncated true"
      ∷ concat ("  original_bytes " ∷ notation.print truncation.original_bytes ∷ [])
      ∷ concat ("  retained_bytes " ∷ notation.print truncation.retained_bytes ∷ [])
      ∷ concat ("  reason " ∷ render_toon_value truncation.reason ∷ [])
      ∷ []

  unfoldable pub redaction_line : RedactionMarker → String
  redaction_line redaction = concat (
      "  "
      ∷ render_toon_value redaction.field_path
      ∷ ","
      ∷ render_toon_value redaction.reason
      ∷ ","
      ∷ notation.print_i64 redaction.redacted_at
      ∷ [])

  abbrev pub build_redactions_section : List RedactionMarker → List String
  build_redactions_section redactions =
      section_lines "redactions" "field_path,reason,redacted_at_ms" redaction_line redactions

pub record ToonSection : Type 0 where
  pub label : String
  pub count : ℕ
  pub lines : List String

module _ (notation : Notation) where
  abbrev pub truncation_section : Option TruncationMetadata → List ToonSection
  truncation_section none = []
  truncation_section (some truncation) =
      record {
        label = "truncation";
        count = 1;
        lines = build_truncation_section notation truncation;
      }
      ∷ []

  unfoldable pub toon_sections : ToolResult → List ToonSection
  toon_sections result =
      record {
        label = "fields";
        count = length result.fields;
        lines = build_fields_section notation result.fields;
      }
      ∷ record {
        label = "evidence_refs";
        count = length result.evidence_refs;
        lines = build_artifact_refs_section notation "evidence_refs" result.evidence_refs;
      }
      ∷ record {
        label = "output_refs";
        count = length result.output_refs;
        lines = build_output_refs_section notation result.output_refs;
      }
      ∷ (truncation_section result.truncation
          ++ (record {
            label = "redactions";
            count = length result.redactions;
            lines = build_redactions_section notation result.redactions;
          }
              ∷ []))
