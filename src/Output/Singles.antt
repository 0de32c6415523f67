-- ===== src/Output/Singles.antt =====
-- The format text is one line, crates/atelia-core/src/tool_output.rs.
use Prim.Native.Char.{Char, code}
use atelia_secretary.Domain.Repository.{RedactionMarker}
use atelia_secretary.Domain.Tool.{
  ToolResult, ToolResultStatus, TruncationMetadata, succeeded, failed, canceled, timed_out,
}
use atelia_secretary.Output.Format.{Notation, join}
use atelia_secretary.Output.Avoids.{
  if-Avoids, Avoids, AllAvoid, concat-Avoids, join-Avoids, append-AllAvoid, map-AllAvoid,
  Avoids-mono,
}
use atelia_secretary.Output.Quoting.{IsPlain}
use atelia_secretary.Output.Render.{status_name, summary_field}
use atelia_secretary.Output.Toon.{any_code, is_control}
use atelia_secretary.Output.Plain.{
  space, normalize_from, normalize_text_output_value, is_break, redaction_marker, summary_text,
  counted, truncated_part, redactions_part, text_parts,
}
use atelia_secretary.Base.{
  nat_discrete, String, ℕ, Bool, false, ◌==◌, Option, none, some, List, [], ◌∷◌, ◌≡◌, refl, arith,
  length, Bool-cases, inl, inr, map, nat_eq,
}

space-is_break : is_break (code space) ≡ false
unfolding nat_discrete
space-is_break = refl

push-Avoids :
    (c : Char) (s : String)
    → is_break (code c) ≡ false
    → Avoids is_break s
    → Avoids is_break (String.◌∷◌ c s)
unfolding any_code
push-Avoids c s h k = rw h k

empty-Avoids : Avoids is_break String.[]
unfolding any_code
empty-Avoids = refl

normalize_from-Avoids : (r : Bool) (s : String) → Avoids is_break (normalize_from r s)
unfolding normalize_from
normalize_from-Avoids r String.[] = empty-Avoids
normalize_from-Avoids r (String.◌∷◌ c s) =
    let rest = normalize_from-Avoids (code c == b'\r') s in
    let blank = push-Avoids space _ space-is_break rest in
    if-Avoids is_break (code c == b'\r') _ _ blank λ not_return.
      if-Avoids is_break (code c == b'\n') _ _ (if-Avoids is_break r _ _ rest (λ _. blank))
        λ not_feed. push-Avoids c _ (rw (not_return, not_feed) refl) rest

normalize-Avoids : (s : String) → Avoids is_break (normalize_text_output_value s)
unfolding normalize_text_output_value
normalize-Avoids s = elim (Bool-cases (any_code is_break s)) [
  | inl broken ↦ rw broken (normalize_from-Avoids false s)
  | inr whole ↦ rw whole whole
]

is_control-is_break : (n : ℕ) → is_control n ≡ false → is_break n ≡ false
unfolding is_control
is_control-is_break n h = ground arith

abbrev words : List String
words =
    " " ∷ ": " ∷ "; " ∷ ", " ∷ " (" ∷ ")" ∷ ", redacted_at_ms " ∷ "no summary" ∷ " field(s)"
    ∷ " evidence ref(s)" ∷ " output ref(s)" ∷ "truncated " ∷ "/" ∷ " bytes: " ∷ " redaction(s): "
    ∷ []

words-Avoid : AllAvoid is_break words
unfolding any_code nat_discrete
words-Avoid = (
  refl,
  (
    refl,
    (
      refl,
      (
        refl,
        (refl, (refl, (refl, (refl, (refl, (refl, (refl, (refl, (refl, (refl, (refl, tt))))))))))),
      ),
    ),
  ),
)

status_name-Avoids : (s : ToolResultStatus) → Avoids is_break (status_name s)
unfolding any_code status_name nat_discrete
status_name-Avoids succeeded = refl
status_name-Avoids failed = refl
status_name-Avoids canceled = refl
status_name-Avoids timed_out = refl

module _ (notation : Notation) (plain : IsPlain notation) where
  print-Avoids : (n : ℕ) → Avoids is_break (notation.print n)
  print-Avoids n = Avoids-mono is_control is_break _ is_control-is_break (plain.plain_print n)

  print_i64-Avoids : (n : ℕ) → Avoids is_break (notation.print_i64 n)
  print_i64-Avoids n = Avoids-mono is_control is_break _ is_control-is_break (plain.plain_i64 n)

  redaction_marker-Avoids : (r : RedactionMarker) → Avoids is_break (redaction_marker notation r)
  unfolding redaction_marker
  redaction_marker-Avoids r =
      let (_, (_, (_, (_, (opened, (closed, (at, _))))))) = words-Avoid in
      concat-Avoids is_break _ (
        normalize-Avoids r.field_path,
        (opened, (normalize-Avoids r.reason, (at, (print_i64-Avoids r.redacted_at, (closed, tt))))),
      )

  summary_text-Avoids : (o : Option String) → Avoids is_break (summary_text notation o)
  summary_text-Avoids none =
      let (_, (_, (_, (_, (_, (_, (_, (missing, _)))))))) = words-Avoid in missing
  summary_text-Avoids (some s) = normalize-Avoids s

  counted-Avoid {ℓ} :
      {A : Type ℓ} (xs : List A) (what : String)
      → Avoids is_break what
      → AllAvoid is_break (counted notation xs what)
  counted-Avoid [] what h = tt
  counted-Avoid (x ∷ xs) what h = (
    concat-Avoids is_break (notation.print (length (x ∷ xs)) ∷ what ∷ [])
        (print-Avoids (length (x ∷ xs)), (h, tt)),
    tt,
  )

  truncated_part-Avoid :
      (t : Option TruncationMetadata) → AllAvoid is_break (truncated_part notation t)
  truncated_part-Avoid none = tt
  truncated_part-Avoid (some t) =
      let (_, (_, (_, (_, (_, (_, (_, (_, (_, (_, (_, (told, (slash, (bytes, _)))))))))))))) =
        words-Avoid in
      (
        concat-Avoids is_break
            ("truncated "
              ∷ notation.print t.retained_bytes
              ∷ "/"
              ∷ notation.print t.original_bytes
              ∷ " bytes: "
              ∷ normalize_text_output_value t.reason
              ∷ [])
            (
              told,
              (
                print-Avoids t.retained_bytes,
                (slash, (print-Avoids t.original_bytes, (bytes, (normalize-Avoids t.reason, tt)))),
              ),
            ),
        tt,
      )

  redactions_part-Avoid :
      (rs : List RedactionMarker) → AllAvoid is_break (redactions_part notation rs)
  redactions_part-Avoid [] = tt
  redactions_part-Avoid (r ∷ rs) =
      let (_, (_, (_, (comma, (_, (_, (_, (_, (_, (_, (_, (_, (_, (_, (what, _))))))))))))))) =
        words-Avoid in
      (
        concat-Avoids is_break
            (notation.print (length (r ∷ rs))
              ∷ " redaction(s): "
              ∷ join ", " (map (redaction_marker notation) (r ∷ rs))
              ∷ [])
            (
              print-Avoids (length (r ∷ rs)),
              (
                what,
                (
                  join-Avoids is_break ", " _ comma (
                      map-AllAvoid is_break (redaction_marker notation) redaction_marker-Avoids
                        (r ∷ rs)),
                  tt,
                ),
              ),
            ),
        tt,
      )

  -- The parts of a text, joined, have no line break, neither a line feed nor a carriage return.
  pub text_parts-Avoid :
      (result : ToolResult) → Avoids is_break (join "; " (text_parts notation result))
  unfolding text_parts
  text_parts-Avoid result =
      let (
        blank,
        (colon, (semicolon, (_, (_, (_, (_, (_, (fields, (evidence, (output, _)))))))))),
      ) =
        words-Avoid in
      join-Avoids is_break "; " _ semicolon (
        concat-Avoids is_break
            (normalize_text_output_value result.tool_id
              ∷ " "
              ∷ status_name result.status
              ∷ ": "
              ∷ summary_text notation (summary_field result)
              ∷ [])
            (
              normalize-Avoids result.tool_id,
              (
                blank,
                (
                  status_name-Avoids result.status,
                  (colon, (summary_text-Avoids (summary_field result), tt)),
                ),
              ),
            ),
        append-AllAvoid is_break (counted notation result.fields " field(s)") _
            (counted-Avoid result.fields _ fields)
            (append-AllAvoid is_break (counted notation result.evidence_refs " evidence ref(s)") _
              (counted-Avoid result.evidence_refs _ evidence)
              (append-AllAvoid is_break (counted notation result.output_refs " output ref(s)") _
                (counted-Avoid result.output_refs _ output)
                (append-AllAvoid is_break (truncated_part notation result.truncation) _
                  (truncated_part-Avoid result.truncation)
                  (redactions_part-Avoid result.redactions)))),
      )
