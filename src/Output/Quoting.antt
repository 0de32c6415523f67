-- ===== src/Output/Quoting.antt =====
-- Values of TOON hold no control character, crates/atelia-core/src/tool_output.rs.
use Prim.Native.Char.{Char, code}
use atelia_secretary.Domain.Tool.{StructuredValue, text_list, boolean, integer, null}
use atelia_secretary.Output.Format.{Notation}
use atelia_secretary.Output.Avoids.{
  or-false, if-Avoids, Avoids-mono, Avoids, AllAvoid, append-Avoids, concat-Avoids, join-Avoids,
  map-AllAvoid,
}
use atelia_secretary.Output.Toon.{
  any_code, is_control, needs_quotes, quoted_char, quoted_chars, quote_string, render_toon_value,
  is_toon_literal, render_structured_value, render_optional_string, print_bool,
}
use atelia_secretary.Base.{
  String, ℕ, Bool, true, false, ◌||◌, ◌==◌, Option, none, some, List, [], ◌∷◌, ◌≡◌, refl, arith,
  nat_eq, string_eq,
}

-- What the standard library prints for a number has no control character.
pub record IsPlain (notation : Notation) : Type 0 where
  pub plain_print : (n : ℕ) → Avoids is_control (notation.print n)
  pub plain_i64 : (n : ℕ) → Avoids is_control (notation.print_i64 n)
  pub plain_hex : (n : ℕ) → Avoids is_control (notation.print_hex n)

needs_quotes-is_control : (n : ℕ) → needs_quotes n ≡ false → is_control n ≡ false
unfolding needs_quotes
needs_quotes-is_control n h = ground arith

abbrev escapes : List String
escapes = "\\\\" ∷ "\\\"" ∷ "\\n" ∷ "\\r" ∷ "\\t" ∷ "\\u{" ∷ "}" ∷ []

escapes-Avoid : AllAvoid is_control escapes
unfolding any_code is_control
escapes-Avoid = (refl, (refl, (refl, (refl, (refl, (refl, (refl, tt)))))))

char-Avoids : (c : Char) → is_control (code c) ≡ false → Avoids is_control (String.◌∷◌ c String.[])
unfolding any_code
char-Avoids c h = rw h refl

module _ (notation : Notation) (plain : IsPlain notation) where
  quoted_char-Avoids : (c : Char) → Avoids is_control (quoted_char notation c)
  unfolding quoted_char
  quoted_char-Avoids c =
      let (backslash, (quote, (feed, (carriage, (tab, (opened, (closed, _))))))) = escapes-Avoid in
      if-Avoids is_control (code c == b'\\') _ _ backslash λ _.
        if-Avoids is_control (code c == b'"') _ _ quote λ _.
          if-Avoids is_control (code c == b'\n') _ _ feed λ _.
            if-Avoids is_control (code c == b'\r') _ _ carriage λ _.
              if-Avoids is_control (code c == b'\t') _ _ tab λ _.
                if-Avoids is_control (is_control (code c)) _ _
                  (concat-Avoids is_control ("\\u{" ∷ notation.print_hex (code c) ∷ "}" ∷ [])
                    (opened, (plain.plain_hex (code c), (closed, tt))))
                  (char-Avoids c)

  quoted_chars-Avoids : (s : String) → Avoids is_control (quoted_chars notation s)
  unfolding quoted_chars any_code
  quoted_chars-Avoids String.[] = refl
  quoted_chars-Avoids (String.◌∷◌ c s) =
      append-Avoids is_control _ _ (quoted_char-Avoids c) (quoted_chars-Avoids s)

  quote_string-Avoids : (s : String) → Avoids is_control (quote_string notation s)
  unfolding quote_string any_code is_control
  quote_string-Avoids s =
      append-Avoids is_control "\"" _ refl
        (append-Avoids is_control _ "\"" (quoted_chars-Avoids s) refl)

  pub render_toon_value-Avoids : (s : String) → Avoids is_control (render_toon_value notation s)
  unfolding render_toon_value
  render_toon_value-Avoids s =
      if-Avoids is_control _ (quote_string notation s) s (quote_string-Avoids s) λ bare.
        let (_, quotes) =
          or-false (s == "" || is_toon_literal notation s) (any_code needs_quotes s) bare in
        Avoids-mono needs_quotes is_control s needs_quotes-is_control quotes

  print_bool-Avoids : (b : Bool) → Avoids is_control (print_bool notation b)
  unfolding any_code is_control
  print_bool-Avoids true = refl
  print_bool-Avoids false = refl

  pub render_structured_value-Avoids :
      (v : StructuredValue) → Avoids is_control (render_structured_value notation v)
  unfolding render_structured_value any_code is_control
  render_structured_value-Avoids null = refl
  render_structured_value-Avoids (boolean b) = print_bool-Avoids b
  render_structured_value-Avoids (integer n) = plain.plain_i64 n
  render_structured_value-Avoids (StructuredValue.text s) = render_toon_value-Avoids s
  render_structured_value-Avoids (text_list values) =
      concat-Avoids is_control ("[" ∷ _ ∷ "]" ∷ []) (
        refl,
        (
          join-Avoids is_control "," _ refl (
              map-AllAvoid is_control (render_toon_value notation) render_toon_value-Avoids values),
          (refl, tt),
        ),
      )

  pub render_optional_string-Avoids :
      (o : Option String) → Avoids is_control (render_optional_string notation o)
  unfolding render_optional_string any_code is_control
  render_optional_string-Avoids none = refl
  render_optional_string-Avoids (some s) = render_toon_value-Avoids s
