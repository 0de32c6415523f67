-- ===== src/Output/Cut.antt =====
-- How a text is cut to the byte budget, crates/atelia-core/src/tool_output.rs.
use Prim.Native.Char.{Char, len_utf8}
use atelia_secretary.Output.Budget.{truncate_string_value}
use atelia_secretary.Base.{
  refl, sym, ap, len-append, arith, leb_false→lt, String, ℕ, ◌+◌, ◌≤◌, ◌<◌, ◌≡◌, true, some, append,
  len, leb, prefix_to, suffix_from, floor_boundary, is_char_boundary, floor_boundary-boundary,
  prefix_to-floor_boundary, prefix_to-len, prefix_to-longest, prefix_to-suffix_from, Bool-cases,
  inl, inr,
}

-- A text is cut at a boundary of its characters, what is kept fits, and the first character that
-- is dropped would not.
pub record IsCutAt (value kept : String) (max_inline_bytes : ℕ) : Type 0 where
  pub end : ℕ
  pub boundary : is_char_boundary value end ≡ true
  pub at_end : kept ≡ prefix_to value end
  pub fits : len kept ≤ max_inline_bytes
  pub dropped : Char
  pub rest : String
  pub whole : append kept (String.◌∷◌ dropped rest) ≡ value
  pub longest : max_inline_bytes < len kept + len_utf8 dropped

len_empty : len String.[] ≡ 0
unfolding len
len_empty = refl

module _ (value : String) (max_inline_bytes : ℕ) (over : max_inline_bytes < len value) where
  abbrev kept : String
  kept = prefix_to value max_inline_bytes

  dropped-IsCutAt :
      (dropped : String)
      → suffix_from value max_inline_bytes ≡ dropped
      → IsCutAt value kept max_inline_bytes
  dropped-IsCutAt String.[] e =
      let whole : append kept String.[] ≡ value =
        rw (← e) (prefix_to-suffix_from value max_inline_bytes) in
      absurd (
        omega (
          arith,
          over,
          prefix_to-len value max_inline_bytes,
          len-append kept String.[],
          ap len whole,
          len_empty,
        ))
  dropped-IsCutAt (String.◌∷◌ c t) e = record {
    end = floor_boundary value max_inline_bytes;
    boundary = floor_boundary-boundary value max_inline_bytes;
    at_end = sym (prefix_to-floor_boundary value max_inline_bytes);
    fits = prefix_to-len value max_inline_bytes;
    dropped = c;
    rest = t;
    whole = rw (← e) (prefix_to-suffix_from value max_inline_bytes);
    longest = prefix_to-longest value t max_inline_bytes c e;
  }

module _ (value kept : String) (max_inline_bytes : ℕ) where
  -- What is kept of a text that is cut ends at a boundary of its characters, fits the budget, and is
  -- the longest such prefix: one more character would be above the budget.
  pub truncate_string_value-IsCutAt :
      truncate_string_value value max_inline_bytes ≡ some kept → IsCutAt value kept max_inline_bytes
  unfolding truncate_string_value
  truncate_string_value-IsCutAt h = elim (Bool-cases (leb (len value) max_inline_bytes)) [
    | inl fits ↦ absurd (cc (rw fits at h))
    | inr over ↦
        let e : prefix_to value (floor_boundary value max_inline_bytes) ≡ kept =
          cc (rw over at h) in
        rw (← e, prefix_to-floor_boundary value max_inline_bytes)
          (dropped-IsCutAt value max_inline_bytes (leb_false→lt (len value) max_inline_bytes over) _
            refl)
  ]
