-- ===== src/Runtime/Fitting.antt =====
-- What the runtime truncates fits when it is rendered, crates/atelia-core/src/runtime.rs and
-- crates/atelia-core/src/tool_output.rs.
use atelia_secretary.Domain.Tool.{null, boolean, integer}
use atelia_secretary.Settings.Laws.{validate-IsBounded}
use atelia_secretary.Output.{OversizeOutputPolicy}
use atelia_secretary.Settings.{max_max_inline_bytes, validate, ToolOutputDefaults}
use atelia_secretary.Domain.Tool.{
  integer, boolean, text_list, StructuredValue, ToolResultField, ToolResult,
}
use atelia_secretary.Output.Format.{Notation}
use Prim.Native.Char.{len_utf8}
use atelia_secretary.Base.{
  ok, Option-cases, none, prefix_to-floor_boundary, some, ◌<◌, len_utf8-positive, String, ℕ, ◌+◌,
  ◌-◌, ◌≤◌, ◌≡◌, refl, arith, List, [], ◌∷◌, ◌++◌, ◌==◌, ltb, leb, len, prefix_to, prefix_to-len,
  Bool-cases, inl, inr, true, false, leb→le, ltb_false→le, ltb→lt, le→leb, nat_eq, ap,
}
use atelia_secretary.Domain.Time.{u64_max}
use atelia_secretary.Output.Counted.{above-none, above-some, list_bytes-append}
use atelia_secretary.Output.Budget.{
  above, max_inline_bytes_as_usize, apply_render_byte_budget, oversized_field_bytes,
  oversized_fields, oversized_bytes, truncate_string_value, list_bytes, separator_after,
  saturating_add,
}
use atelia_secretary.Runtime.Truncation.{
  no_report, runtime_oversized_field_bytes, report_truncated, truncate_oversized_tool_result_fields,
  runtime_truncate_string_list, string_list_byte_len, runtime_truncated_value,
  ToolResultTruncationReport, runtime_oversized_bytes, runtime_truncate_field,
  runtime_truncate_fields, list_len_from, truncation_end, runtime_list_loop, cut_last,
}

-- The loop over the characters finds the longest prefix that fits.
truncation_end-len :
    (s : String) (remaining offset : ℕ)
    → offset ≤ remaining
    → truncation_end s remaining offset ≡ offset + len (prefix_to s (remaining - offset))
unfolding truncation_end prefix_to len
truncation_end-len String.[] remaining offset h = omega arith
truncation_end-len (String.◌∷◌ c s) remaining offset h =
    elim (Bool-cases (ltb remaining (offset + len_utf8 c))) [
      | inl over ↦
          let cut : leb (len_utf8 c) (remaining - offset) ≡ false =
            ground (arith, ltb→lt remaining (offset + len_utf8 c) over, h) in
          rw (over, cut) (omega arith)
      | inr fits ↦
          let within = ltb_false→le remaining (offset + len_utf8 c) fits in
          let kept : leb (len_utf8 c) (remaining - offset) ≡ true =
            le→leb (len_utf8 c) (remaining - offset) (omega (arith, within)) in
          let rest = truncation_end-len s remaining (offset + len_utf8 c) within in
          let same : remaining - (offset + len_utf8 c) ≡ remaining - offset - len_utf8 c =
            omega arith in
          let moved : len (prefix_to s (remaining - (offset + len_utf8 c)))
              ≡ len (prefix_to s (remaining - offset - len_utf8 c)) =
            ap (λ n. len (prefix_to s n)) same in
          rw (fits, kept) (omega (arith, rest, moved))
    ]

-- Cutting at its own length keeps a prefix.
prefix_to-prefix_to :
    (s : String) (end : ℕ) → len (prefix_to s (len (prefix_to s end))) ≡ len (prefix_to s end)
unfolding prefix_to len
prefix_to-prefix_to String.[] end = refl
prefix_to-prefix_to (String.◌∷◌ c s) end = elim (Bool-cases (leb (len_utf8 c) end)) [
  | inl fits ↦
      let kept = len (prefix_to s (end - len_utf8 c)) in
      let again : leb (len_utf8 c) (len_utf8 c + kept) ≡ true =
        le→leb (len_utf8 c) (len_utf8 c + kept) (omega arith) in
      let back : len_utf8 c + kept - len_utf8 c ≡ kept = omega arith in
      rw fits (rw again (rw back (omega (arith, prefix_to-prefix_to s (end - len_utf8 c)))))
  | inr cut ↦
      let none_fits : leb (len_utf8 c) 0 ≡ false = ground (arith, len_utf8-positive c) in
      rw cut (rw none_fits refl)
]

truncation_end-prefix_to :
    (value : String) (remaining : ℕ)
    → truncation_end value remaining 0 ≡ len (prefix_to value remaining)
truncation_end-prefix_to value remaining =
    let whole : remaining - 0 ≡ remaining = omega arith in
    let same = ap (λ n. len (prefix_to value n)) whole in
    omega (arith, truncation_end-len value remaining 0 (omega arith), same)

cut-len :
    (value : String) (remaining : ℕ)
    → len (prefix_to value (truncation_end value remaining 0)) ≡ truncation_end value remaining 0
cut-len value remaining =
    rw (truncation_end-prefix_to value remaining) (prefix_to-prefix_to value remaining)

cut-fits : (value : String) (remaining : ℕ) → truncation_end value remaining 0 ≤ remaining
cut-fits value remaining =
    omega (arith, truncation_end-prefix_to value remaining, prefix_to-len value remaining)

separator_after-append :
    (kept : List String) (value : String) → separator_after (kept ++ (value ∷ [])) ≡ 1
separator_after-append [] value = refl
separator_after-append (k ∷ kept) value = refl

module _ (limit : ℕ) (small : limit ≤ u64_max) where
  cut_last-fits :
      (end : ℕ) (value : String) (kept : List String)
      → len (prefix_to value end) ≡ end
      → list_bytes kept + (separator_after kept + end) ≤ limit
      → list_bytes kept ≤ limit
      → list_bytes (cut_last end value (separator_after kept) kept (list_bytes kept)).0 ≤ limit
  cut_last-fits end value kept cut room before = elim (Bool-cases (ltb 0 end)) [
    | inl more ↦ rw more (omega (arith, list_bytes-append kept (prefix_to value end), cut, room))
    | inr none_left ↦ rw none_left before
  ]

  runtime_list_loop-fits :
      (values kept : List String)
      → list_bytes kept ≤ limit
      → list_bytes (runtime_list_loop values limit (separator_after kept) kept (list_bytes kept)).0
        ≤ limit
  unfolding runtime_list_loop
  runtime_list_loop-fits [] kept fits = fits
  runtime_list_loop-fits (value ∷ values) kept fits =
      let remaining = limit - saturating_add (list_bytes kept) (separator_after kept) in
      elim (Bool-cases (remaining == 0)) [
        | inl full ↦ rw full fits
        | inr left ↦
            let some_left : 1 ≤ remaining = ground (arith, left) in
            elim (Bool-cases (leb (len value) remaining)) [
              | inl whole ↦
                  let total = list_bytes-append kept value in
                  let more : list_bytes (kept ++ (value ∷ [])) ≤ limit =
                    omega (arith, total, some_left, small, leb→le (len value) remaining whole) in
                  let rest = runtime_list_loop-fits values (kept ++ (value ∷ [])) more in
                  rw (left, whole) (rw (separator_after-append kept value, total) at rest)
              | inr over ↦
                  rw (left, over)
                    (cut_last-fits (truncation_end value remaining 0) value kept
                      (cut-len value remaining)
                      (omega (arith, some_left, small, cut-fits value remaining)) fits)
            ]
      ]

list_len_from-list_bytes :
    (values : List String) (bytes : ℕ)
    → bytes ≤ u64_max
    → list_len_from values bytes ≡ saturating_add bytes (list_bytes values)
unfolding list_len_from list_bytes
list_len_from-list_bytes [] bytes h = omega arith
list_len_from-list_bytes (v ∷ []) bytes h = omega arith
list_len_from-list_bytes (v ∷ w ∷ values) bytes h = omega (
  arith,
  list_len_from-list_bytes (w ∷ values) (saturating_add (saturating_add bytes (len v)) 1)
      (omega arith),
)

truncate_string_value-over :
    (value : String) (limit : ℕ)
    → limit < len value
    → truncate_string_value value limit ≡ some (prefix_to value limit)
unfolding truncate_string_value
truncate_string_value-over value limit over =
    let long : leb (len value) limit ≡ false = ground (arith, over) in
    rw long (rw (prefix_to-floor_boundary value limit) refl)

above-le : (n limit : ℕ) → above n limit ≡ none → n ≤ limit
above-le n limit h = ground arith

module _ (limit : ℕ) (below : limit < u64_max) where
  -- A value that the runtime lets pass fits.
  passed-fits :
      (value : StructuredValue)
      → runtime_oversized_bytes value limit ≡ none
      → oversized_bytes value limit ≡ none
  unfolding runtime_oversized_bytes oversized_bytes string_list_byte_len
  passed-fits (StructuredValue.text value) h = h
  passed-fits (text_list values) h =
      let counted = list_len_from-list_bytes values 0 (omega arith) in
      let passed = above-le (list_len_from values 0) limit h in
      above-none (list_bytes values) limit (omega (arith, counted, passed, below))
  passed-fits null h = refl
  passed-fits (boolean b) h = refl
  passed-fits (integer n) h = refl

  -- A value that the runtime truncates fits afterwards.
  truncated-fits :
      (value : StructuredValue) (bytes : ℕ) (field : ToolResultField)
      (report : ToolResultTruncationReport)
      → runtime_oversized_bytes value limit ≡ some bytes
      → oversized_field_bytes
          (report_truncated (runtime_truncated_value value limit) bytes field report).0
          limit
        ≡ none
  unfolding runtime_oversized_bytes oversized_bytes runtime_truncated_value
      runtime_truncate_string_list list_bytes
  truncated-fits (StructuredValue.text value) bytes field report h =
      let (_, over) = above-some (len value) limit bytes h in
      rw (truncate_string_value-over value limit over)
        (above-none _ limit (prefix_to-len value limit))
  truncated-fits (text_list values) bytes field report h =
      above-none _ limit
        (runtime_list_loop-fits limit (omega (arith, below)) values [] (omega arith))
  truncated-fits null bytes field report h = cc
  truncated-fits (boolean b) bytes field report h = cc
  truncated-fits (integer n) bytes field report h = cc

  truncate_field-fits :
      (field : ToolResultField) (report : ToolResultTruncationReport)
      → oversized_field_bytes (runtime_truncate_field field limit report).0 limit ≡ none
  unfolding runtime_truncate_field
  truncate_field-fits field report =
      elim (Option-cases (runtime_oversized_field_bytes field limit)) [
        | inl passed ↦ rw (passed, runtime_truncate_field) (passed-fits field.value passed)
        | inr (bytes, over) ↦
            rw (over, runtime_truncate_field) (truncated-fits field.value bytes field report over)
      ]

  truncate_fields-fit :
      (fields : List ToolResultField) (report : ToolResultTruncationReport)
      → oversized_fields (runtime_truncate_fields fields limit report).0 limit ≡ []
  unfolding runtime_truncate_fields oversized_fields
  truncate_fields-fit [] report = refl
  truncate_fields-fit (field ∷ fields) report =
      let own = truncate_field-fits field report in
      let rest = truncate_fields-fit fields (runtime_truncate_field field limit report).1 in
      rw (own, oversized_fields) rest

below_max : (n : ℕ) → n ≤ max_max_inline_bytes → max_inline_bytes_as_usize n < u64_max
unfolding max_inline_bytes_as_usize
below_max n h = omega (arith, h)

module _ (notation : Notation) (result : ToolResult) (defaults : ToolOutputDefaults)
    (oversize_policy : OversizeOutputPolicy) where
  -- A result whose fields the runtime has truncated to the budget of valid settings is within that
  -- budget when it is rendered: nothing more is cut, and nothing is refused, under any policy.
  pub truncate_oversized_tool_result_fields-renders :
      validate defaults ≡ ok tt
      → (let truncated =
            (truncate_oversized_tool_result_fields result
              (max_inline_bytes_as_usize defaults.max_inline_bytes)).0 in
          apply_render_byte_budget notation truncated defaults.max_inline_bytes oversize_policy
          ≡ ok (truncated, none))
  unfolding truncate_oversized_tool_result_fields apply_render_byte_budget
  truncate_oversized_tool_result_fields-renders valid =
      let bounded = validate-IsBounded defaults valid in
      let fit =
        truncate_fields-fit (max_inline_bytes_as_usize defaults.max_inline_bytes)
          (below_max defaults.max_inline_bytes bounded.greatest_bytes) result.fields no_report in
      rw fit refl
