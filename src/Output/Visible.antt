-- ===== src/Output/Visible.antt =====
-- Which fields of a result are rendered, crates/atelia-core/src/tool_output.rs.
use atelia_secretary.Base.{
  zero, suc, suc, String, ℕ, Bool, true, Option, none, some, List, [], ◌∷◌, ◌++◌, ◌≡◌, ◌≤◌, refl,
  arith, ok, select, take, length, Bool-cases, inl, inr, >>=-eq-ok, string_eq,
}
use atelia_secretary.Domain.Tool.{ToolResult, ToolResultField}
use atelia_secretary.Output.{RenderOptions, ToolOutputRenderPolicy}
use atelia_secretary.Output.Channels.{IsShown, should_render_field-IsShown}
use atelia_secretary.Output.Format.{Notation}
use atelia_secretary.Output.Within.{AreFitted, no_fields, next_field}
use atelia_secretary.Output.Budgeted.{apply_render_byte_budget-IsBudgeted}
use atelia_secretary.Output.Render.{
  should_render_field, prioritize_renderable_fields, limit_fields, compacted, with_byte_budget,
  renderable_result,
}

-- Every field passes a test of its key.
abbrev pub AllKeys : (String → Bool) → List ToolResultField → Type 0
AllKeys p [] = Unit
AllKeys p (field ∷ fields) = (p field.key ≡ true) × AllKeys p fields

module _ (p : String → Bool) where
  AllKeys-select :
      (q : ToolResultField → Bool) (fields : List ToolResultField)
      → AllKeys p fields
      → AllKeys p (select q fields)
  AllKeys-select q [] h = tt
  AllKeys-select q (field ∷ fields) (h, hs) = elim (Bool-cases (q field)) [
    | inl kept ↦ rw kept (h, AllKeys-select q fields hs)
    | inr dropped ↦ rw dropped (AllKeys-select q fields hs)
  ]

  AllKeys-selected :
      (fields : List ToolResultField) → AllKeys p (select (λ (f : ToolResultField). p f.key) fields)
  AllKeys-selected [] = tt
  AllKeys-selected (field ∷ fields) = elim (Bool-cases (p field.key)) [
    | inl kept ↦ rw kept (kept, AllKeys-selected fields)
    | inr dropped ↦ rw dropped (AllKeys-selected fields)
  ]

  AllKeys-append :
      (xs ys : List ToolResultField) → AllKeys p xs → AllKeys p ys → AllKeys p (xs ++ ys)
  AllKeys-append [] ys h k = k
  AllKeys-append (x ∷ xs) ys (h, hs) k = (h, AllKeys-append xs ys hs k)

  AllKeys-take : (n : ℕ) (xs : List ToolResultField) → AllKeys p xs → AllKeys p (take n xs)
  AllKeys-take zero xs h = tt
  AllKeys-take (suc n) [] h = tt
  AllKeys-take (suc n) (x ∷ xs) (h, hs) = (h, AllKeys-take n xs hs)

  AllKeys-limit_fields :
      (max_fields : Option ℕ) (fields : List ToolResultField)
      → AllKeys p fields
      → AllKeys p (limit_fields max_fields fields)
  unfolding prioritize_renderable_fields
  AllKeys-limit_fields none fields h = h
  AllKeys-limit_fields (some n) fields h =
      AllKeys-take n _ (AllKeys-append _ _ (AllKeys-select _ fields h) (AllKeys-select _ fields h))

  AllKeys-AreFitted :
      (limit : ℕ) (fields after : List ToolResultField)
      → AreFitted limit fields after
      → AllKeys p fields
      → AllKeys p after
  AllKeys-AreFitted limit _ _ no_fields h = tt
  AllKeys-AreFitted limit _ _ (next_field fitted rest) (h, hs) =
      (rw fitted.same_key h, AllKeys-AreFitted limit _ _ rest hs)

-- A list within a bound that may be missing.
abbrev pub AtMost : ℕ → Option ℕ → Type 0
AtMost n none = Unit
AtMost n (some bound) = n ≤ bound

pub length-take_le {ℓ} : {A : Type ℓ} (n : ℕ) (xs : List A) → length (take n xs) ≤ n
length-take_le zero xs = omega arith
length-take_le (suc n) [] = omega arith
length-take_le (suc n) (x ∷ xs) = omega (arith, length-take_le n xs)

limit_fields-AtMost :
    (max_fields : Option ℕ) (fields : List ToolResultField)
    → AtMost (length (limit_fields max_fields fields)) max_fields
limit_fields-AtMost none fields = tt
limit_fields-AtMost (some n) fields = length-take_le n (prioritize_renderable_fields fields)

length-AreFitted :
    (limit : ℕ) (fields after : List ToolResultField)
    → AreFitted limit fields after
    → length after ≡ length fields
length-AreFitted limit _ _ no_fields = refl
length-AreFitted limit _ _ (next_field fitted rest) = omega (arith, length-AreFitted limit _ _ rest)

-- Fields that pass the test of their keys, and not too many.
abbrev ArePassed : ToolOutputRenderPolicy → List ToolResultField → Type 0
ArePassed render_policy fields =
    AllKeys (λ key. should_render_field key render_policy.render_options) fields
    × AtMost (length fields) render_policy.max_fields

-- Every field may be shown.
abbrev pub AllShown : RenderOptions → List ToolResultField → Type 0
AllShown options [] = Unit
AllShown options (field ∷ fields) = IsShown options field.key × AllShown options fields

AllKeys-AllShown :
    (options : RenderOptions) (fields : List ToolResultField)
    → AllKeys (λ key. should_render_field key options) fields
    → AllShown options fields
AllKeys-AllShown options [] h = tt
AllKeys-AllShown options (field ∷ fields) (h, hs) =
    (should_render_field-IsShown field.key options h, AllKeys-AllShown options fields hs)

-- Fields that may be shown, and not too many.
abbrev pub AreVisible : ToolOutputRenderPolicy → List ToolResultField → Type 0
AreVisible render_policy fields =
    AllShown render_policy.render_options fields × AtMost (length fields) render_policy.max_fields

module _ (notation : Notation) (result : ToolResult) (render_policy : ToolOutputRenderPolicy) where
  compacted-ArePassed : ArePassed render_policy (compacted result render_policy).fields
  compacted-ArePassed = (
    AllKeys-limit_fields _ render_policy.max_fields _ (AllKeys-selected _ result.fields),
    limit_fields-AtMost render_policy.max_fields _,
  )

  budget-ArePassed :
      (max_inline_bytes : Option ℕ) (before after : ToolResult) (reason : Option String)
      → with_byte_budget notation max_inline_bytes render_policy before ≡ ok (after, reason)
      → ArePassed render_policy before.fields
      → ArePassed render_policy after.fields
  budget-ArePassed none before after reason h (keys, few) =
      let same : before ≡ after = cc h in rw (← same) (keys, few)
  budget-ArePassed (some max_inline_bytes) before after reason h (keys, few) =
      let (r, e, h1) = >>=-eq-ok _ _ h in
      let same : r.0 ≡ after = cc h1 in
      let fitted =
        (apply_render_byte_budget-IsBudgeted notation before max_inline_bytes
          render_policy.oversize_policy r.0 r.1 e).fitted in
      rw (← same) (
        AllKeys-AreFitted _ _ before.fields r.0.fields fitted keys,
        rw (length-AreFitted _ before.fields r.0.fields fitted) few,
      )

  -- A rendered result shows no field whose key is one of the words of a channel that the options
  -- switch off, or starts or ends with them as that channel's keys do, unless the key belongs to an
  -- earlier one of the channels policy, diagnostics, cost; and it shows no more fields than the
  -- policy allows.
  pub renderable_result-AreVisible :
      (rendered : ToolResult) (reason : Option String)
      → renderable_result notation result render_policy ≡ ok (rendered, reason)
      → AreVisible render_policy rendered.fields
  unfolding renderable_result
  renderable_result-AreVisible rendered reason h =
      let (keys, few) =
        budget-ArePassed render_policy.max_inline_bytes (compacted result render_policy) rendered
          reason h compacted-ArePassed in
      (AllKeys-AllShown render_policy.render_options rendered.fields keys, few)
