-- ===== src/Output/Channels.antt =====
-- The channels of optional fields, described by the words that name them,
-- crates/atelia-core/src/tool_output.rs.
use atelia_secretary.Base.{
  ℕ, String, Bool, true, false, ◌||◌, List, [], ◌∷◌, ◌++◌, ◌≡◌, ◌⊎◌, inl, inr, refl, arith, codes,
  is_word, starts_with, ends_with, is_word-codes, starts_with-codes, Bool-cases,
}
use atelia_secretary.Output.{RenderOptions}
use atelia_secretary.Output.Render.{normalized_key, optional_field_channel, should_render_field}

abbrev StartsWith : List ℕ → String → Type 0
StartsWith key s = (rest : List ℕ) × key ≡ codes s ++ rest

abbrev EndsWith : List ℕ → String → Type 0
EndsWith key s = (front : List ℕ) × key ≡ front ++ codes s

-- The keys of each channel.
abbrev pub IsPolicyKey : List ℕ → Type 0
IsPolicyKey key =
    (key ≡ codes "policy")
    ⊎ (StartsWith key "policy_" ⊎ ((key ≡ codes "needs_approval") ⊎ (key ≡ codes "blocked_reason")))

abbrev pub IsDiagnosticsKey : List ℕ → Type 0
IsDiagnosticsKey key =
    (key ≡ codes "diagnostic")
    ⊎ ((key ≡ codes "diagnostics")
        ⊎ (StartsWith key "diagnostic_"
            ⊎ (StartsWith key "diagnostics_"
                ⊎ ((key ≡ codes "retry_hint") ⊎ (key ≡ codes "parser_failure")))))

abbrev pub IsCostKey : List ℕ → Type 0
IsCostKey key =
    (key ≡ codes "cost")
    ⊎ (StartsWith key "cost_"
        ⊎ (EndsWith key "_tokens" ⊎ ((key ≡ codes "duration_ms") ⊎ (key ≡ codes "elapsed_ms"))))

-- A key may be shown: the first channel that it belongs to, if any, is switched on.
pub record IsShown (options : RenderOptions) (key : String) : Type 0 where
  pub policy_off : options.include_policy ≡ false → ¬ IsPolicyKey (normalized_key key)
  pub diagnostics_off :
      options.include_diagnostics ≡ false
      → IsDiagnosticsKey (normalized_key key)
      → IsPolicyKey (normalized_key key)
  pub cost_off :
      options.include_cost ≡ false
      → IsCostKey (normalized_key key)
      → IsPolicyKey (normalized_key key) ⊎ IsDiagnosticsKey (normalized_key key)

abbrev policy_test : List ℕ → Bool
policy_test k =
    is_word k "policy"
    || starts_with k "policy_"
    || is_word k "needs_approval"
    || is_word k "blocked_reason"

abbrev diagnostics_test : List ℕ → Bool
diagnostics_test k =
    is_word k "diagnostic"
    || is_word k "diagnostics"
    || starts_with k "diagnostic_"
    || starts_with k "diagnostics_"
    || is_word k "retry_hint"
    || is_word k "parser_failure"

abbrev cost_test : List ℕ → Bool
cost_test k =
    is_word k "cost"
    || starts_with k "cost_"
    || ends_with k "_tokens"
    || is_word k "duration_ms"
    || is_word k "elapsed_ms"

IsPolicyKey-test : (k : List ℕ) → IsPolicyKey k → policy_test k ≡ true
unfolding is_word starts_with
IsPolicyKey-test k (inl e) = rw e refl
IsPolicyKey-test k (inr (inl (rest, e))) = rw e refl
IsPolicyKey-test k (inr (inr (inl e))) = rw e refl
IsPolicyKey-test k (inr (inr (inr e))) = rw e refl

IsDiagnosticsKey-test : (k : List ℕ) → IsDiagnosticsKey k → diagnostics_test k ≡ true
unfolding is_word starts_with
IsDiagnosticsKey-test k (inl e) = rw e refl
IsDiagnosticsKey-test k (inr (inl e)) = rw e refl
IsDiagnosticsKey-test k (inr (inr (inl (rest, e)))) = rw e refl
IsDiagnosticsKey-test k (inr (inr (inr (inl (rest, e))))) = rw e refl
IsDiagnosticsKey-test k (inr (inr (inr (inr (inl e))))) = rw e refl
IsDiagnosticsKey-test k (inr (inr (inr (inr (inr e))))) = rw e refl

ends_with-append : (front : List ℕ) → ends_with (front ++ codes "_tokens") "_tokens" ≡ true
unfolding ends_with is_word
ends_with-append [] = refl
ends_with-append (c ∷ front) = ground (arith, ends_with-append front)

IsCostKey-test : (k : List ℕ) → IsCostKey k → cost_test k ≡ true
unfolding is_word starts_with ends_with
IsCostKey-test k (inl e) = rw e refl
IsCostKey-test k (inr (inl (rest, e))) = rw e refl
IsCostKey-test k (inr (inr (inl (front, e)))) = rw e (ground (arith, ends_with-append front))
IsCostKey-test k (inr (inr (inr (inl e)))) = rw e refl
IsCostKey-test k (inr (inr (inr (inr e)))) = rw e refl

policy_test-IsPolicyKey : (k : List ℕ) → policy_test k ≡ true → IsPolicyKey k
policy_test-IsPolicyKey k h = ground (
  arith,
  is_word-codes k "policy",
  starts_with-codes k "policy_",
  is_word-codes k "needs_approval",
  is_word-codes k "blocked_reason",
)

diagnostics_test-IsDiagnosticsKey : (k : List ℕ) → diagnostics_test k ≡ true → IsDiagnosticsKey k
diagnostics_test-IsDiagnosticsKey k h = ground (
  arith,
  is_word-codes k "diagnostic",
  is_word-codes k "diagnostics",
  starts_with-codes k "diagnostic_",
  starts_with-codes k "diagnostics_",
  is_word-codes k "retry_hint",
  is_word-codes k "parser_failure",
)

-- A field that is rendered may be shown.
pub should_render_field-IsShown :
    (key : String) (options : RenderOptions)
    → should_render_field key options ≡ true
    → IsShown options key
unfolding should_render_field optional_field_channel
should_render_field-IsShown key options h =
    let k = normalized_key key in
    record {
      policy_off = λ off named. ground (arith, h, off, IsPolicyKey-test k named);
      diagnostics_off = λ off named. elim (Bool-cases (policy_test k)) [
        | inl passed ↦ policy_test-IsPolicyKey k passed
        | inr unnamed ↦ absurd (ground (arith, h, off, unnamed, IsDiagnosticsKey-test k named))
      ];
      cost_off = λ off named. elim (Bool-cases (policy_test k)) [
        | inl passed ↦ inl (policy_test-IsPolicyKey k passed)
        | inr unnamed ↦ elim (Bool-cases (diagnostics_test k)) [
          | inl passed ↦ inr (diagnostics_test-IsDiagnosticsKey k passed)
          | inr failed ↦ absurd (ground (arith, h, off, unnamed, failed, IsCostKey-test k named))
        ]
      ];
    }
