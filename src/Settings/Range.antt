-- ===== src/Settings/Range.antt =====
-- Settings whose overrides are in range, crates/atelia-core/src/settings.rs.
use atelia_secretary.Settings.Audit.{with_overrides-ok}
use atelia_secretary.Domain.Time.{LedgerTimestamp}
use atelia_secretary.Settings.Laws.{validate-IsBounded, IsBounded}
use atelia_secretary.Domain.Repository.{Actor}
use atelia_secretary.Settings.Service.{
  ToolOutputSettingsChange, apply_candidate, resolution_chain, has_scope, resolved_overrides,
  resolve_chain, resolve_defaults, update_settings, ToolOutputSettings,
}
use atelia_secretary.Base.{
  string_eq, option_eq, or_else, unwrap_or, String, Option, ℕ, ◌≡◌, ◌≤◌, refl, arith, ok, none,
  some, List, [], ◌∷◌, >>-eq-ok, >>=-eq-ok, find,
}
use atelia_secretary.Settings.{
  max_max_inline_lines, default_defaults, min_max_inline_lines, max_max_inline_bytes,
  ToolOutputOverrides, ToolOutputDefaults, min_max_inline_bytes, ToolOutputSettingsScope, merge,
  apply_to, settings_scope_eq,
}

-- An override is in range if it is there.
abbrev pub InRange : ℕ → ℕ → Option ℕ → Type 0
InRange least greatest o = (n : ℕ) → o ≡ some n → (least ≤ n) × (n ≤ greatest)

module _ (least greatest : ℕ) where
  unwrap_or-range :
      (o : Option ℕ) (d : ℕ)
      → InRange least greatest o
      → least ≤ d
      → d ≤ greatest
      → (least ≤ unwrap_or o d) × (unwrap_or o d ≤ greatest)
  unwrap_or-range none d r p q = (p, q)
  unwrap_or-range (some n) d r p q = r n refl

  or_else-InRange :
      (a b : Option ℕ)
      → InRange least greatest a
      → InRange least greatest b
      → InRange least greatest (or_else a b)
  or_else-InRange none b p q = q
  or_else-InRange (some n) b p q = p

  -- What is put over a default shows up in the result.
  unwrap_or-InRange :
      (o : Option ℕ) (d : ℕ)
      → least ≤ unwrap_or o d
      → unwrap_or o d ≤ greatest
      → InRange least greatest o
  unwrap_or-InRange none d p q n e = cc
  unwrap_or-InRange (some m) d p q n e = ground arith

-- Overrides that were checked when they were set; nothing is left of the old form.
pub record IsRanged (s : ToolOutputSettings) : Type 0 where
  pub migrated : s.legacy_defaults ≡ none
  pub bytes : InRange min_max_inline_bytes max_max_inline_bytes s.overrides.max_inline_bytes
  pub lines : InRange min_max_inline_lines max_max_inline_lines s.overrides.max_inline_lines

abbrev pub AreRanged : List ToolOutputSettings → Type 0
AreRanged settings =
    (scope : ToolOutputSettingsScope) (s : ToolOutputSettings)
    → find (has_scope scope) settings ≡ some s
    → IsRanged s

apply_to-IsBounded :
    (s : ToolOutputSettings) (d : ToolOutputDefaults)
    → IsRanged s
    → IsBounded d
    → IsBounded (apply_to (resolved_overrides s d) d)
unfolding apply_to resolved_overrides
apply_to-IsBounded s d r b =
    let (p, q) =
      unwrap_or-range min_max_inline_bytes max_max_inline_bytes s.overrides.max_inline_bytes
        d.max_inline_bytes r.bytes b.least_bytes b.greatest_bytes in
    let (p', q') =
      unwrap_or-range min_max_inline_lines max_max_inline_lines s.overrides.max_inline_lines
        d.max_inline_lines r.lines b.least_lines b.greatest_lines in
    rw r.migrated
      (record { least_bytes = p; greatest_bytes = q; least_lines = p'; greatest_lines = q' })

module _ (settings : List ToolOutputSettings) (h : AreRanged settings) where
  candidate-IsBounded :
      (scope : ToolOutputSettingsScope) (c : Option ToolOutputSettings) (d : ToolOutputDefaults)
      → find (has_scope scope) settings ≡ c
      → IsBounded d
      → IsBounded (apply_candidate c d)
  candidate-IsBounded scope none d e b = b
  candidate-IsBounded scope (some s) d e b = apply_to-IsBounded s d (h scope s e) b

  resolve_chain-IsBounded :
      (chain : List ToolOutputSettingsScope) (d : ToolOutputDefaults)
      → IsBounded d
      → IsBounded (resolve_chain settings chain d)
  unfolding resolve_chain
  resolve_chain-IsBounded [] d b = b
  resolve_chain-IsBounded (scope ∷ chain) d b =
      resolve_chain-IsBounded chain (apply_candidate (find (has_scope scope) settings) d)
        (candidate-IsBounded scope (find (has_scope scope) settings) d refl b)

  pub resolve_defaults-IsBounded :
      (scope : ToolOutputSettingsScope) → IsBounded (resolve_defaults settings scope)
  unfolding resolve_defaults
  resolve_defaults-IsBounded scope =
      resolve_chain-IsBounded (resolution_chain scope) default_defaults (omega arith)

-- The fields of an accepted update are in range.
pub update_settings-IsRanged :
    (current : ToolOutputSettings) (actor : Actor) (update : ToolOutputOverrides) (reason : String)
    (inherited : ToolOutputDefaults) (at : LedgerTimestamp)
    (r : ToolOutputSettings × ToolOutputSettingsChange)
    → IsRanged current
    → update_settings current actor update reason inherited at ≡ ok r
    → IsRanged r.0
unfolding update_settings apply_to merge resolved_overrides
update_settings-IsRanged current actor update reason inherited at r c h =
    let (fields, h1) = >>-eq-ok _ _ h in
    let (reasoned, h2) = >>-eq-ok _ _ h1 in
    let (defaults, checked, h3) = >>=-eq-ok _ _ h2 in
    let (e, valid) = with_overrides-ok _ defaults update checked in
    let b = validate-IsBounded _ (rw e at valid) in
    let written : merge (resolved_overrides current inherited) update ≡ r.0.overrides = cc h3 in
    let kept : resolved_overrides current inherited ≡ current.overrides = rw c.migrated refl in
    record {
      migrated = cc h3;
      bytes =
          rw (← written, kept)
            (or_else-InRange min_max_inline_bytes max_max_inline_bytes update.max_inline_bytes
              current.overrides.max_inline_bytes
              (unwrap_or-InRange min_max_inline_bytes max_max_inline_bytes update.max_inline_bytes _
                b.least_bytes b.greatest_bytes)
              c.bytes);
      lines =
          rw (← written, kept)
            (or_else-InRange min_max_inline_lines max_max_inline_lines update.max_inline_lines
              current.overrides.max_inline_lines
              (unwrap_or-InRange min_max_inline_lines max_max_inline_lines update.max_inline_lines _
                b.least_lines b.greatest_lines)
              c.lines);
    }
