-- ===== src/Settings/Bounds.antt =====
-- Whatever is changed, every scope resolves to budgets in range,
-- crates/atelia-core/src/settings.rs.
use atelia_secretary.Settings.Range.{
  update_settings-IsRanged, AreRanged, IsRanged, resolve_defaults-IsBounded,
}
use atelia_secretary.Settings.Audit.{update_settings-IsUpdateOf}
use atelia_secretary.Domain.Time.{LedgerTimestamp}
use atelia_secretary.Settings.Laws.{IsBounded}
use atelia_secretary.Domain.Repository.{Actor}
use atelia_secretary.Settings.Service.{
  replace_scope, apply_update, update_at, new_service, InMemoryToolOutputSettingsService,
  new_settings, ToolOutputSettingsChange, has_scope, resolve_defaults, ToolOutputSettings,
}
use atelia_secretary.Settings.Chain.{find-append, find-replace_scope, find-scope}
use atelia_secretary.Base.{
  inr, inl, ◌∙◌, err, ◌++◌, if◌then◌else◌, ◌==◌, Bool-cases, string_eq, option_eq, String, Option,
  ◌≡◌, refl, arith, ok, none, some, List, [], ◌∷◌, >>=-eq-ok, find,
}
use atelia_secretary.Settings.{
  workspace_scope, SettingsResult, ToolOutputOverrides, ToolOutputSettingsScope, settings_scope_eq,
}

-- A request to the service.
pub record SettingsUpdate : Type 0 where
  pub actor : Actor
  pub scope : ToolOutputSettingsScope
  pub update : ToolOutputOverrides
  pub reason : String
  pub updated_at : LedgerTimestamp

-- The service after a request; one that is refused changes nothing.
abbrev request :
    InMemoryToolOutputSettingsService → SettingsUpdate → InMemoryToolOutputSettingsService
request service u = elim (apply_update service u.actor u.scope u.update u.reason u.updated_at) [
  | ok r ↦ r.0
  | err e ↦ service
]

unfoldable pub requests :
    InMemoryToolOutputSettingsService → List SettingsUpdate → InMemoryToolOutputSettingsService
requests service [] = service
requests service (u ∷ us) = requests (request service u) us

module _ (settings : List ToolOutputSettings) (h : AreRanged settings)
    (scope : ToolOutputSettingsScope) (updated : ToolOutputSettings) (u : IsRanged updated) where
  -- A list that has the updated settings at one scope, and the old ones elsewhere.
  updated-AreRanged :
      (after : List ToolOutputSettings)
      → ((s : ToolOutputSettingsScope)
          → find (has_scope s) after
            ≡ (if scope == s then some updated else find (has_scope s) settings))
      → AreRanged after
  updated-AreRanged after looks s x found = elim (Bool-cases (scope == s)) [
    | inl own ↦ let e : updated ≡ x = ground (arith, looks s) in rw (← e) u
    | inr other ↦ h s x (ground (arith, looks s))
  ]

new_settings-IsRanged :
    (scope : ToolOutputSettingsScope) (at : LedgerTimestamp) → IsRanged (new_settings scope at)
unfolding new_settings
new_settings-IsRanged scope at = record { migrated = refl; bytes = λ n e. cc; lines = λ n e. cc }

new_settings-scope :
    (scope : ToolOutputSettingsScope) (at : LedgerTimestamp) → (new_settings scope at).scope ≡ scope
unfolding new_settings
new_settings-scope scope at = refl

module _ (service : InMemoryToolOutputSettingsService) (h : AreRanged service.settings)
    (u : SettingsUpdate) where
  update_at-AreRanged :
      (c : Option ToolOutputSettings) (r : List ToolOutputSettings × ToolOutputSettingsChange)
      → find (has_scope u.scope) service.settings ≡ c
      → update_at c service u.actor u.scope u.update u.reason u.updated_at ≡ ok r
      → AreRanged r.0
  unfolding update_at
  update_at-AreRanged (some current) r found e =
      let (x, p, q) = >>=-eq-ok _ _ e in
      let same : replace_scope u.scope x.0 service.settings ≡ r.0 = cc q in
      let made =
        update_settings-IsUpdateOf current u.actor u.update u.reason _ u.updated_at x.0 x.1 p in
      let ranged =
        update_settings-IsRanged current u.actor u.update u.reason _ u.updated_at x
          (h u.scope current found) p in
      rw (← same) (
        updated-AreRanged service.settings h u.scope x.0 ranged _ λ s.
          find-replace_scope service.settings u.scope s current x.0 found
            (made.same_scope ∙ find-scope service.settings u.scope current found))
  update_at-AreRanged none r missing e =
      let (x, p, q) = >>=-eq-ok _ _ e in
      let same : service.settings ++ (x.0 ∷ []) ≡ r.0 = cc q in
      let made =
        update_settings-IsUpdateOf (new_settings u.scope u.updated_at) u.actor u.update u.reason _
          u.updated_at x.0 x.1 p in
      let ranged =
        update_settings-IsRanged (new_settings u.scope u.updated_at) u.actor u.update u.reason _
          u.updated_at x (new_settings-IsRanged u.scope u.updated_at) p in
      rw (← same) (
        updated-AreRanged service.settings h u.scope x.0 ranged _ λ s.
          find-append service.settings u.scope s x.0 missing
            (made.same_scope ∙ new_settings-scope u.scope u.updated_at))

  accepted :
      (x : InMemoryToolOutputSettingsService × ToolOutputSettingsChange)
      → apply_update service u.actor u.scope u.update u.reason u.updated_at ≡ ok x
      → AreRanged x.0.settings
  unfolding apply_update
  accepted x p =
      let (r, q, e) = >>=-eq-ok _ _ p in
      let same : r.0 ≡ x.0.settings = cc e in rw (← same) (update_at-AreRanged _ r refl q)

  request-AreRanged : AreRanged (request service u).settings
  request-AreRanged = go (apply_update service u.actor u.scope u.update u.reason u.updated_at) refl
    where
      go :
          (r : SettingsResult (InMemoryToolOutputSettingsService × ToolOutputSettingsChange))
          → apply_update service u.actor u.scope u.update u.reason u.updated_at ≡ r
          → AreRanged
              (let s : InMemoryToolOutputSettingsService = elim r [
                | ok x ↦ x.0
                | err e ↦ service
              ] in
                s).settings
      go (err e) p = h
      go (ok x) p = accepted x p

new_service-AreRanged : (at : LedgerTimestamp) → AreRanged (new_service at).settings
unfolding new_service new_settings
new_service-AreRanged at s x found =
    updated-AreRanged [] (λ scope y none_found. absurd (cc)) workspace_scope
      (new_settings workspace_scope at) (new_settings-IsRanged workspace_scope at)
      (new_settings workspace_scope at ∷ []) (λ scope. cc) s x found

requests-AreRanged :
    (service : InMemoryToolOutputSettingsService) (us : List SettingsUpdate)
    → AreRanged service.settings
    → AreRanged (requests service us).settings
unfolding requests
requests-AreRanged service [] h = h
requests-AreRanged service (u ∷ us) h =
    requests-AreRanged (request service u) us (request-AreRanged service h u)

-- Whatever sequence of changes is requested of a new service, accepted or refused, every scope
-- resolves to byte and line budgets in the supported range.
pub requests-IsBounded :
    (at : LedgerTimestamp) (us : List SettingsUpdate) (scope : ToolOutputSettingsScope)
    → IsBounded (resolve_defaults (requests (new_service at) us).settings scope)
requests-IsBounded at us scope =
    resolve_defaults-IsBounded (requests (new_service at) us).settings
      (requests-AreRanged (new_service at) us (new_service-AreRanged at)) scope
