-- ===== src/Settings/Audit.antt =====
-- What a change of the settings says, and the bounds that no change leaves,
-- crates/atelia-core/src/settings.rs.
use atelia_secretary.Domain.Time.{LedgerTimestamp}
use atelia_secretary.Settings.Laws.{validate-IsBounded, IsBounded, apply_to-merge}
use atelia_secretary.Domain.Repository.{Actor}
use atelia_secretary.Settings.Service.{
  apply_update, new_settings, update_at, InMemoryToolOutputSettingsService, resolved_overrides,
  ToolOutputSettingsChange, update_settings, resolve_parent_defaults_for, resolve_defaults,
  replace_scope, has_scope, ToolOutputSettings,
}
use atelia_secretary.Settings.Chain.{
  resolve_defaults-own, find-scope, find-replace_scope, find-append, resolve_parent-after, AgreeBut,
}
use atelia_secretary.Base.{
  eq_refl, sym, >>=-eq-ok, >>-eq-ok, ok, ◌∙◌, none, some, some, String, Option, ◌≡◌, refl, arith,
  List, [], ◌∷◌, ◌++◌, find,
}
use atelia_secretary.Settings.{
  default_overrides, merge, validate, apply_to, ToolOutputOverrides, with_overrides,
  ToolOutputDefaults, ToolOutputSettingsScope, settings_scope_eq,
}

-- What an update of one scope's settings returns.
pub record IsUpdateOf (current : ToolOutputSettings) (update : ToolOutputOverrides)
    (inherited : ToolOutputDefaults) (updated : ToolOutputSettings)
    (change : ToolOutputSettingsChange) : Type 0 where
  pub same_scope : updated.scope ≡ current.scope
  change_scope : change.scope ≡ current.scope
  old : change.old_defaults ≡ apply_to (resolved_overrides current inherited) inherited
  new : change.new_defaults ≡ apply_to update change.old_defaults
  valid : validate change.new_defaults ≡ ok tt
  stored :
      resolved_overrides updated inherited ≡ merge (resolved_overrides current inherited) update

pub with_overrides-ok :
    (defaults after : ToolOutputDefaults) (update : ToolOutputOverrides)
    → with_overrides defaults update ≡ ok after
    → (after ≡ apply_to update defaults) × (validate after ≡ ok tt)
unfolding with_overrides
with_overrides-ok defaults after update h =
    let (valid, e) = >>-eq-ok _ _ h in
    let same : apply_to update defaults ≡ after = cc e in (sym same, rw (← same) valid)

pub update_settings-IsUpdateOf :
    (current : ToolOutputSettings) (actor : Actor) (update : ToolOutputOverrides) (reason : String)
    (inherited : ToolOutputDefaults) (at : LedgerTimestamp) (updated : ToolOutputSettings)
    (change : ToolOutputSettingsChange)
    → update_settings current actor update reason inherited at ≡ ok (updated, change)
    → IsUpdateOf current update inherited updated change
unfolding update_settings
update_settings-IsUpdateOf current actor update reason inherited at updated change h =
    let (fields, h1) = >>-eq-ok _ _ h in
    let (reasoned, h2) = >>-eq-ok _ _ h1 in
    let (defaults, checked, h3) = >>=-eq-ok _ _ h2 in
    let (e, valid) = with_overrides-ok _ defaults update checked in
    record {
      same_scope = cc h3;
      change_scope = cc h3;
      old = cc h3;
      new = cc (h3, e);
      valid = cc (h3, valid);
      stored = cc h3;
    }

-- The store of settings after an update that is made at one scope.
module _ (settings after : List ToolOutputSettings) (scope : ToolOutputSettingsScope)
    (current updated : ToolOutputSettings) (update : ToolOutputOverrides)
    (change : ToolOutputSettingsChange) (agree : AgreeBut scope settings after)
    (found : find (has_scope scope) after ≡ some updated)
    (made : IsUpdateOf current update
      (resolve_parent_defaults_for settings scope)
      updated
      change) where
  resolve_defaults-after : resolve_defaults after scope ≡ change.new_defaults
  resolve_defaults-after =
      let own = resolve_defaults-own after scope in
      let parents = resolve_parent-after scope settings after agree in
      let merged =
        apply_to-merge (resolved_overrides current (resolve_parent_defaults_for settings scope))
          update (resolve_parent_defaults_for settings scope) in
      cc (own, parents, found, merged, made.old, made.new, made.stored)

-- A change is audited: it names the scope, it tells the defaults that the scope resolved to before
-- and after, the later ones are in range, it is the only change, and no other scope is touched.
pub record IsAudited (service after : InMemoryToolOutputSettingsService)
    (scope : ToolOutputSettingsScope) (change : ToolOutputSettingsChange) : Type 0 where
  pub change_scope : change.scope ≡ scope
  pub old : change.old_defaults ≡ resolve_defaults service.settings scope
  pub new : change.new_defaults ≡ resolve_defaults after.settings scope
  pub bounded : IsBounded change.new_defaults
  pub recorded : after.changes ≡ service.changes ++ (change ∷ [])
  pub agree : AgreeBut scope service.settings after.settings

apply_to-default : (d : ToolOutputDefaults) → apply_to default_overrides d ≡ d
unfolding apply_to
apply_to-default d = ground arith

module _ (service : InMemoryToolOutputSettingsService) (actor : Actor)
    (scope : ToolOutputSettingsScope) (update : ToolOutputOverrides) (reason : String)
    (at : LedgerTimestamp) where
  abbrev parents : ToolOutputDefaults
  parents = resolve_parent_defaults_for service.settings scope

  -- The parts of an audited change, from an update of the settings that resolve as `before` does.
  audited :
      (settings : List ToolOutputSettings) (current updated : ToolOutputSettings)
      (change : ToolOutputSettingsChange)
      → current.scope ≡ scope
      → apply_to (resolved_overrides current parents) parents
        ≡ resolve_defaults service.settings scope
      → IsUpdateOf current update parents updated change
      → AgreeBut scope service.settings settings
      → find (has_scope scope) settings ≡ some updated
      → IsAudited service
          (record { settings = settings; changes = service.changes ++ (change ∷ []) })
          scope
          change
  audited settings current updated change own resolves made agree found = record {
    change_scope = made.change_scope ∙ own;
    old = made.old ∙ resolves;
    new = sym (
        resolve_defaults-after service.settings settings scope current updated update change agree
          found made);
    bounded = validate-IsBounded change.new_defaults made.valid;
    recorded = refl;
    agree = agree;
  }

  replaced-IsAudited :
      (current updated : ToolOutputSettings) (change : ToolOutputSettingsChange)
      → find (has_scope scope) service.settings ≡ some current
      → update_settings current actor update reason parents at ≡ ok (updated, change)
      → IsAudited service
          (record {
            settings = replace_scope scope updated service.settings;
            changes = service.changes ++ (change ∷ []);
          })
          scope
          change
  replaced-IsAudited current updated change found h =
      let made =
        update_settings-IsUpdateOf current actor update reason parents at updated change h in
      let own = find-scope service.settings scope current found in
      let moved = λ (s : ToolOutputSettingsScope).
        find-replace_scope service.settings scope s current updated found (made.same_scope ∙ own) in
      audited (replace_scope scope updated service.settings) current updated change own
        (cc (resolve_defaults-own service.settings scope, found)) made
        (λ s other. moved s ∙ rw other refl) (moved scope ∙ rw (eq_refl scope) refl)

  added-IsAudited :
      (updated : ToolOutputSettings) (change : ToolOutputSettingsChange)
      → find (has_scope scope) service.settings ≡ none
      → update_settings (new_settings scope at) actor update reason parents at
        ≡ ok (updated, change)
      → IsAudited service
          (record {
            settings = service.settings ++ (updated ∷ []);
            changes = service.changes ++ (change ∷ []);
          })
          scope
          change
  unfolding new_settings resolved_overrides
  added-IsAudited updated change missing h =
      let made =
        update_settings-IsUpdateOf (new_settings scope at) actor update reason parents at updated
          change h in
      let moved = λ (s : ToolOutputSettingsScope).
        find-append service.settings scope s updated missing made.same_scope in
      audited (service.settings ++ (updated ∷ [])) (new_settings scope at) updated change refl
        (cc (resolve_defaults-own service.settings scope, missing, apply_to-default parents)) made
        (λ s other. moved s ∙ rw other refl) (moved scope ∙ rw (eq_refl scope) refl)

  update_at-IsAudited :
      (c : Option ToolOutputSettings) (settings : List ToolOutputSettings)
      (change : ToolOutputSettingsChange)
      → find (has_scope scope) service.settings ≡ c
      → update_at c service actor scope update reason at ≡ ok (settings, change)
      → IsAudited service
          (record { settings = settings; changes = service.changes ++ (change ∷ []) })
          scope
          change
  unfolding update_at
  update_at-IsAudited (some current) settings change found h =
      let (r, p, e) = >>=-eq-ok _ _ h in
      let same : replace_scope scope r.0 service.settings ≡ settings = cc e in
      let told : r.1 ≡ change = cc e in
      rw (← same, ← told) (replaced-IsAudited current r.0 r.1 found p)
  update_at-IsAudited none settings change found h =
      let (r, p, e) = >>=-eq-ok _ _ h in
      let same : service.settings ++ (r.0 ∷ []) ≡ settings = cc e in
      let told : r.1 ≡ change = cc e in rw (← same, ← told) (added-IsAudited r.0 r.1 found p)

  -- A change that the service accepts is audited: it names the scope, it tells the defaults that
  -- the scope resolved to before and after, the later ones are in range, it is the one change that
  -- is recorded, and the settings of every other scope stay as they were.
  pub apply_update-IsAudited :
      (after : InMemoryToolOutputSettingsService) (change : ToolOutputSettingsChange)
      → apply_update service actor scope update reason at ≡ ok (after, change)
      → IsAudited service after scope change
  unfolding apply_update
  apply_update-IsAudited after change h =
      let (r, p, e) = >>=-eq-ok _ _ h in
      let told : r.1 ≡ change = cc e in
      let same : record { settings = r.0; changes = service.changes ++ (r.1 ∷ []) } ≡ after =
        cc e in
      rw (← same, ← told) (update_at-IsAudited _ r.0 r.1 refl p)
