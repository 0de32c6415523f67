-- ===== src/Settings/Service.antt =====
-- The settings service, crates/atelia-core/src/settings.rs. A method with `&mut self` returns the
-- service after it; one that fails returns no service, and its caller keeps the old one.
use atelia_secretary.Domain.Repository.{Actor}
use atelia_secretary.Domain.Time.{LedgerTimestamp}
use atelia_secretary.Base.{
  String, ℕ, Bool, Option, none, some, List, [], ◌∷◌, ◌++◌, find, contains, ◌==◌, ok, ◌>>=◌, ◌>>◌,
  reject_if, if◌then◌else◌, is_blank, trim, string_eq,
}
use atelia_secretary.Settings.{
  merge, missing_reason, empty_update, is_empty, default_overrides, from_defaults_with_parent,
  with_overrides, from_defaults, settings_schema_version, apply_to, workspace_scope, for_tool,
  default_defaults, SettingsResult, ToolOutputOverrides, ToolOutputDefaults,
  ToolOutputSettingsScope, settings_scope_eq,
}

pub record ToolOutputSettings : Type 0 where
  pub schema_version : ℕ
  pub scope : ToolOutputSettingsScope
  pub overrides : ToolOutputOverrides
  pub updated_at : LedgerTimestamp
  pub updated_by : Option Actor
  pub legacy_defaults : Option ToolOutputDefaults

pub record ToolOutputSettingsChange : Type 0 where
  pub schema_version : ℕ
  pub actor : Actor
  pub scope : ToolOutputSettingsScope
  pub old_defaults : ToolOutputDefaults
  pub new_defaults : ToolOutputDefaults
  pub reason : String
  pub changed_at : LedgerTimestamp

-- `ToolOutputSettings::new`
unfoldable pub new_settings : ToolOutputSettingsScope → LedgerTimestamp → ToolOutputSettings
new_settings scope created_at = record {
  schema_version = settings_schema_version;
  scope = scope;
  overrides = default_overrides;
  updated_at = created_at;
  updated_by = none;
  legacy_defaults = none;
}

abbrev pub overrides_or_legacy :
    Option ToolOutputDefaults → ToolOutputOverrides → ToolOutputDefaults → ToolOutputOverrides
overrides_or_legacy none overrides inherited = overrides
overrides_or_legacy (some defaults) overrides inherited =
    from_defaults_with_parent defaults inherited

unfoldable pub resolved_overrides : ToolOutputSettings → ToolOutputDefaults → ToolOutputOverrides
resolved_overrides settings inherited =
    overrides_or_legacy settings.legacy_defaults settings.overrides inherited

-- `ToolOutputSettings::apply_update`: the settings afterwards, and the change for the audit.
unfoldable pub update_settings :
    ToolOutputSettings
    → Actor
    → ToolOutputOverrides
    → String
    → ToolOutputDefaults
    → LedgerTimestamp
    → SettingsResult (ToolOutputSettings × ToolOutputSettingsChange)
unfolding resolved_overrides
update_settings settings actor update reason inherited updated_at = do
  reject_if (is_empty update) empty_update
  reject_if (is_blank (trim reason)) missing_reason
  let resolved = resolved_overrides settings inherited
  let old_defaults = apply_to resolved inherited
  new_defaults ← with_overrides old_defaults update
  ok (
    record settings {
      overrides = merge resolved update;
      legacy_defaults = none;
      updated_by = some actor;
      updated_at = updated_at;
    },
    record {
      schema_version = settings_schema_version;
      actor = actor;
      scope = settings.scope;
      old_defaults = old_defaults;
      new_defaults = new_defaults;
      reason = reason;
      changed_at = updated_at;
    },
  )

pub record InMemoryToolOutputSettingsService : Type 0 where
  pub settings : List ToolOutputSettings
  pub changes : List ToolOutputSettingsChange

-- `InMemoryToolOutputSettingsService::new`
unfoldable pub new_service : LedgerTimestamp → InMemoryToolOutputSettingsService
unfolding new_settings
new_service created_at = record {
  settings = new_settings workspace_scope created_at ∷ [];
  changes = [];
}

unfoldable pub new_with_defaults :
    LedgerTimestamp → ToolOutputDefaults → InMemoryToolOutputSettingsService
unfolding new_settings
new_with_defaults created_at base_defaults = record {
  settings =
      record (new_settings workspace_scope created_at) { overrides = from_defaults base_defaults }
      ∷ [];
  changes = [];
}

abbrev pub push_unique :
    List ToolOutputSettingsScope → ToolOutputSettingsScope → List ToolOutputSettingsScope
push_unique chain scope = if contains chain scope then chain else chain ++ (scope ∷ [])

-- The two pushes that a scope of a tool adds.
abbrev pub push_tool_scopes :
    Option String
    → ToolOutputSettingsScope
    → List ToolOutputSettingsScope
    → List ToolOutputSettingsScope
push_tool_scopes none scope chain = chain
push_tool_scopes (some tool_id) scope chain =
    push_unique (push_unique chain (for_tool workspace_scope tool_id)) scope

unfoldable pub resolution_chain : ToolOutputSettingsScope → List ToolOutputSettingsScope
resolution_chain scope =
    push_tool_scopes scope.tool_id scope
      (push_unique (workspace_scope ∷ []) (record scope { tool_id = none }))

abbrev pub has_scope : ToolOutputSettingsScope → ToolOutputSettings → Bool
has_scope scope setting = setting.scope == scope

abbrev pub apply_candidate : Option ToolOutputSettings → ToolOutputDefaults → ToolOutputDefaults
apply_candidate none defaults = defaults
apply_candidate (some candidate) defaults =
    apply_to (resolved_overrides candidate defaults) defaults

-- The loop of `resolve_defaults`.
unfoldable pub resolve_chain :
    List ToolOutputSettings → List ToolOutputSettingsScope → ToolOutputDefaults → ToolOutputDefaults
resolve_chain settings [] defaults = defaults
resolve_chain settings (scope ∷ chain) defaults =
    resolve_chain settings chain (apply_candidate (find (has_scope scope) settings) defaults)

unfoldable pub resolve_defaults :
    List ToolOutputSettings → ToolOutputSettingsScope → ToolOutputDefaults
resolve_defaults settings scope = resolve_chain settings (resolution_chain scope) default_defaults

-- The chain up to the scope itself, where `resolve_parent_defaults_for` breaks off.
unfoldable pub before :
    ToolOutputSettingsScope → List ToolOutputSettingsScope → List ToolOutputSettingsScope
before scope [] = []
before scope (candidate ∷ chain) =
    let rest = before scope chain in if candidate == scope then [] else candidate ∷ rest

unfoldable pub resolve_parent_defaults_for :
    List ToolOutputSettings → ToolOutputSettingsScope → ToolOutputDefaults
unfolding before
resolve_parent_defaults_for settings scope =
    resolve_chain settings (before scope (resolution_chain scope)) default_defaults

-- The write to `self.settings[idx]`, where `idx` is the position of the scope.
unfoldable pub replace_scope :
    ToolOutputSettingsScope → ToolOutputSettings → List ToolOutputSettings → List ToolOutputSettings
replace_scope scope updated [] = []
replace_scope scope updated (setting ∷ settings) =
    let rest = replace_scope scope updated settings in
    if has_scope scope setting then updated ∷ settings else setting ∷ rest

unfoldable pub update_at :
    Option ToolOutputSettings
    → InMemoryToolOutputSettingsService
    → Actor
    → ToolOutputSettingsScope
    → ToolOutputOverrides
    → String
    → LedgerTimestamp
    → SettingsResult (List ToolOutputSettings × ToolOutputSettingsChange)
unfolding replace_scope
update_at (some current) service actor scope update reason updated_at = do
  r ←
      update_settings current actor update reason
        (resolve_parent_defaults_for service.settings scope) updated_at
  ok (replace_scope scope r.0 service.settings, r.1)
update_at none service actor scope update reason updated_at = do
  r ←
      update_settings (new_settings scope updated_at) actor update reason
        (resolve_parent_defaults_for service.settings scope) updated_at
  ok (service.settings ++ (r.0 ∷ []), r.1)

-- `InMemoryToolOutputSettingsService::apply_update`
unfoldable pub apply_update :
    InMemoryToolOutputSettingsService
    → Actor
    → ToolOutputSettingsScope
    → ToolOutputOverrides
    → String
    → LedgerTimestamp
    → SettingsResult (InMemoryToolOutputSettingsService × ToolOutputSettingsChange)
unfolding update_at
apply_update service actor scope update reason updated_at = do
  r ←
      update_at (find (has_scope scope) service.settings) service actor scope update reason
        updated_at
  ok (record { settings = r.0; changes = service.changes ++ (r.1 ∷ []) }, r.1)

unfoldable pub resolve_defaults_with_overrides :
    List ToolOutputSettings
    → ToolOutputSettingsScope
    → ToolOutputOverrides
    → SettingsResult ToolOutputDefaults
resolve_defaults_with_overrides settings scope overrides =
    with_overrides (resolve_defaults settings scope) overrides
