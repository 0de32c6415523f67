-- ===== src/Settings/Migration.antt =====
-- How a service takes over stored settings, those of the old form among them,
-- crates/atelia-core/src/settings.rs.
use atelia_secretary.Settings.Service.{
  resolve_parent_defaults_for, InMemoryToolOutputSettingsService, has_scope, resolved_overrides,
  new_settings, ToolOutputSettings, replace_scope,
}
use atelia_secretary.Domain.Time.{LedgerTimestamp}
use atelia_secretary.Base.{
  map, is_none, none, some, List, [], ◌∷◌, ◌++◌, find, any, select, contains, ok, ◌>>◌, reject_if,
  if◌then◌else◌, is_some, string_eq,
}
use atelia_secretary.Settings.{
  duplicate_scope, workspace_scope, SettingsResult, ToolOutputDefaults, ToolOutputSettingsScope,
  settings_scope_eq,
}

unfoldable pub apply_legacy_migration : ToolOutputSettings → ToolOutputDefaults → ToolOutputSettings
unfolding resolved_overrides
apply_legacy_migration settings inherited = record settings {
  overrides = resolved_overrides settings inherited;
  legacy_defaults = none;
}

-- The first scope that stands twice.
unfoldable pub reject_duplicates :
    List ToolOutputSettingsScope → List ToolOutputSettings → SettingsResult (Unit {0})
reject_duplicates scopes [] = ok tt
reject_duplicates scopes (setting ∷ settings) = do
  reject_if (contains scopes setting.scope) (duplicate_scope setting.scope)
  reject_duplicates (scopes ++ (setting.scope ∷ [])) settings

-- The loop of `migrate_legacy_settings` over the scopes, those without a tool first: the stable
-- sort by `scope_migration_depth`.
unfoldable pub migrate_scopes :
    List ToolOutputSettingsScope → List ToolOutputSettings → List ToolOutputSettings
unfolding replace_scope
migrate_scopes [] settings = settings
migrate_scopes (scope ∷ scopes) settings =
    migrate_scopes scopes (elim (find (has_scope scope) settings) [
      | none ↦ settings
      | some setting ↦
          replace_scope scope
            (apply_legacy_migration setting (resolve_parent_defaults_for settings scope)) settings
    ])

abbrev pub scopes_of : List ToolOutputSettings → List ToolOutputSettingsScope
scopes_of settings = map (λ (setting : ToolOutputSettings). setting.scope) settings

unfoldable pub migrate_legacy_settings : List ToolOutputSettings → List ToolOutputSettings
unfolding migrate_scopes
migrate_legacy_settings settings =
    let scopes = scopes_of settings in
    migrate_scopes
      (select (λ scope. is_none scope.tool_id) scopes
        ++ select (λ scope. is_some scope.tool_id) scopes)
      settings

unfoldable pub new_with_settings :
    LedgerTimestamp → List ToolOutputSettings → SettingsResult InMemoryToolOutputSettingsService
unfolding reject_duplicates migrate_legacy_settings new_settings
new_with_settings created_at settings = do
  reject_duplicates [] settings
  let complete =
      if any (has_scope workspace_scope) settings
      then settings
      else settings ++ (new_settings workspace_scope created_at ∷ [])
  ok (record { settings = migrate_legacy_settings complete; changes = [] })
