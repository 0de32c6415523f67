-- ===== src/Settings/Tests.antt =====
-- The theorems on settings at concrete inputs.
use atelia_secretary.Settings.Laws.{apply_to-merge, apply_to-from_defaults_with_parent, IsBounded}
use atelia_secretary.Settings.{
  ToolOutputSettingsLevel-discrete, ToolOutputSettingsScope-discrete, is_empty,
  validate_inline_lines, validate_inline_bytes, validate, with_overrides, workspace_scope,
  default_defaults, debug, from_defaults_with_parent, merge, repository, settings_schema_version,
  for_tool, default_overrides, ToolOutputOverrides, apply_to, ToolOutputSettingsScope,
}
use atelia_secretary.Domain.Repository.{user, Actor}
use atelia_secretary.Settings.Audit.{apply_update-IsAudited, IsAudited}
use atelia_secretary.Settings.Bounds.{requests-IsBounded, requests, SettingsUpdate}
use atelia_secretary.Settings.Service.{
  replace_scope, resolved_overrides, before, resolve_parent_defaults_for, resolution_chain,
  resolve_chain, update_settings, update_at, resolve_defaults, new_service, new_settings,
  InMemoryToolOutputSettingsService, apply_update, ToolOutputSettingsChange,
}
use atelia_secretary.Base.{
  string_discrete, is_whitespace, trim_end, trim_start, trim, is_blank, ◌>>◌, ◌>>=◌, ok, ◌≡◌, refl,
  none, some, ◌∷◌, [],
}

abbrev alice : Actor
alice = user "alice" none

abbrev repository_one : ToolOutputSettingsScope
repository_one = record { level = repository "repo_1"; tool_id = none }

abbrev search_scope : ToolOutputSettingsScope
search_scope = for_tool repository_one "search"

abbrev more_bytes : ToolOutputOverrides
more_bytes = record default_overrides { max_inline_bytes = some 4096; verbosity = some debug }

abbrev less_bytes : ToolOutputOverrides
less_bytes = record default_overrides { max_inline_bytes = some 300 }

abbrev no_bytes : ToolOutputOverrides
no_bytes = record default_overrides { max_inline_bytes = some 10 }

abbrev first_change : SettingsUpdate
first_change = record {
  actor = alice;
  scope = repository_one;
  update = more_bytes;
  reason = "long logs";
  updated_at = 20;
}

abbrev refused_change : SettingsUpdate
refused_change = record first_change { update = no_bytes }

abbrev second_change : SettingsUpdate
second_change = record first_change { scope = search_scope; update = less_bytes }

-- A tool inherits what its repository changed, and a refused change leaves the budget alone.
inherited :
    (resolve_defaults
      (requests (new_service 10) (first_change ∷ refused_change ∷ [])).settings
      search_scope).max_inline_bytes
    ≡ 4096
unfolding ◌>>=◌ ◌>>◌ requests apply_update update_at update_settings resolve_defaults resolve_chain
    resolution_chain resolve_parent_defaults_for before resolved_overrides apply_to merge
    with_overrides validate validate_inline_bytes validate_inline_lines is_empty replace_scope
    new_service new_settings is_blank trim trim_start trim_end is_whitespace
    ToolOutputSettingsScope-discrete ToolOutputSettingsLevel-discrete string_discrete
inherited = refl

apply_to-merge_example :
    apply_to (merge more_bytes less_bytes) default_defaults
    ≡ apply_to less_bytes (apply_to more_bytes default_defaults)
apply_to-merge_example = apply_to-merge more_bytes less_bytes default_defaults

apply_to-from_defaults_with_parent_example :
    apply_to
      (from_defaults_with_parent
        (record default_defaults { max_inline_bytes = 4096 })
        default_defaults)
      default_defaults
    ≡ record default_defaults { max_inline_bytes = 4096 }
apply_to-from_defaults_with_parent_example =
    apply_to-from_defaults_with_parent (record default_defaults { max_inline_bytes = 4096 })
      default_defaults

abbrev start : InMemoryToolOutputSettingsService
start = new_service 10

abbrev first_told : ToolOutputSettingsChange
first_told = record {
  schema_version = settings_schema_version;
  actor = alice;
  scope = repository_one;
  old_defaults = default_defaults;
  new_defaults = apply_to more_bytes default_defaults;
  reason = "long logs";
  changed_at = 20;
}

abbrev changed : InMemoryToolOutputSettingsService × ToolOutputSettingsChange
changed = (
  record {
    settings =
        new_settings workspace_scope 10
        ∷ record (new_settings repository_one 20) {
          overrides = more_bytes;
          updated_by = some alice;
        }
        ∷ [];
    changes = first_told ∷ [];
  },
  first_told,
)

change_accepted : apply_update start alice repository_one more_bytes "long logs" 20 ≡ ok changed
unfolding ◌>>=◌ ◌>>◌ requests apply_update update_at update_settings resolve_defaults resolve_chain
    resolution_chain resolve_parent_defaults_for before resolved_overrides apply_to merge
    with_overrides validate validate_inline_bytes validate_inline_lines is_empty replace_scope
    new_service new_settings is_blank trim trim_start trim_end is_whitespace
    ToolOutputSettingsScope-discrete ToolOutputSettingsLevel-discrete string_discrete
change_accepted = refl

apply_update-IsAudited_example : IsAudited start changed.0 repository_one changed.1
apply_update-IsAudited_example =
    apply_update-IsAudited start alice repository_one more_bytes "long logs" 20 changed.0 changed.1
      change_accepted

requests-IsBounded_example : IsBounded (
    resolve_defaults
      (requests (new_service 10) (first_change ∷ refused_change ∷ second_change ∷ [])).settings
      search_scope)
requests-IsBounded_example =
    requests-IsBounded 10 (first_change ∷ refused_change ∷ second_change ∷ []) search_scope
