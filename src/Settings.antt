-- ===== src/Settings.antt =====
-- Defaults of tool output and the overrides of one scope, crates/atelia-core/src/settings.rs.
pub mod Laws
pub mod Service
pub mod Migration
pub mod Chain
pub mod Audit
pub mod Range
pub mod Bounds
pub mod Tests
use mathlib.Core.Bool.{Bool-discrete}
use atelia_secretary.Output.{format_eq, oversize_eq}
use atelia_secretary.Base.{
  option_eq, string_eq, unwrap_or, string_discrete, String, ℕ, Bool, true, false, ◌&&◌, Option,
  none, some, or_else, is_none, Eq, ◌!=◌, Result, ok, err, ◌>>=◌, ◌>>◌, reject_if, if◌then◌else◌,
  leb, min, is_blank, trim, nat_eq,
}
use atelia_secretary.Output.{
  ToolOutputRenderPolicy, truncate_with_metadata, default_options, OversizeOutputPolicy,
  RenderOptions, OutputFormat,
}

abbrev pub settings_schema_version : ℕ
settings_schema_version = 1

abbrev pub default_max_inline_bytes : ℕ
default_max_inline_bytes = 16384

abbrev pub min_max_inline_bytes : ℕ
min_max_inline_bytes = 256

abbrev pub max_max_inline_bytes : ℕ
max_max_inline_bytes = 1048576

abbrev pub default_max_inline_lines : ℕ
default_max_inline_lines = 200

abbrev pub min_max_inline_lines : ℕ
min_max_inline_lines = 1

abbrev pub max_max_inline_lines : ℕ
max_max_inline_lines = 10000

pub data ToolOutputSettingsLevel : Type 0 where
  workspace : ToolOutputSettingsLevel
  repository project session agent_profile : String → ToolOutputSettingsLevel

unfoldable pub ToolOutputSettingsLevel-discrete : Discrete ToolOutputSettingsLevel
ToolOutputSettingsLevel-discrete = hlevel string_discrete

pub record ToolOutputSettingsScope : Type 0 where
  pub level : ToolOutputSettingsLevel
  pub tool_id : Option String

unfoldable pub ToolOutputSettingsScope-discrete : Discrete ToolOutputSettingsScope
ToolOutputSettingsScope-discrete = hlevel (string_discrete, ToolOutputSettingsLevel-discrete)

instance abbrev pub settings_scope_eq : Eq ToolOutputSettingsScope
settings_scope_eq = record { dec = ToolOutputSettingsScope-discrete }

-- `ToolOutputSettingsScope::workspace`
abbrev pub workspace_scope : ToolOutputSettingsScope
workspace_scope = record { level = workspace; tool_id = none }

abbrev pub for_tool : ToolOutputSettingsScope → String → ToolOutputSettingsScope
for_tool scope tool_id = record scope { tool_id = some tool_id }

pub data ToolOutputVerbosity : Type 0 where
  minimal normal expanded debug : ToolOutputVerbosity

unfoldable pub ToolOutputVerbosity-discrete : Discrete ToolOutputVerbosity
ToolOutputVerbosity-discrete = hlevel

instance abbrev pub verbosity_eq : Eq ToolOutputVerbosity
verbosity_eq = record { dec = ToolOutputVerbosity-discrete }

pub data ToolOutputGranularity : Type 0 where
  summary key_fields full : ToolOutputGranularity

unfoldable pub ToolOutputGranularity-discrete : Discrete ToolOutputGranularity
ToolOutputGranularity-discrete = hlevel

instance abbrev pub granularity_eq : Eq ToolOutputGranularity
granularity_eq = record { dec = ToolOutputGranularity-discrete }

instance abbrev pub bool_eq : Eq Bool
bool_eq = record { dec = Bool-discrete }

pub record ToolOutputDefaults : Type 0 where
  pub render_options : RenderOptions
  pub max_inline_bytes : ℕ
  pub max_inline_lines : ℕ
  pub verbosity : ToolOutputVerbosity
  pub granularity : ToolOutputGranularity
  pub oversize_policy : OversizeOutputPolicy

-- `ToolOutputDefaults::default`
abbrev pub default_defaults : ToolOutputDefaults
default_defaults = record {
  render_options = default_options;
  max_inline_bytes = default_max_inline_bytes;
  max_inline_lines = default_max_inline_lines;
  verbosity = normal;
  granularity = key_fields;
  oversize_policy = truncate_with_metadata;
}

pub data ToolOutputSettingsError : Type 0 where
  duplicate_scope : ToolOutputSettingsScope → ToolOutputSettingsError
  empty_update missing_reason : ToolOutputSettingsError
  max_inline_bytes_out_of_range : (value least greatest : ℕ) → ToolOutputSettingsError
  max_inline_lines_out_of_range : (value least greatest : ℕ) → ToolOutputSettingsError

abbrev pub SettingsResult {ℓ} : Type ℓ → Type ℓ
SettingsResult A = Result ToolOutputSettingsError A

unfoldable pub validate_inline_bytes : ℕ → SettingsResult (Unit {0})
validate_inline_bytes value =
    if leb min_max_inline_bytes value && leb value max_max_inline_bytes
    then ok tt
    else err (max_inline_bytes_out_of_range value min_max_inline_bytes max_max_inline_bytes)

unfoldable pub validate_inline_lines : ℕ → SettingsResult (Unit {0})
validate_inline_lines value =
    if leb min_max_inline_lines value && leb value max_max_inline_lines
    then ok tt
    else err (max_inline_lines_out_of_range value min_max_inline_lines max_max_inline_lines)

-- `ToolOutputDefaults::validate`
unfoldable pub validate : ToolOutputDefaults → SettingsResult (Unit {0})
unfolding validate_inline_bytes validate_inline_lines
validate defaults = do
  validate_inline_bytes defaults.max_inline_bytes
  validate_inline_lines defaults.max_inline_lines

pub record ToolOutputOverrides : Type 0 where
  pub format : Option OutputFormat
  pub include_policy : Option Bool
  pub include_diagnostics : Option Bool
  pub include_cost : Option Bool
  pub max_inline_bytes : Option ℕ
  pub max_inline_lines : Option ℕ
  pub verbosity : Option ToolOutputVerbosity
  pub granularity : Option ToolOutputGranularity
  pub oversize_policy : Option OversizeOutputPolicy

-- `ToolOutputOverrides::default`
abbrev pub default_overrides : ToolOutputOverrides
default_overrides = record {
  format = none;
  include_policy = none;
  include_diagnostics = none;
  include_cost = none;
  max_inline_bytes = none;
  max_inline_lines = none;
  verbosity = none;
  granularity = none;
  oversize_policy = none;
}

unfoldable pub is_empty : ToolOutputOverrides → Bool
is_empty o =
    is_none o.format
    && is_none o.include_policy
    && is_none o.include_diagnostics
    && is_none o.include_cost
    && is_none o.max_inline_bytes
    && is_none o.max_inline_lines
    && is_none o.verbosity
    && is_none o.granularity
    && is_none o.oversize_policy

-- `(base != inherited).then_some(base)`
abbrev pub if_differs : {T : Type 0} ⦃e : Eq T⦄ → T → T → Option T
if_differs base inherited = if base != inherited then some base else none

unfoldable pub from_defaults_with_parent :
    ToolOutputDefaults → ToolOutputDefaults → ToolOutputOverrides
from_defaults_with_parent base inherited = record {
  format = if_differs base.render_options.format inherited.render_options.format;
  include_policy =
      if_differs base.render_options.include_policy inherited.render_options.include_policy;
  include_diagnostics =
      if_differs base.render_options.include_diagnostics
        inherited.render_options.include_diagnostics;
  include_cost = if_differs base.render_options.include_cost inherited.render_options.include_cost;
  max_inline_bytes = if_differs base.max_inline_bytes inherited.max_inline_bytes;
  max_inline_lines = if_differs base.max_inline_lines inherited.max_inline_lines;
  verbosity = if_differs base.verbosity inherited.verbosity;
  granularity = if_differs base.granularity inherited.granularity;
  oversize_policy = if_differs base.oversize_policy inherited.oversize_policy;
}

unfoldable pub from_defaults : ToolOutputDefaults → ToolOutputOverrides
from_defaults base = from_defaults_with_parent base default_defaults

-- The fields of the second argument win.
unfoldable pub merge : ToolOutputOverrides → ToolOutputOverrides → ToolOutputOverrides
merge o update = record {
  format = or_else update.format o.format;
  include_policy = or_else update.include_policy o.include_policy;
  include_diagnostics = or_else update.include_diagnostics o.include_diagnostics;
  include_cost = or_else update.include_cost o.include_cost;
  max_inline_bytes = or_else update.max_inline_bytes o.max_inline_bytes;
  max_inline_lines = or_else update.max_inline_lines o.max_inline_lines;
  verbosity = or_else update.verbosity o.verbosity;
  granularity = or_else update.granularity o.granularity;
  oversize_policy = or_else update.oversize_policy o.oversize_policy;
}

unfoldable pub apply_to : ToolOutputOverrides → ToolOutputDefaults → ToolOutputDefaults
apply_to o defaults = record {
  render_options = record {
    format = unwrap_or o.format defaults.render_options.format;
    include_policy = unwrap_or o.include_policy defaults.render_options.include_policy;
    include_diagnostics =
        unwrap_or o.include_diagnostics defaults.render_options.include_diagnostics;
    include_cost = unwrap_or o.include_cost defaults.render_options.include_cost;
  };
  max_inline_bytes = unwrap_or o.max_inline_bytes defaults.max_inline_bytes;
  max_inline_lines = unwrap_or o.max_inline_lines defaults.max_inline_lines;
  verbosity = unwrap_or o.verbosity defaults.verbosity;
  granularity = unwrap_or o.granularity defaults.granularity;
  oversize_policy = unwrap_or o.oversize_policy defaults.oversize_policy;
}

unfoldable pub with_overrides :
    ToolOutputDefaults → ToolOutputOverrides → SettingsResult ToolOutputDefaults
with_overrides defaults overrides = do
  let changed = apply_to overrides defaults
  validate changed
  ok changed

unfoldable pub apply_verbosity_constraints : RenderOptions → ToolOutputVerbosity → RenderOptions
apply_verbosity_constraints options minimal = record options {
  include_policy = false;
  include_diagnostics = false;
  include_cost = false;
}
apply_verbosity_constraints options normal = record options {
  include_policy = false;
  include_diagnostics = false;
  include_cost = false;
}
apply_verbosity_constraints options expanded = record options { include_cost = false }
apply_verbosity_constraints options debug = record options {
  include_policy = true;
  include_diagnostics = true;
  include_cost = true;
}

-- The requested options replace those of the defaults, all four of them.
unfoldable pub field_limit : ToolOutputGranularity → ℕ → Option ℕ
field_limit summary lines = some (min 1 lines)
field_limit key_fields lines = some (min 3 lines)
field_limit full lines = none

shows_refs : ToolOutputGranularity → Bool
shows_refs summary = false
shows_refs key_fields = true
shows_refs full = true

unfoldable pub render_policy_with_render_options :
    ToolOutputDefaults → Option RenderOptions → ToolOutputRenderPolicy
unfolding field_limit shows_refs apply_verbosity_constraints
render_policy_with_render_options defaults requested = record {
  render_options =
      apply_verbosity_constraints (unwrap_or requested defaults.render_options) defaults.verbosity;
  max_fields = field_limit defaults.granularity defaults.max_inline_lines;
  max_inline_lines = some defaults.max_inline_lines;
  max_inline_bytes = some defaults.max_inline_bytes;
  oversize_policy = defaults.oversize_policy;
  include_evidence_refs = shows_refs defaults.granularity;
  include_output_refs = shows_refs defaults.granularity;
  include_redactions = shows_refs defaults.granularity;
}
