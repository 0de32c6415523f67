-- ===== src/Output.antt =====
-- The options of rendered tool output, crates/atelia-core/src/tool_output.rs.
pub mod Format
pub mod Budget
pub mod Cut
pub mod Counted
pub mod Filled
pub mod Within
pub mod Budgeted
pub mod Render
pub mod Channels
pub mod Visible
pub mod Toon
pub mod Body
pub mod Plain
pub mod Avoids
pub mod Quoting
pub mod Lines
pub mod Sections
pub mod Cutting
pub mod Singles
pub mod LineBudget
pub mod Tests
use atelia_secretary.Base.{ℕ, Bool, true, false, Option, none, Eq}

pub data OutputFormat : Type 0 where
  toon json text : OutputFormat

unfoldable pub OutputFormat-discrete : Discrete OutputFormat
OutputFormat-discrete = hlevel

instance abbrev pub format_eq : Eq OutputFormat
format_eq = record { dec = OutputFormat-discrete }

pub record RenderOptions : Type 0 where
  pub format : OutputFormat
  pub include_policy : Bool
  pub include_diagnostics : Bool
  pub include_cost : Bool

-- `RenderOptions::default`
abbrev pub default_options : RenderOptions
default_options = record {
  format = toon;
  include_policy = false;
  include_diagnostics = false;
  include_cost = false;
}

-- From crates/atelia-core/src/settings.rs.
pub data OversizeOutputPolicy : Type 0 where
  truncate_with_metadata spill_to_artifact_ref reject_oversize : OversizeOutputPolicy

unfoldable pub OversizeOutputPolicy-discrete : Discrete OversizeOutputPolicy
OversizeOutputPolicy-discrete = hlevel

instance abbrev pub oversize_eq : Eq OversizeOutputPolicy
oversize_eq = record { dec = OversizeOutputPolicy-discrete }

pub record ToolOutputRenderPolicy : Type 0 where
  pub render_options : RenderOptions
  pub max_fields : Option ℕ
  pub max_inline_lines : Option ℕ
  pub max_inline_bytes : Option ℕ
  pub oversize_policy : OversizeOutputPolicy
  pub include_evidence_refs : Bool
  pub include_output_refs : Bool
  pub include_redactions : Bool

unfoldable pub from_render_options : RenderOptions → ToolOutputRenderPolicy
from_render_options render_options = record {
  render_options = render_options;
  max_fields = none;
  max_inline_lines = none;
  max_inline_bytes = none;
  oversize_policy = truncate_with_metadata;
  include_evidence_refs = true;
  include_output_refs = true;
  include_redactions = true;
}
