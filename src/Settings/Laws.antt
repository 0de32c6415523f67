-- ===== src/Settings/Laws.antt =====
-- How overrides act on defaults, crates/atelia-core/src/settings.rs.
use atelia_secretary.Base.{unwrap_or, Eq, ◌≡◌, ◌≤◌, arith, ok, ◌>>◌}
use atelia_secretary.Settings.{
  max_max_inline_lines, min_max_inline_lines, max_max_inline_bytes, if_differs,
  min_max_inline_bytes, validate, ToolOutputDefaults, from_defaults_with_parent,
  ToolOutputOverrides, apply_to, merge,
}

-- Merging overrides is applying the one and then the other.
pub apply_to-merge :
    (o update : ToolOutputOverrides) (defaults : ToolOutputDefaults)
    → apply_to (merge o update) defaults ≡ apply_to update (apply_to o defaults)
unfolding apply_to merge
apply_to-merge o update defaults = ground arith

or_else-restored :
    {T : Type 0} ⦃e : Eq T⦄ (base inherited : T)
    → unwrap_or (if_differs base inherited) inherited ≡ base
or_else-restored base inherited = ground arith

-- What sets a base apart from what it inherits restores it there.
pub apply_to-from_defaults_with_parent :
    (base inherited : ToolOutputDefaults)
    → apply_to (from_defaults_with_parent base inherited) inherited ≡ base
unfolding apply_to from_defaults_with_parent
apply_to-from_defaults_with_parent base inherited = ground arith

-- The budgets of a rendering are in the supported range.
pub record IsBounded (d : ToolOutputDefaults) : Type 0 where
  pub least_bytes : min_max_inline_bytes ≤ d.max_inline_bytes
  pub greatest_bytes : d.max_inline_bytes ≤ max_max_inline_bytes
  pub least_lines : min_max_inline_lines ≤ d.max_inline_lines
  pub greatest_lines : d.max_inline_lines ≤ max_max_inline_lines

pub validate-IsBounded : (d : ToolOutputDefaults) → validate d ≡ ok tt → IsBounded d
unfolding validate ◌>>◌
validate-IsBounded d h = ground arith

pub IsBounded-validate : (d : ToolOutputDefaults) → IsBounded d → validate d ≡ ok tt
unfolding validate ◌>>◌
IsBounded-validate d h =
    ground (arith, h.least_bytes, h.greatest_bytes, h.least_lines, h.greatest_lines)
