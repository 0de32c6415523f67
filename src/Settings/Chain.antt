-- ===== src/Settings/Chain.antt =====
-- How settings resolve along the chain of a scope, crates/atelia-core/src/settings.rs.
use atelia_secretary.Settings.Service.{
  apply_candidate, resolve_parent_defaults_for, resolve_defaults, replace_scope, has_scope,
  ToolOutputSettings, before, resolution_chain, resolve_chain,
}
use atelia_secretary.Base.{
  ap, ◌∙◌, none, some, some, String, Option, ◌≡◌, refl, arith, false, List, [], ◌∷◌, ◌++◌, find,
  ◌==◌, if◌then◌else◌, Bool-cases, inl, inr,
}
use atelia_secretary.Settings.{
  default_defaults, ToolOutputSettingsLevel, ToolOutputDefaults, ToolOutputSettingsScope,
  settings_scope_eq,
}

before_at :
    (level : ToolOutputSettingsLevel) (tool_id : Option String)
    → (let scope : ToolOutputSettingsScope = record { level = level; tool_id = tool_id } in
        resolution_chain scope ≡ before scope (resolution_chain scope) ++ (scope ∷ []))
unfolding resolution_chain before
before_at level none = ground arith
before_at level (some tool) = ground arith

-- The scope itself ends its chain.
resolution_chain-before :
    (scope : ToolOutputSettingsScope)
    → resolution_chain scope ≡ before scope (resolution_chain scope) ++ (scope ∷ [])
resolution_chain-before scope = before_at scope.level scope.tool_id

resolve_chain-append :
    (settings : List ToolOutputSettings) (xs ys : List ToolOutputSettingsScope)
    (defaults : ToolOutputDefaults)
    → resolve_chain settings (xs ++ ys) defaults
      ≡ resolve_chain settings ys (resolve_chain settings xs defaults)
unfolding resolve_chain
resolve_chain-append settings [] ys defaults = refl
resolve_chain-append settings (x ∷ xs) ys defaults = resolve_chain-append settings xs ys _

pub resolve_defaults-own :
    (settings : List ToolOutputSettings) (scope : ToolOutputSettingsScope)
    → resolve_defaults settings scope
      ≡ apply_candidate
          (find (has_scope scope) settings)
          (resolve_parent_defaults_for settings scope)
unfolding resolve_defaults resolve_parent_defaults_for resolve_chain
resolve_defaults-own settings scope =
    ap (λ chain. resolve_chain settings chain default_defaults) (resolution_chain-before scope)
    ∙ resolve_chain-append settings (before scope (resolution_chain scope)) (scope ∷ [])
        default_defaults

pub find-scope :
    (settings : List ToolOutputSettings) (scope : ToolOutputSettingsScope) (s : ToolOutputSettings)
    → find (has_scope scope) settings ≡ some s
    → s.scope ≡ scope
find-scope [] scope s e = cc
find-scope (x ∷ settings) scope s e = ground (arith, find-scope settings scope s)

pub find-replace_scope :
    (settings : List ToolOutputSettings) (scope s : ToolOutputSettingsScope)
    (current updated : ToolOutputSettings)
    → find (has_scope scope) settings ≡ some current
    → updated.scope ≡ scope
    → find (has_scope s) (replace_scope scope updated settings)
      ≡ (if scope == s then some updated else find (has_scope s) settings)
unfolding replace_scope
find-replace_scope [] scope s current updated e f = cc
find-replace_scope (x ∷ settings) scope s current updated e f =
    ground (arith, find-replace_scope settings scope s current updated)

pub find-append :
    (settings : List ToolOutputSettings) (scope s : ToolOutputSettingsScope)
    (added : ToolOutputSettings)
    → find (has_scope scope) settings ≡ none
    → added.scope ≡ scope
    → find (has_scope s) (settings ++ (added ∷ []))
      ≡ (if scope == s then some added else find (has_scope s) settings)
find-append [] scope s added e f = ground arith
find-append (x ∷ settings) scope s added e f = ground (arith, find-append settings scope s added)

-- The two settings differ at one scope only.
abbrev pub AgreeBut :
    ToolOutputSettingsScope → List ToolOutputSettings → List ToolOutputSettings → Type 0
AgreeBut scope settings after =
    (s : ToolOutputSettingsScope)
    → (scope == s) ≡ false
    → find (has_scope s) after ≡ find (has_scope s) settings

module _ (scope : ToolOutputSettingsScope) (settings after : List ToolOutputSettings)
    (agree : AgreeBut scope settings after) where
  resolve_chain-before :
      (chain : List ToolOutputSettingsScope) (defaults : ToolOutputDefaults)
      → resolve_chain after (before scope chain) defaults
        ≡ resolve_chain settings (before scope chain) defaults
  unfolding resolve_chain before
  resolve_chain-before [] defaults = refl
  resolve_chain-before (s ∷ chain) defaults = elim (Bool-cases (s == scope)) [
    | inl own ↦ rw own refl
    | inr other ↦
        let same = agree s (ground arith) in
        rw other (
          ap (λ c. resolve_chain after (before scope chain) (apply_candidate c defaults)) same
          ∙ resolve_chain-before chain (apply_candidate (find (has_scope s) settings) defaults))
  ]

  pub resolve_parent-after :
      resolve_parent_defaults_for after scope ≡ resolve_parent_defaults_for settings scope
  unfolding resolve_parent_defaults_for
  resolve_parent-after = resolve_chain-before (resolution_chain scope) default_defaults
