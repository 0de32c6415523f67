-- ===== src/Output/Format.antt =====
-- Texts put together as `format!` and `join` do, and what the standard library prints.
use atelia_secretary.Base.{String, ℕ, Bool, List, [], ◌∷◌, append}

-- `to_string` of an unsigned number and of an i64, the format `{:x}`, and whether a text parses as
-- an i64 or as an f64.
pub record Notation : Type 0 where
  pub print : ℕ → String
  pub print_i64 : ℕ → String
  pub print_hex : ℕ → String
  pub parses_i64 : String → Bool
  pub parses_f64 : String → Bool

-- The pieces of a `format!`, one after the other.
unfoldable pub concat : List String → String
concat [] = ""
concat (s ∷ ss) = append s (concat ss)

unfoldable pub join : String → List String → String
join separator [] = ""
join separator (s ∷ []) = s
join separator (s ∷ t ∷ ss) = append s (append separator (join separator (t ∷ ss)))
