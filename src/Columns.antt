-- ===== src/Columns.antt =====
-- The types of columns between the form, the file and the destination: the chosen casts of
-- app/domain/column_types.py and the decimals of app/connectors/decimal_validation.py. Parameters: what
-- `json.loads` and `str.casefold` give, and the decimal shape that a regular expression reads from a type.
pub mod Overrides
pub mod Selections
pub mod Decimals
pub mod Lossless
mod Tests
use user_token_management_ap.Prelude.{
  ℕ, String, Bool, true, false, Option, none, some, List, [], ◌∷◌, str_eq, ◌||◌, if◌then◌else◌, any,
}

module _ {A : Type 0} where
  -- `d[key] = value`
  unfoldable pub store : String → A → List (String × A) → List (String × A)
  store key value [] = (key, value) ∷ []
  store key value (entry ∷ entries) =
      if str_eq entry.0 key then (entry.0, value) ∷ entries else entry ∷ store key value entries

  -- `d.get(key)`
  unfoldable pub lookup : String → List (String × A) → Option A
  lookup key [] = none
  lookup key (entry ∷ entries) = if str_eq entry.0 key then some entry.1 else lookup key entries

abbrev pub member : String → List String → Bool
member s texts = any (λ t. str_eq t s) texts
