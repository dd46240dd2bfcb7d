-- ===== src/Columns/Overrides.antt =====
-- `parse_column_type_override_values` of app/domain/column_types.py.
use user_token_management_ap.Prelude.{
  text_length, String, Bool, not, ◌||◌, Option, none, some, List, [], ◌∷◌, Result, ok, err, ◌>>=◌,
  ◌>>◌, raise_if, ltb, str_eq, if◌then◌else◌,
}
use user_token_management_ap.Json.{Value, Items}
use user_token_management_ap.Columns.{store, member}

-- each `ValueError`, by its message
pub data SelectionError : Type 0 where
  invalid_selection second_cast long_name : SelectionError

-- the keys of `COLUMN_TYPE_OVERRIDE_DATA_TYPES`
abbrev pub override_types : List String
override_types =
    "text" ∷ "boolean" ∷ "smallint" ∷ "integer" ∷ "bigint" ∷ "real" ∷ "double" ∷ "decimal" ∷ "date"
    ∷ "timestamp" ∷ "time" ∷ "interval" ∷ "binary" ∷ []

-- `_ALLOWED_FORM_TYPES`
abbrev pub allowed_form_type : String → Bool
allowed_form_type selected = str_eq selected "auto" || member selected override_types

-- the two texts of a list of two texts
abbrev pub pair : Items → Result SelectionError (String × String)
pair (Items.cons (Value.text column) (Items.cons (Value.text selected) Items.nil)) =
    ok (column, selected)
pair items = err invalid_selection

-- a payload that is a list of two texts
unfoldable pub selection : Option Value → Result SelectionError (String × String)
selection none = err invalid_selection
selection (some Value.null) = err invalid_selection
selection (some (Value.boolean b)) = err invalid_selection
selection (some (Value.int n)) = err invalid_selection
selection (some (Value.negative n)) = err invalid_selection
selection (some (Value.float is_zero literal)) = err invalid_selection
selection (some (Value.text s)) = err invalid_selection
selection (some (Value.object fields)) = err invalid_selection
selection (some (Value.array items)) = pair items

-- the loop on the values, with the overrides and the columns so far
unfoldable pub parse_values :
    (String → Option Value)
    → List String
    → List (String × String)
    → List String
    → Result SelectionError (List (String × String))
unfolding selection store
parse_values loads [] overrides seen = ok overrides
parse_values loads (raw_value ∷ values) overrides seen = do
  (column, selected_type) ← selection (loads raw_value)
  raise_if (str_eq column "" || not (allowed_form_type selected_type)) invalid_selection
  raise_if (member column seen) second_cast
  (if str_eq selected_type "auto"
      then parse_values loads values overrides (column ∷ seen)
      else raise_if (ltb 256 (text_length column)) long_name
        >> parse_values loads values (store column selected_type overrides) (column ∷ seen))

-- `parse_column_type_override_values`
unfoldable pub parse_column_type_override_values :
    (String → Option Value) → List String → Result SelectionError (List (String × String))
unfolding parse_values
parse_column_type_override_values loads values = parse_values loads values [] []
