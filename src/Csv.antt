-- ===== src/Csv.antt =====
-- app/domain/csv_inference.py: the headers of a CSV file and the streaming profile of its columns.
-- Parameters: `str.strip` and `str.casefold`, the type that regular expressions and the parsers of dates
-- give a cell (`_value_type`), and what `Decimal` reads from a number.
pub mod Profile
pub mod Counts
mod Tests
use user_token_management_ap.Prelude.{
  ℕ, ◌+◌, ◌-◌, max, String, Bool, true, false, not, ◌&&◌, ◌||◌, Option, none, some, List, [], ◌∷◌,
  map, any, length, Result, ok, err, ◌>>=◌, ◌>>◌, raise_if, ltb, ◌==◌, str_eq, if◌then◌else◌,
  text_length,
}
use user_token_management_ap.Columns.{member}

pub data CsvError : Type 0 where
  -- each `ValueError`, by what it complains of
  control_character missing_name too_many_columns long_name repeated_name : CsvError
  uneven_row long_cell wide_decimal : CsvError

-- the texts that `_value_type` returns
pub data ValueType : Type 0 where
  boolean integer decimal datetime datetime_tz date time text : ValueType

-- the texts that `_merge_types` returns
pub data InferredType : Type 0 where
  empty : InferredType
  inferred : ValueType → InferredType

abbrev pub type_number : ValueType → ℕ
type_number boolean = 0
type_number integer = 1
type_number decimal = 2
type_number datetime = 3
type_number datetime_tz = 4
type_number date = 5
type_number time = 6
type_number text = 7

abbrev pub same_type : ValueType → ValueType → Bool
same_type a b = type_number a == type_number b

-- `types.add(t)`
abbrev pub add_type : ValueType → List ValueType → List ValueType
add_type t types = if any (same_type t) types then types else t ∷ types

-- `types <= {a, b}`
abbrev pub only : ValueType → ValueType → List ValueType → Bool
only a b types = not (any (λ t. not (same_type t a || same_type t b)) types)

-- `_merge_types`, on a set without its repetitions
unfoldable pub merge_types : List ValueType → InferredType
merge_types [] = empty
merge_types (t ∷ []) = if same_type t datetime_tz then inferred datetime else inferred t
merge_types (t ∷ s ∷ more) =
    let types = t ∷ s ∷ more in
    if only integer decimal types
    then inferred decimal
    else (if only date datetime types then inferred datetime else inferred text)

abbrev pub repeats : List String → Bool
repeats [] = false
repeats (x ∷ xs) = member x xs || repeats xs

-- `csv_headers`
unfoldable pub csv_headers :
    (String → Bool)
    → (String → String)
    → (String → String)
    → ℕ
    → List String
    → Result CsvError (List String)
csv_headers has_control strip casefold max_columns raw_headers = do
  raise_if (any has_control raw_headers) control_character
  let headers = map strip raw_headers
  raise_if (length headers == 0 || any (λ h. str_eq h "") headers) missing_name
  raise_if (ltb max_columns (length headers)) too_many_columns
  raise_if (any (λ h. ltb 128 (text_length h)) headers) long_name
  raise_if (repeats (map casefold headers)) repeated_name
  ok headers
