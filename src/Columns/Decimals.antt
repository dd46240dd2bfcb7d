-- ===== src/Columns/Decimals.antt =====
-- `validate_decimal_destination_schema` of app/connectors/decimal_validation.py. `decimal_shape` is the
-- precision and scale that a type states, and `is_unbounded` whether it is a decimal without them.
use user_token_management_ap.Prelude.{
  ℕ, ◌+◌, String, Bool, true, false, not, ◌&&◌, ◌||◌, Option, none, some, List, [], ◌∷◌, Result, ok,
  ◌>>◌, raise_if, ltb, leb, ◌==◌, str_eq, if◌then◌else◌,
}
use user_token_management_ap.Columns.{store, lookup}

-- `ColumnSchema`, its name and type
pub record ColumnSchema : Type 0 where
  pub name : String
  pub data_type : String

pub data SchemaError : Type 0 where
  schema_drift : SchemaError

-- `destination_type in {"numeric", "decimal"}`, and the types of text
abbrev pub is_numeric : String → Bool
is_numeric t = str_eq t "numeric" || str_eq t "decimal"

abbrev pub is_text : String → Bool
is_text t = str_eq t "text" || str_eq t "character varying" || str_eq t "character"

-- the whole numbers that hold every decimal of this precision without a fraction
abbrev pub integer_precision : String → Option ℕ
integer_precision t =
    if str_eq t "smallint"
    then some 4
    else (if str_eq t "integer" then some 9 else (if str_eq t "bigint" then some 18 else none))

abbrev pub within : ℕ → Option ℕ → Bool
within precision none = false
within precision (some most) = leb precision most

module _ (decimal_shape : String → Option (ℕ × ℕ)) (is_unbounded : String → Bool)
    (casefold : String → String) where
  -- the dict comprehension over the source columns
  unfoldable pub source_decimals :
      List ColumnSchema → List (String × (ℕ × ℕ)) → List (String × (ℕ × ℕ))
  unfolding store
  source_decimals [] found = found
  source_decimals (column ∷ columns) found =
      source_decimals columns (elim (decimal_shape column.data_type) [
        | none ↦ found
        | some shape ↦ store column.name shape found
      ])

  unfoldable pub source_unbounded : List ColumnSchema → List String
  source_unbounded [] = []
  source_unbounded (column ∷ columns) =
      if is_unbounded column.data_type
      then column.name ∷ source_unbounded columns
      else source_unbounded columns

  unfoldable pub destinations_of :
      List ColumnSchema → List (String × String) → List (String × String)
  unfolding store
  destinations_of [] found = found
  destinations_of (column ∷ columns) found =
      destinations_of columns (store column.name (casefold column.data_type) found)

  -- whether a destination takes a decimal without bounds
  abbrev pub takes_unbounded : Option String → Bool
  takes_unbounded none = true
  takes_unbounded (some t) =
      is_numeric t && elim (decimal_shape t) [ none ↦ true | some shape ↦ false ] || is_text t

  -- whether a destination with this shape, or of another type, takes a decimal of this shape
  abbrev pub takes_shape : ℕ × ℕ → String → Option (ℕ × ℕ) → Bool
  takes_shape source t (some shape) =
      not (ltb shape.1 source.1 || ltb (shape.0 + source.1) (source.0 + shape.1))
  takes_shape source t none = is_text t || source.1 == 0 && within source.0 (integer_precision t)

  abbrev pub takes_decimal : ℕ × ℕ → Option String → Bool
  takes_decimal source none = true
  takes_decimal source (some t) = is_numeric t || takes_shape source t (decimal_shape t)

  unfoldable pub check_unbounded :
      List String → List (String × String) → Result SchemaError (Unit {0})
  unfolding lookup
  check_unbounded [] destinations = ok tt
  check_unbounded (name ∷ names) destinations =
      raise_if (not (takes_unbounded (lookup name destinations))) schema_drift
      >> check_unbounded names destinations

  unfoldable pub check_decimals :
      List (String × (ℕ × ℕ)) → List (String × String) → Result SchemaError (Unit {0})
  unfolding lookup
  check_decimals [] destinations = ok tt
  check_decimals (source ∷ sources) destinations =
      raise_if (not (takes_decimal source.1 (lookup source.0 destinations))) schema_drift
      >> check_decimals sources destinations

  -- `validate_decimal_destination_schema`; without a decimal in the source both loops are empty.
  unfoldable pub validate_decimal_destination_schema :
      List ColumnSchema → List ColumnSchema → Result SchemaError (Unit {0})
  unfolding source_decimals source_unbounded destinations_of check_unbounded check_decimals
  validate_decimal_destination_schema source_columns destination_columns = do
    let destinations = destinations_of destination_columns []
    check_unbounded (source_unbounded source_columns) destinations
    check_decimals (source_decimals source_columns []) destinations
