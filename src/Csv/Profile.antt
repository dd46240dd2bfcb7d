-- ===== src/Csv/Profile.antt =====
-- `profile_csv_rows` and `_column_profile` of app/domain/csv_inference.py, on the rows of the reader.
use user_token_management_ap.Prelude.{
  map_ok, ◌&&◌, ℕ, ◌+◌, ◌-◌, max, String, Bool, true, false, not, Option, none, some, List, [], ◌∷◌,
  any, length, Result, ok, err, ◌>>=◌, ◌>>◌, raise_if, ltb, ◌==◌, str_eq, if◌then◌else◌,
  text_length, clip,
}
use user_token_management_ap.Csv.{
  CsvError, uneven_row, long_cell, wide_decimal, ValueType, text, decimal, datetime_tz,
  InferredType, empty, inferred, same_type, add_type, merge_types,
}

-- what the loop keeps for a column
pub record Tally : Type 0 where
  pub types : List ValueType
  pub populated : ℕ
  pub nulls : ℕ
  pub example : String
  pub integer_digits : ℕ
  pub decimal_scale : ℕ

pub record CsvColumnProfile : Type 0 where
  pub name : String
  pub inferred_type : InferredType
  pub populated : ℕ
  pub nulls : ℕ
  pub example : String
  pub decimal_precision : ℕ
  pub decimal_scale : ℕ
  pub timezone_aware : Bool

-- the digits and the exponent of a `Decimal`: the exponent is a number or the opposite of one
pub data Parts : Type 0 where
  whole : (digits exponent : ℕ) → Parts
  fraction : (digits places : ℕ) → Parts

abbrev pub integer_digits_of : Parts → ℕ
integer_digits_of (whole digits exponent) = digits + exponent
integer_digits_of (fraction digits places) = digits - places

abbrev pub scale_of : Parts → ℕ
scale_of (whole digits exponent) = 0
scale_of (fraction digits places) = places

abbrev pub is_number : ValueType → Bool
is_number ValueType.boolean = false
is_number ValueType.integer = true
is_number ValueType.decimal = true
is_number ValueType.datetime = false
is_number ValueType.datetime_tz = false
is_number ValueType.date = false
is_number ValueType.time = false
is_number ValueType.text = false

-- a populated cell, with its type and, for a number, its parts
unfoldable pub tally_value : String → ValueType → Option Parts → Tally → Tally
tally_value value t none tally = record tally {
  types = add_type (if is_number t then text else t) tally.types;
  populated = tally.populated + 1;
  example = if str_eq tally.example "" then clip 80 value else tally.example;
}
tally_value value t (some parts) tally = record tally {
  types = add_type t tally.types;
  populated = tally.populated + 1;
  example = if str_eq tally.example "" then clip 80 value else tally.example;
  integer_digits =
      if is_number t
      then max tally.integer_digits (integer_digits_of parts)
      else tally.integer_digits;
  decimal_scale =
      if is_number t then max tally.decimal_scale (scale_of parts) else tally.decimal_scale;
}

unfoldable pub count_null : Tally → Tally
count_null tally = record tally { nulls = tally.nulls + 1 }

abbrev pub no_tally : Tally
no_tally = record {
  types = [];
  populated = 0;
  nulls = 0;
  example = "";
  integer_digits = 0;
  decimal_scale = 0;
}

unfoldable pub no_tallies : List String → List Tally
no_tallies [] = []
no_tallies (header ∷ headers) = no_tally ∷ no_tallies headers

-- `types == {"datetime_tz"}`
abbrev pub only_datetime_tz : List ValueType → Bool
only_datetime_tz [] = false
only_datetime_tz (t ∷ ts) = same_type t datetime_tz && length ts == 0

abbrev pub is_decimal : InferredType → Bool
is_decimal empty = false
is_decimal (inferred t) = same_type t decimal

-- the precision of a column of decimals
abbrev pub precision_of : Tally → ℕ
precision_of tally = max (max (tally.integer_digits + tally.decimal_scale) tally.decimal_scale) 1

-- `_column_profile`
unfoldable pub column_profile : String → Tally → Result CsvError CsvColumnProfile
unfolding merge_types
column_profile name tally =
    if is_decimal (merge_types tally.types)
    then raise_if (ltb 38 (precision_of tally)) wide_decimal
      >> ok (record {
        name = name;
        inferred_type = merge_types tally.types;
        populated = tally.populated;
        nulls = tally.nulls;
        example = tally.example;
        decimal_precision = precision_of tally;
        decimal_scale = tally.decimal_scale;
        timezone_aware = false;
      })
    else ok (record {
      name = name;
      inferred_type = merge_types tally.types;
      populated = tally.populated;
      nulls = tally.nulls;
      example = tally.example;
      decimal_precision = 0;
      decimal_scale = 0;
      timezone_aware = only_datetime_tz tally.types;
    })

unfoldable pub column_profiles : List String → List Tally → Result CsvError (List CsvColumnProfile)
unfolding column_profile
column_profiles [] tallies = ok []
column_profiles (header ∷ headers) [] = ok []
column_profiles (header ∷ headers) (tally ∷ tallies) = do
  column ← column_profile header tally
  columns ← column_profiles headers tallies
  ok (column ∷ columns)

module _ (strip : String → String) (value_type : String → ValueType)
    (decimal_parts : String → Option Parts) (max_cell_characters : ℕ) where
  unfoldable pub tally_cell : String → Tally → Result CsvError Tally
  unfolding tally_value count_null
  tally_cell raw_value tally =
      let value = strip raw_value in
      raise_if (ltb max_cell_characters (text_length value)) long_cell
      >> ok (
          if str_eq value ""
          then count_null tally
          else tally_value value (value_type value) (decimal_parts value) tally)

  -- the cells of a row, which has as many as there are columns
  unfoldable pub tally_row : List String → List Tally → Result CsvError (List Tally)
  unfolding tally_cell
  tally_row row [] = ok []
  tally_row [] (tally ∷ tallies) = err uneven_row
  tally_row (cell ∷ cells) (tally ∷ tallies) = do
    counted ← tally_cell cell tally
    rest ← tally_row cells tallies
    ok (counted ∷ rest)

  -- one turn of the loop on the rows
  unfoldable pub tally_line : List String → ℕ → List Tally → Result CsvError (ℕ × List Tally)
  unfolding tally_row
  tally_line [] row_count tallies = ok (row_count, tallies)
  tally_line (cell ∷ cells) row_count tallies = do
    raise_if (not (length (cell ∷ cells) == length tallies)) uneven_row
    (if any (λ value. not (str_eq (strip value) "")) (cell ∷ cells)
        then map_ok (λ counted. (row_count + 1, counted)) (tally_row (cell ∷ cells) tallies)
        else ok (row_count, tallies))

  unfoldable pub tally_rows : List (List String) → ℕ → List Tally → Result CsvError (ℕ × List Tally)
  unfolding tally_line
  tally_rows [] row_count tallies = ok (row_count, tallies)
  tally_rows (row ∷ rows) row_count tallies = do
    (counted, next) ← tally_line row row_count tallies
    tally_rows rows counted next

  -- `profile_csv_rows`
  unfoldable pub profile_csv_rows :
      List String → List (List String) → Result CsvError (ℕ × List CsvColumnProfile)
  unfolding no_tallies tally_rows column_profiles
  profile_csv_rows headers rows = do
    (row_count, tallies) ← tally_rows rows 0 (no_tallies headers)
    columns ← column_profiles headers tallies
    ok (row_count, columns)
