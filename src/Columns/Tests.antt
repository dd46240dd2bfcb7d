-- ===== src/Columns/Tests.antt =====
-- The theorems about columns on concrete schemas.
use user_token_management_ap.Prelude.{
  text_length, ℕ, ◌*◌, ◌^◌, ◌≤◌, ◌<◌, String, Bool, false, ◌≡◌, refl, Option, none, some, List, [],
  ◌∷◌, ok, str_eq, if◌then◌else◌, arith,
}
use user_token_management_ap.Json.{Value}
use user_token_management_ap.Columns.Overrides.{parse_column_type_override_values}
use user_token_management_ap.Columns.Selections.{
  payload, IsCast, IsDistinct, parse_column_type_override_values-dumps,
}
use user_token_management_ap.Columns.{lookup}
use user_token_management_ap.Columns.Decimals.{
  source_decimals, destinations_of, ColumnSchema, validate_decimal_destination_schema,
}
use user_token_management_ap.Columns.Lossless.{validate_decimal_destination_schema-lossless}

abbrev chosen : String × String
chosen = ("amount", "decimal")

abbrev print_one : Value → String
print_one v = "[\"amount\",\"decimal\"]"

abbrev read_one : String → Option Value
read_one s = some (payload chosen)

cast_lem : IsCast chosen
unfolding IsCast text_length
cast_lem = (refl, refl, refl)

distinct_lem : IsDistinct [] (chosen ∷ [])
unfolding IsDistinct
distinct_lem = (refl, tt)

parse_column_type_override_values-dumps_example :
    parse_column_type_override_values read_one (print_one (payload chosen) ∷ []) ≡ ok (chosen ∷ [])
parse_column_type_override_values-dumps_example =
    parse_column_type_override_values-dumps read_one print_one (chosen ∷ []) (refl, tt)
      (cast_lem, tt) distinct_lem

abbrev shape_of : String → Option (ℕ × ℕ)
shape_of t =
    if str_eq t "decimal(10,2)"
    then some (10, 2)
    else (if str_eq t "decimal(12,3)" then some (12, 3) else none)

abbrev never : String → Bool
never t = false

abbrev lower : String → String
lower s = s

abbrev from : List ColumnSchema
from = record { name = "amount"; data_type = "decimal(10,2)" } ∷ []

abbrev into : List ColumnSchema
into = record { name = "amount"; data_type = "decimal(12,3)" } ∷ []

passes_lem : validate_decimal_destination_schema shape_of never lower from into ≡ ok tt
unfolding validate_decimal_destination_schema
passes_lem = refl

source_lem : lookup "amount" (source_decimals shape_of never lower from []) ≡ some (10, 2)
unfolding lookup source_decimals
source_lem = refl

destination_lem :
    lookup "amount" (destinations_of shape_of never lower into []) ≡ some "decimal(12,3)"
unfolding lookup destinations_of
destination_lem = refl

validate_decimal_destination_schema-lossless_example : (2 ≤ 3) × (1234567890 * 10 ^ 1 < 10 ^ 12)
validate_decimal_destination_schema-lossless_example =
    validate_decimal_destination_schema-lossless shape_of never lower from into "amount"
      "decimal(12,3)" 10 2 12 3 1234567890 passes_lem source_lem destination_lem refl refl
      (ground arith)
