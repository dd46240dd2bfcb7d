-- ===== src/Csv/Tests.antt =====
-- The theorem about profiles on a concrete file.
use user_token_management_ap.Prelude.{
  text_length, ℕ, String, Option, some, List, [], ◌∷◌, Result, ok, err, ◌≡◌, refl,
}
use user_token_management_ap.Csv.{CsvError, ValueType}
use user_token_management_ap.Csv.Profile.{Parts, whole, CsvColumnProfile, profile_csv_rows}
use user_token_management_ap.Csv.Counts.{IsAccounted, profile_csv_rows-IsAccounted}

abbrev as_is : String → String
as_is s = s

abbrev all_decimal : String → ValueType
all_decimal s = ValueType.decimal

abbrev two_digits : String → Option Parts
two_digits s = some (whole 2 0)

abbrev heads : List String
heads = "amount" ∷ "rate" ∷ []

abbrev lines : List (List String)
lines = ("12" ∷ "" ∷ []) ∷ [] ∷ ("" ∷ "" ∷ []) ∷ ("34" ∷ "56" ∷ []) ∷ []

abbrev profile_or : Result CsvError (ℕ × List CsvColumnProfile) → ℕ × List CsvColumnProfile
profile_or (ok profile) = profile
profile_or (err e) = (0, [])

abbrev profiled : ℕ × List CsvColumnProfile
profiled = profile_or (profile_csv_rows as_is all_decimal two_digits 131072 heads lines)

profiled_lem :
    profile_csv_rows as_is all_decimal two_digits 131072 heads lines ≡ ok (profiled.0, profiled.1)
unfolding profile_csv_rows text_length
profiled_lem = refl

profile_csv_rows-IsAccounted_example : IsAccounted profiled.0 profiled.1
profile_csv_rows-IsAccounted_example =
    profile_csv_rows-IsAccounted as_is all_decimal two_digits 131072 heads lines profiled.0
      profiled.1 profiled_lem
