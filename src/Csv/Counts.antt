-- ===== src/Csv/Counts.antt =====
-- The profile of a file accounts for every row in every column, and its decimals have bounds.
use user_token_management_ap.Prelude.{
  ℕ, ◌+◌, String, Bool, true, false, not, ◌≡◌, refl, Option, none, some, List, [], ◌∷◌, any, All,
  length, Result, ok, err, raise_if, map_ok, ltb, ◌==◌, str_eq, ◌≤◌, if◌then◌else◌, arith,
  >>=-eq-ok, ok-injective, subst, Bool-cases, inl, inr, text_length,
}
use user_token_management_ap.Csv.{uneven_row, long_cell, ValueType}
use user_token_management_ap.Csv.Profile.{
  Tally, CsvColumnProfile, Parts, tally_value, count_null, no_tallies, column_profile,
  column_profiles, tally_cell, tally_row, tally_line, tally_rows, profile_csv_rows,
}

-- Each column has counted each row.
unfoldable pub IsCounted : ℕ → List Tally → Type 0
IsCounted rows tallies = All (λ t. t.populated + t.nulls ≡ rows) tallies

-- The profiles account for each row, and no decimal is wider than 38 digits or its scale wider than it.
unfoldable pub IsAccounted : ℕ → List CsvColumnProfile → Type 0
IsAccounted rows columns =
    All
      (λ c.
        (c.populated + c.nulls ≡ rows)
        × (c.decimal_precision ≤ 38)
        × (c.decimal_scale ≤ c.decimal_precision))
      columns

no_tallies-IsCounted : (headers : List String) → IsCounted 0 (no_tallies headers)
unfolding IsCounted no_tallies
no_tallies-IsCounted [] = tt
no_tallies-IsCounted (h ∷ hs) = (refl, no_tallies-IsCounted hs)

column_profile-counts :
    (rows : ℕ) (name : String) (tally : Tally) {column : CsvColumnProfile}
    → column_profile name tally ≡ ok column
    → tally.populated + tally.nulls ≡ rows
    → (column.populated + column.nulls ≡ rows)
      × (column.decimal_precision ≤ 38)
      × (column.decimal_scale ≤ column.decimal_precision)
unfolding column_profile
column_profile-counts rows name tally h counted = (ground arith, ground arith, ground arith)

column_profiles-IsAccounted :
    (rows : ℕ) (headers : List String) (tallies : List Tally) {columns : List CsvColumnProfile}
    → column_profiles headers tallies ≡ ok columns
    → IsCounted rows tallies
    → IsAccounted rows columns
unfolding column_profiles IsCounted IsAccounted
column_profiles-IsAccounted rows [] tallies h all = subst (IsAccounted rows) (ok-injective h) tt
column_profiles-IsAccounted rows (header ∷ headers) [] h all =
    subst (IsAccounted rows) (ok-injective h) tt
column_profiles-IsAccounted rows (header ∷ headers) (tally ∷ tallies) h all =
    let (column, one, h1) = >>=-eq-ok (column_profile header tally) _ h in
    let (columns, more, h2) = >>=-eq-ok (column_profiles headers tallies) _ h1 in
    subst (IsAccounted rows) (ok-injective h2) (
      column_profile-counts rows header tally one all.0,
      column_profiles-IsAccounted rows headers tallies more all.1,
    )

tally_value-counts :
    (rows : ℕ) (value : String) (t : ValueType) (parts : Option Parts) (tally : Tally)
    → tally.populated + tally.nulls ≡ rows
    → (tally_value value t parts tally).populated + (tally_value value t parts tally).nulls
      ≡ rows + 1
unfolding tally_value
tally_value-counts rows value t none tally before = ground arith
tally_value-counts rows value t (some parts) tally before = ground arith

cell-counts :
    (rows : ℕ) (blank : Bool) (value : String) (t : ValueType) (parts : Option Parts)
    (tally : Tally)
    → tally.populated + tally.nulls ≡ rows
    → (if blank then count_null tally else tally_value value t parts tally).populated
        + (if blank then count_null tally else tally_value value t parts tally).nulls
      ≡ rows + 1
unfolding count_null
cell-counts rows true value t parts tally before = ground arith
cell-counts rows false value t parts tally before =
    tally_value-counts rows value t parts tally before

map_ok-ok :
    {E A B : Type 0} (f : A → B) (r : Result E A) {done : B}
    → map_ok f r ≡ ok done
    → (value : A) × (r ≡ ok value) × (f value ≡ done)
map_ok-ok f (ok value) h = (value, refl, ok-injective h)
map_ok-ok f (err e) h = cc h

module _ (strip : String → String) (value_type : String → ValueType)
    (decimal_parts : String → Option Parts) (max_cell_characters : ℕ) where
  tally_cell-counts :
      (rows : ℕ) (cell : String) (tally : Tally) {counted : Tally}
      → tally_cell strip value_type decimal_parts max_cell_characters cell tally ≡ ok counted
      → tally.populated + tally.nulls ≡ rows
      → counted.populated + counted.nulls ≡ rows + 1
  unfolding tally_cell tally_value count_null
  tally_cell-counts rows cell tally h before =
      let value = strip cell in
      let (_, _, h1) =
        >>=-eq-ok (raise_if (ltb max_cell_characters (text_length value)) long_cell) _ h in
      subst (λ (t : Tally). t.populated + t.nulls ≡ rows + 1) (ok-injective h1)
        (cell-counts rows (str_eq value "") value (value_type value) (decimal_parts value) tally
          before)

  tally_row-IsCounted :
      (rows : ℕ) (row : List String) (tallies : List Tally) {counted : List Tally}
      → tally_row strip value_type decimal_parts max_cell_characters row tallies ≡ ok counted
      → IsCounted rows tallies
      → IsCounted (rows + 1) counted
  unfolding tally_row IsCounted
  tally_row-IsCounted rows row [] h all = subst (IsCounted (rows + 1)) (ok-injective h) tt
  tally_row-IsCounted rows [] (tally ∷ tallies) h all = cc h
  tally_row-IsCounted rows (cell ∷ cells) (tally ∷ tallies) h all =
      let (one, first, h1) =
        >>=-eq-ok (tally_cell strip value_type decimal_parts max_cell_characters cell tally) _ h in
      let (rest, more, h2) =
        >>=-eq-ok (tally_row strip value_type decimal_parts max_cell_characters cells tallies) _
          h1 in
      subst (IsCounted (rows + 1)) (ok-injective h2) (
        tally_cell-counts rows cell tally first all.0,
        tally_row-IsCounted rows cells tallies more all.1,
      )

  tally_line-IsCounted :
      (row : List String) (rows : ℕ) (tallies : List Tally) {next : ℕ × List Tally}
      → tally_line strip value_type decimal_parts max_cell_characters row rows tallies ≡ ok next
      → IsCounted rows tallies
      → IsCounted next.0 next.1
  unfolding tally_line
  tally_line-IsCounted [] rows tallies h all =
      subst (λ (n : ℕ × List Tally). IsCounted n.0 n.1) (ok-injective h) all
  tally_line-IsCounted (cell ∷ cells) rows tallies h all =
      let (_, _, h1) =
        >>=-eq-ok (raise_if (not (length (cell ∷ cells) == length tallies)) uneven_row) _ h in
      elim (Bool-cases (any (λ value. not (str_eq (strip value) "")) (cell ∷ cells))) [
        | inr blank ↦
            let same : (rows, tallies) ≡ _ = ok-injective (rw blank at h1) in
            subst (λ (n : ℕ × List Tally). IsCounted n.0 n.1) same all
        | inl filled ↦
            let (counted, did, same) =
              map_ok-ok (λ counted. (rows + 1, counted))
                (tally_row strip value_type decimal_parts max_cell_characters (cell ∷ cells)
                  tallies)
                (rw filled at h1) in
            subst (λ (n : ℕ × List Tally). IsCounted n.0 n.1) same
              (tally_row-IsCounted rows (cell ∷ cells) tallies did all)
      ]

  tally_rows-IsCounted :
      (lines : List (List String)) (rows : ℕ) (tallies : List Tally) {last : ℕ × List Tally}
      → tally_rows strip value_type decimal_parts max_cell_characters lines rows tallies ≡ ok last
      → IsCounted rows tallies
      → IsCounted last.0 last.1
  unfolding tally_rows
  tally_rows-IsCounted [] rows tallies h all =
      subst (λ (n : ℕ × List Tally). IsCounted n.0 n.1) (ok-injective h) all
  tally_rows-IsCounted (line ∷ lines) rows tallies h all =
      let (next, one, h1) =
        >>=-eq-ok (tally_line strip value_type decimal_parts max_cell_characters line rows tallies)
          _ h in
      tally_rows-IsCounted lines next.0 next.1 h1 (tally_line-IsCounted line rows tallies one all)

  -- A profile that is returned accounts for every counted row in every column, as a value or as a null,
  -- and each decimal precision is at most 38 and no smaller than its scale.
  pub profile_csv_rows-IsAccounted :
      (headers : List String) (lines : List (List String)) (row_count : ℕ)
      (columns : List CsvColumnProfile)
      → profile_csv_rows strip value_type decimal_parts max_cell_characters headers lines
        ≡ ok (row_count, columns)
      → IsAccounted row_count columns
  unfolding profile_csv_rows
  profile_csv_rows-IsAccounted headers lines row_count columns h =
      let (last, counted, h1) =
        >>=-eq-ok
          (tally_rows strip value_type decimal_parts max_cell_characters lines 0
            (no_tallies headers))
          _ h in
      let (found, made, h2) = >>=-eq-ok (column_profiles headers last.1) _ h1 in
      subst (λ (r : ℕ × List CsvColumnProfile). IsAccounted r.0 r.1) (ok-injective h2)
        (column_profiles-IsAccounted last.0 headers last.1 made (
          tally_rows-IsCounted lines 0 (no_tallies headers) counted (no_tallies-IsCounted headers)))
