-- ===== src/Columns/Selections.antt =====
-- A form that sends back the casts that were stored gives the same casts.
use user_token_management_ap.Prelude.{
  String, true, false, ◌≡◌, refl, Option, some, List, [], ◌∷◌, ◌++◌, map, All, ok, ltb, str_eq,
  arith, eq_iff, ap, sym, ◌∙◌, subst, text_length, Bool-cases, inl, inr,
}
use user_token_management_ap.Json.{Value, Items}
use user_token_management_ap.Columns.{store, member}
use user_token_management_ap.Columns.Overrides.{
  override_types, selection, parse_values, parse_column_type_override_values,
}

-- the value that the form sends for a cast
abbrev pub payload : String × String → Value
payload cast =
    Value.array (Items.cons (Value.text cast.0) (Items.cons (Value.text cast.1) Items.nil))

-- a cast that the program can have stored
unfoldable pub IsCast : String × String → Type 0
IsCast cast =
    (str_eq cast.0 "" ≡ false)
    × (member cast.1 override_types ≡ true)
    × (ltb 256 (text_length cast.0) ≡ false)

-- No two casts are of one column, and none is of these columns.
unfoldable pub IsDistinct : List String → List (String × String) → Type 0
IsDistinct seen [] = Unit
IsDistinct seen (cast ∷ casts) = (member cast.0 seen ≡ false) × IsDistinct (cast.0 ∷ seen) casts

-- A cast of a column that was not seen goes to the end.
store-new :
    (column selected : String) (done : List (String × String))
    → member column (map (λ c. c.0) done) ≡ false
    → store column selected done ≡ done ++ (column, selected) ∷ []
unfolding store
store-new column selected [] new = refl
store-new column selected (c ∷ cs) new = ground (arith, store-new column selected cs)

not_auto :
    (selected : String) → member selected override_types ≡ true → str_eq selected "auto" ≡ false
not_auto selected h = elim (Bool-cases (str_eq selected "auto")) [
  | inr other ↦ other
  | inl same ↦
      let it : selected ≡ "auto" = ground (arith, eq_iff selected "auto", same) in
      let no_such : false ≡ true = subst (λ s. member s override_types ≡ true) it h in cc (no_such)
]

member-append :
    (column : String) (cast : String × String) (done : List (String × String))
    → member column (map (λ c. c.0) done) ≡ false
    → str_eq cast.0 column ≡ false
    → member column (map (λ c. c.0) (done ++ cast ∷ [])) ≡ false
member-append column cast [] new other = ground arith
member-append column cast (c ∷ cs) new other = ground (arith, member-append column cast cs)

append_empty : (done : List (String × String)) → done ++ [] ≡ done
append_empty [] = refl
append_empty (c ∷ cs) = ap (λ rest. c ∷ rest) (append_empty cs)

append_append :
    (cast : String × String) (done casts : List (String × String))
    → (done ++ cast ∷ []) ++ casts ≡ done ++ cast ∷ casts
append_append cast [] casts = refl
append_append cast (c ∷ cs) casts = ap (λ rest. c ∷ rest) (append_append cast cs casts)

module _ (loads : String → Option Value) (dumps : Value → String) where
  step_lem :
      (cast : String × String) (values : List String) (done : List (String × String))
      (seen : List String)
      → loads (dumps (payload cast)) ≡ some (payload cast)
      → IsCast cast
      → member cast.0 seen ≡ false
      → parse_values loads (dumps (payload cast) ∷ values) done seen
        ≡ parse_values loads values (store cast.0 cast.1 done) (cast.0 ∷ seen)
  unfolding parse_values selection IsCast
  step_lem cast values done seen readable (named, typed, short) new =
      rw (readable, named, not_auto cast.1 typed, typed, new, short) refl

  parse_lem :
      (casts done : List (String × String)) (seen : List String)
      → All (λ c. loads (dumps (payload c)) ≡ some (payload c)) casts
      → All IsCast casts
      → IsDistinct seen casts
      → ((column : String)
          → member column seen ≡ false
          → member column (map (λ c. c.0) done) ≡ false)
      → parse_values loads (map (λ c. dumps (payload c)) casts) done seen ≡ ok (done ++ casts)
  unfolding parse_values IsDistinct
  parse_lem [] done seen readable all distinct covers = ap ok (sym (append_empty done))
  parse_lem (cast ∷ casts) done seen readable all distinct covers =
      let rest = map (λ c. dumps (payload c)) casts in
      let stored = store-new cast.0 cast.1 done (covers cast.0 distinct.0) in
      step_lem cast rest done seen readable.0 all.0 distinct.0
      ∙ ap (λ d. parse_values loads rest d (cast.0 ∷ seen)) stored
      ∙ parse_lem casts (done ++ cast ∷ []) (cast.0 ∷ seen) readable.1 all.1 distinct.1
          (λ column new.
            member-append column cast done (covers column (ground (arith, new)))
              (ground (arith, new)))
      ∙ ap ok (append_append cast done casts)

  -- The values that a form sends for stored casts, of distinct and named columns of at most 256
  -- characters, are read back as these casts in their order, where `json.loads` reads what `json.dumps`
  -- writes.
  pub parse_column_type_override_values-dumps :
      (casts : List (String × String))
      → All (λ c. loads (dumps (payload c)) ≡ some (payload c)) casts
      → All IsCast casts
      → IsDistinct [] casts
      → parse_column_type_override_values loads (map (λ c. dumps (payload c)) casts) ≡ ok casts
  unfolding parse_column_type_override_values
  parse_column_type_override_values-dumps casts readable all distinct =
      parse_lem casts [] [] readable all distinct (λ column new. refl)
