-- ===== src/Columns/Lossless.antt =====
-- A destination that the check lets pass holds every decimal of the source.
use Prim.Native.Nat.{zero, suc}
use native.Mathlib.Nat.{mul-lt-mul_of_pos_right, mul_assoc, pow-le-pow_right, one-le-pow, pow-suc}
use user_token_management_ap.Prelude.{
  ℕ, ◌+◌, ◌-◌, ◌*◌, ◌^◌, String, Bool, true, false, not, ◌||◌, ◌≡◌, Option, some, List, [], ◌∷◌, ok,
  raise_if, ltb, ◌≤◌, ◌<◌, str_eq, arith, eq_iff, ap, sym, ◌∙◌, subst, >>=-eq-ok, Bool-cases, inl,
  inr,
}
use user_token_management_ap.Columns.{lookup}
use user_token_management_ap.Columns.Decimals.{
  ColumnSchema, schema_drift, is_numeric, source_decimals, source_unbounded, destinations_of,
  takes_decimal, check_unbounded, check_decimals, validate_decimal_destination_schema,
}

power_add : (k a : ℕ) → 10 ^ (a + k) ≡ 10 ^ a * 10 ^ k
power_add zero a =
    let same : a + 0 ≡ a = ground arith in
    let once : 10 ^ a ≡ 10 ^ a * 1 = ground arith in ap (λ n. 10 ^ n) same ∙ once
power_add (suc k) a =
    let next : a + suc k ≡ suc (a + k) = ground arith in
    ap (λ n. 10 ^ n) next
    ∙ pow-suc 10 (a + k)
    ∙ ap (λ n. n * 10) (power_add k a)
    ∙ mul_assoc (10 ^ a) (10 ^ k) 10
    ∙ ap (λ n. 10 ^ a * n) (sym (pow-suc 10 k))

-- A number of at most p digits stays within dp digits when it is moved by d places, if p + d ≤ dp.
moved_lem : (n p d dp : ℕ) → n < 10 ^ p → p + d ≤ dp → n * 10 ^ d < 10 ^ dp
moved_lem n p d dp small room =
    let positive : 0 < 10 ^ d = one-le-pow d 10 (ground arith) in
    let moved : n * 10 ^ d < 10 ^ p * 10 ^ d = mul-lt-mul_of_pos_right small positive in
    let wide : 10 ^ (p + d) ≤ 10 ^ dp = pow-le-pow_right (ground arith) room in
    let sum = power_add d p in ground (arith, moved, wide, sum)

module _ (decimal_shape : String → Option (ℕ × ℕ)) (is_unbounded : String → Bool)
    (casefold : String → String) where
  checked_lem :
      (name : String) (sources : List (String × (ℕ × ℕ))) (destinations : List (String × String))
      {shape : ℕ × ℕ}
      → check_decimals decimal_shape is_unbounded casefold sources destinations ≡ ok tt
      → lookup name sources ≡ some shape
      → takes_decimal decimal_shape is_unbounded casefold shape (lookup name destinations) ≡ true
  unfolding check_decimals lookup
  checked_lem name [] destinations h found = cc found
  checked_lem name (source ∷ sources) destinations {shape} h found =
      let (_, passed, rest) =
        >>=-eq-ok
          (raise_if
            (not (
              takes_decimal decimal_shape is_unbounded casefold source.1
                (lookup source.0 destinations)))
            schema_drift)
          _ h in
      elim (Bool-cases (str_eq source.0 name)) [
        | inl same ↦
            let it : source.0 ≡ name = ground (arith, eq_iff source.0 name, same) in
            let taken : takes_decimal decimal_shape is_unbounded casefold source.1
                  (lookup source.0 destinations)
                ≡ true =
              ground (arith, passed) in
            let value : source.1 ≡ shape = cc (rw (same, lookup) at found) in
            subst
              (λ n.
                takes_decimal decimal_shape is_unbounded casefold shape (lookup n destinations)
                ≡ true)
              it
              (subst
                (λ v.
                  takes_decimal decimal_shape is_unbounded casefold v (lookup source.0 destinations)
                  ≡ true)
                value taken)
        | inr other ↦ checked_lem name sources destinations rest (rw (other, lookup) at found)
      ]

  -- Where the check lets a destination column of a stated decimal shape pass for a source column of a
  -- stated shape, its scale is no smaller, and every number of the source's precision, moved to the
  -- destination's scale, is within the destination's precision: nothing is rounded or cut off.
  pub validate_decimal_destination_schema-lossless :
      (source_columns destination_columns : List ColumnSchema) (name t : String) (p s dp ds n : ℕ)
      → validate_decimal_destination_schema decimal_shape is_unbounded casefold source_columns
          destination_columns
        ≡ ok tt
      → lookup name (source_decimals decimal_shape is_unbounded casefold source_columns [])
        ≡ some (p, s)
      → lookup name (destinations_of decimal_shape is_unbounded casefold destination_columns [])
        ≡ some t
      → is_numeric t ≡ false
      → decimal_shape t ≡ some (dp, ds)
      → n < 10 ^ p
      → (s ≤ ds) × (n * 10 ^ (ds - s) < 10 ^ dp)
  unfolding validate_decimal_destination_schema
  validate_decimal_destination_schema-lossless source_columns destination_columns name t p s dp ds n
        h source destination bounded shape small =
      let destinations =
        destinations_of decimal_shape is_unbounded casefold destination_columns [] in
      let (_, _, checked) =
        >>=-eq-ok
          (check_unbounded decimal_shape is_unbounded casefold
            (source_unbounded decimal_shape is_unbounded casefold source_columns) destinations)
          _ h in
      let taken =
        checked_lem name (source_decimals decimal_shape is_unbounded casefold source_columns [])
          destinations checked source in
      let fits : not (ltb ds s || ltb (dp + s) (p + ds)) ≡ true =
        rw (destination, bounded, shape) at taken in
      let enough : s ≤ ds = ground (arith, fits) in
      let room : p + (ds - s) ≤ dp = ground (arith, fits, enough) in
      (enough, moved_lem n p (ds - s) dp small room)
