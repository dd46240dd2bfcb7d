-- ===== src/Sessions/Accept.antt =====
-- The right password signs in where no lock holds, and what a sign-in under concurrent writes has
-- checked.
use user_token_management_ap.Prelude.{
  ℕ, ◌+◌, String, Bool, true, false, ◌≡◌, refl, Option, none, some, is_some, List, map, ok, err,
  leb, ahead, str_eq, if◌then◌else◌, arith, Option-cases, Bool-cases, inl, inr,
}
use user_token_management_ap.Identity.{
  account_locked_error, authentication_error, audited, User, Accounts, AuthError, find, is_active,
}
use user_token_management_ap.Sessions.Login.{
  is_unchanged, clear_failures, fail_login, pass_login, rehashed, check_login, authenticate_found,
  authenticate_user,
}

fail_login-error :
    (returning : Bool) (now : ℕ) (concurrent : List User → List User) (user : User) (db : Accounts)
    → (e : AuthError) × ((fail_login returning now concurrent user db).1 ≡ err e)
unfolding fail_login
fail_login-error returning now concurrent user db =
    elim (Option-cases (find (is_unchanged user) (concurrent db.users))) [
      | inl gone ↦ (account_locked_error, rw (fail_login, gone) refl)
      | inr (stored, found) ↦ elim (Bool-cases (leb 5 (stored.failed_login_attempts + 1))) [
        | inl fifth ↦ (account_locked_error, rw (fail_login, found, fifth) refl)
        | inr fewer ↦ (authentication_error, rw (fail_login, found, fewer) refl)
      ]
    ]

module _ (needs_rehash : String → Bool) (hash_password : String → String) (returning : Bool) where
  pass_login-ok :
      (now : ℕ) (concurrent : List User → List User) (password : String) (user stored : User)
      (db : Accounts)
      → find (is_unchanged user) (concurrent db.users) ≡ some stored
      → (last : Accounts) × (pass_login needs_rehash hash_password now concurrent password user db
          ≡ (last, ok (rehashed needs_rehash hash_password password (clear_failures now stored))))
  unfolding pass_login
  pass_login-ok now concurrent password user stored db found = (
    record db {
      users =
          map
            (λ u.
              if is_unchanged user u
              then rehashed needs_rehash hash_password password (clear_failures now u)
              else u)
            (concurrent db.users);
      audits = audited "auth.login" (some user.id) user.id db.audits;
    },
    rw (pass_login, found) refl,
  )

  pass_login-found :
      (now : ℕ) (concurrent : List User → List User) (password : String) (user row : User)
      (db last : Accounts)
      → pass_login needs_rehash hash_password now concurrent password user db ≡ (last, ok row)
      → (stored : User) × (find (is_unchanged user) (concurrent db.users) ≡ some stored)
        × (row ≡ rehashed needs_rehash hash_password password (clear_failures now stored))
  unfolding pass_login
  pass_login-found now concurrent password user row db last h =
      elim (Option-cases (find (is_unchanged user) (concurrent db.users))) [
        | inl gone ↦ cc (rw (pass_login, gone) at h)
        | inr (stored, found) ↦
            let (_, done) = pass_login-ok now concurrent password user stored db found in
            (stored, found, cc (done, h))
      ]

  check_login-ok :
      (now : ℕ) (concurrent : List User → List User) (valid : Bool) (password : String)
      (user row : User) (db last : Accounts)
      → check_login needs_rehash hash_password returning now concurrent valid password user db
        ≡ (last, ok row)
      → (valid ≡ true)
        × (is_active user ≡ true)
        × (is_some user.email_verified_at ≡ true)
        × (pass_login needs_rehash hash_password now concurrent password user db ≡ (last, ok row))
  unfolding check_login
  check_login-ok now concurrent valid password user row db last h =
      let (e, failed) = fail_login-error returning now concurrent user db in
      (
        ground (arith, failed),
        ground (arith, failed),
        ground (arith, failed),
        ground (arith, failed),
      )

  found-checked :
      (verify : String → Option String → Bool) (now : ℕ) (concurrent : List User → List User)
      (password : String) (o : Option User) (row : User) (db last : Accounts)
      → authenticate_found needs_rehash hash_password verify returning now concurrent password o db
        ≡ (last, ok row)
      → (read : User) × (o ≡ some read)
        × (ahead read.locked_until now ≡ false)
        × (check_login needs_rehash hash_password returning now concurrent
              (verify password read.password_hash)
              password
              read
              db
            ≡ (last, ok row))
  unfolding authenticate_found
  found-checked verify now concurrent password none row db last h = cc
  found-checked verify now concurrent password (some read) row db last h =
      (read, refl, ground arith, ground arith)

  -- A sign-in that returns, whatever other transactions commit while it runs: the row that the address
  -- found in the table is active and verified, no lock holds it and its hash accepts the password. When
  -- the failures were cleared the table still had a row of that user with fewer than five failures and
  -- that hash and version, and the user returned is that row, cleared and perhaps hashed again.
  pub authenticate_user-checked :
      (normalize_email : String → Option String) (verify : String → Option String → Bool) (now : ℕ)
      (concurrent : List User → List User) (email password : String) (row : User)
      (db last : Accounts)
      → authenticate_user needs_rehash hash_password normalize_email verify returning now concurrent
          email password db
        ≡ (last, ok row)
      → (canonical : String) × (read : User) × (stored : User) × (normalize_email email
          ≡ some canonical)
        × (find (λ u. str_eq u.email canonical) db.users ≡ some read)
        × (verify password read.password_hash ≡ true)
        × (ahead read.locked_until now ≡ false)
        × (is_active read ≡ true)
        × (is_some read.email_verified_at ≡ true)
        × (find (is_unchanged read) (concurrent db.users) ≡ some stored)
        × (row ≡ rehashed needs_rehash hash_password password (clear_failures now stored))
  unfolding authenticate_user
  authenticate_user-checked normalize_email verify now concurrent email password row db last h =
      elim (Option-cases (normalize_email email)) [
        | inl bad ↦ cc (rw (authenticate_user, bad) at h)
        | inr (canonical, address) ↦
            let (read, found, unlocked, checked) =
              found-checked verify now concurrent password
                (find (λ u. str_eq u.email canonical) db.users) row db last
                (rw (authenticate_user, address) at h) in
            let (right, active, verified, passed) =
              check_login-ok now concurrent (verify password read.password_hash) password read row
                db last checked in
            let (stored, met, same) =
              pass_login-found now concurrent password read row db last passed in
            (canonical, read, stored, address, found, right, unlocked, active, verified, met, same)
      ]
