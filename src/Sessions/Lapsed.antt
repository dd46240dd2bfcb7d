-- ===== src/Sessions/Lapsed.antt =====
-- The first sign-in after a lock has ended, by `authenticate_user` of app/services/sessions.py.
use user_token_management_ap.Prelude.{
  ℕ, String, Bool, true, false, ◌≡◌, refl, Option, none, some, is_some, List, err, ◌==◌, ahead, ◌≤◌,
  if◌then◌else◌, arith, subst,
}
use user_token_management_ap.Identity.{account_locked_error, User, Accounts, find, is_active}
use user_token_management_ap.Sessions.Rows.{Holds, Holds-found, Holds-alone, Holds-map, full-find}
use user_token_management_ap.Sessions.Login.{
  lifted, flush_lifted, is_unchanged, on_row, fail_login, pass_login, check_login,
  authenticate_found, authenticate_user, locked_out,
}

flush-Holds :
    (email : String) (user : User) (users : List User)
    → Holds email user users
    → Holds email (flush_lifted user user) (on_row user.id (flush_lifted user) users)
unfolding flush_lifted
flush-Holds email user users holds =
    subst (λ r. Holds email r (on_row user.id (flush_lifted user) users)) (ground arith)
      (Holds-map email (λ u. if u.id == user.id then flush_lifted user u else u) user users
        (λ u. ground arith) (λ u. ground arith) holds)

-- what the commit writes on the row of a user whose lock has ended and who had failures
lapsed_row :
    (user : User)
    → 5 ≤ user.failed_login_attempts
    → is_some user.locked_until ≡ true
    → flush_lifted user user ≡ record user { failed_login_attempts = 0; locked_until = none }
unfolding flush_lifted
lapsed_row user full locked = ground arith

module _ (needs_rehash : String → Bool) (hash_password : String → String) (returning : Bool) where
  check_login-lapsed :
      (now : ℕ) (valid : Bool) (password : String) (user : User) (db : Accounts)
      → is_some user.locked_until ≡ true
      → is_active user ≡ true
      → is_some user.email_verified_at ≡ true
      → find (is_unchanged user) db.users ≡ none
      → check_login needs_rehash hash_password returning now (λ users. users) valid password user db
        ≡ locked_out (λ users. users) user db
  unfolding check_login lifted is_active fail_login pass_login
  check_login-lapsed now valid password user db locked active verified gone = ground arith

  -- An active and verified user with five failures or more, whose lock has ended: the next sign-in is
  -- refused as locked, with any password, the right one included, and leaves the user's row without a
  -- failure and without a lock.
  pub authenticate_user-lapsed :
      (normalize_email : String → Option String) (verify : String → Option String → Bool)
      (now until : ℕ) (email canonical password : String) (user : User) (db : Accounts)
      → normalize_email email ≡ some canonical
      → Holds canonical user db.users
      → user.locked_until ≡ some until
      → until ≤ now
      → 5 ≤ user.failed_login_attempts
      → is_active user ≡ true
      → is_some user.email_verified_at ≡ true
      → (last : Accounts) × (authenticate_user needs_rehash hash_password normalize_email verify
            returning now
            (λ users. users)
            email
            password
            db
          ≡ (last, err account_locked_error))
        × Holds canonical
            (record user { failed_login_attempts = 0; locked_until = none })
            last.users
  unfolding authenticate_user authenticate_found
  authenticate_user-lapsed normalize_email verify now until email canonical password user db address
        holds locked ended full active verified =
      let found = Holds-found canonical user db.users holds in
      let gone = full-find user db.users full (Holds-alone canonical user db.users holds) in
      let unlocked : ahead user.locked_until now ≡ false = rw locked (ground (arith, ended)) in
      let there : is_some user.locked_until ≡ true = rw locked refl in
      let row = lapsed_row user full there in
      (
        (locked_out (λ users. users) user db).0,
        rw (address, authenticate_user, found, authenticate_found, unlocked)
            (check_login-lapsed now (verify password user.password_hash) password user db there
              active verified gone),
        subst (λ r. Holds canonical r (on_row user.id (flush_lifted user) db.users)) row
            (flush-Holds canonical user db.users holds),
      )
