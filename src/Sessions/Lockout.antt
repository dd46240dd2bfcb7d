-- ===== src/Sessions/Lockout.antt =====
-- Wrong passwords lock an account for a time, and only for a time.
use user_token_management_ap.Prelude.{
  map, Bool-cases, ℕ, zero, suc, ◌+◌, String, Bool, true, false, ◌≡◌, refl, Option, none, some,
  is_some, err, leb, ahead, str_eq, ◌<◌, if◌then◌else◌, arith, ap, sym, ◌∙◌, subst, inl, inr,
}
use user_token_management_ap.Identity.{User, Accounts, account_locked_error, find, is_active}
use user_token_management_ap.Sessions.{Outcome, minutes}
use user_token_management_ap.Sessions.Rows.{
  Holds, Holds-found, Holds-alone, changed-Holds, unchanged-find,
}
use user_token_management_ap.Sessions.Login.{
  is_unchanged, flush_lifted, written_back, login_audited, lifted, count_failure, with_lock,
  fail_login, check_login, authenticate_found, authenticate_user,
}

-- the user's row with this many failures and no lock
unfoldable pub with_failures : ℕ → User → User
with_failures n user = record user { failed_login_attempts = n; locked_until = none }

unlocked-written_back :
    (returning : Bool) (user : User)
    → user.locked_until ≡ none
    → (stored : User) → written_back returning user stored ≡ stored
unfolding written_back flush_lifted
unlocked-written_back true user free stored = rw free refl
unlocked-written_back false user free stored = refl

-- the row after one more failure
abbrev failed_row : ℕ → User → User
failed_row now user =
    if leb 5 (user.failed_login_attempts + 1)
    then with_lock now (count_failure user)
    else count_failure user

module _ (needs_rehash : String → Bool) (hash_password : String → String)
    (normalize_email : String → Option String) (verify : String → Option String → Bool)
    (returning : Bool) (email canonical : String)
    (address : normalize_email email ≡ some canonical) where
  -- a sign-in with the row under its lock
  abbrev sign_in : ℕ → String → Accounts → Outcome User
  sign_in now password db =
      authenticate_user needs_rehash hash_password normalize_email verify returning now
        (λ users. users) email password db

  fail_login-Holds :
      (now : ℕ) (user : User) (db : Accounts)
      → Holds canonical user db.users
      → user.locked_until ≡ none
      → user.failed_login_attempts < 5
      → Holds canonical
          (failed_row now user)
          (fail_login returning now (λ users. users) user db).0.users
  unfolding fail_login with_lock count_failure
  fail_login-Holds now user db holds free few =
      let same = unlocked-written_back returning user free in
      let found =
        unchanged-find user user db.users refl refl refl few
          (Holds-alone canonical user db.users holds) in
      elim (Bool-cases (leb 5 (user.failed_login_attempts + 1))) [
        | inl last ↦
            rw (fail_login, found, last)
              (subst
                (λ r. Holds canonical (with_lock now r) (
                  map
                    (λ u.
                      if is_unchanged user u
                      then with_lock now (written_back returning user (count_failure u))
                      else u)
                    db.users))
                (same (count_failure user))
                (changed-Holds canonical
                  (λ u. with_lock now (written_back returning user (count_failure u))) user db.users
                  (λ u. ap (λ (v : User). v.id) (same (count_failure u)))
                  (λ u. ap (λ (v : User). v.email) (same (count_failure u))) found holds))
        | inr more ↦
            rw (fail_login, found, more)
              (subst
                (λ r. Holds canonical r (
                  map
                    (λ u.
                      if is_unchanged user u
                      then written_back returning user (count_failure u)
                      else u)
                    db.users))
                (same (count_failure user))
                (changed-Holds canonical (λ u. written_back returning user (count_failure u)) user
                  db.users (λ u. ap (λ (v : User). v.id) (same (count_failure u)))
                  (λ u. ap (λ (v : User). v.email) (same (count_failure u))) found holds))
      ]

  check_login-false :
      (now : ℕ) (password : String) (user : User) (db : Accounts)
      → user.locked_until ≡ none
      → user.failed_login_attempts < 5
      → is_active user ≡ true
      → is_some user.email_verified_at ≡ true
      → check_login needs_rehash hash_password returning now (λ users. users) false password user db
        ≡ fail_login returning now (λ users. users) user db
  unfolding check_login lifted
  check_login-false now password user db free few active verified =
      let few' : leb 5 user.failed_login_attempts ≡ false = ground (arith, few) in
      rw (free, few', active, verified) refl

  -- A wrong password against a row without a lock counts one failure.
  sign_in-counts :
      (now : ℕ) (password : String) (user : User) (db : Accounts)
      → Holds canonical user db.users
      → user.locked_until ≡ none
      → user.failed_login_attempts < 5
      → is_active user ≡ true
      → is_some user.email_verified_at ≡ true
      → verify password user.password_hash ≡ false
      → sign_in now password db ≡ fail_login returning now (λ users. users) user db
  unfolding authenticate_user authenticate_found
  sign_in-counts now password user db holds free few active verified wrong =
      let found = Holds-found canonical user db.users holds in
      let closed : ahead user.locked_until now ≡ false = rw free refl in
      rw (address, authenticate_user, found, authenticate_found, closed, wrong)
        (check_login-false now password user db free few active verified)

  -- the tables after n sign-ins, each at its time and with its password
  unfoldable pub tries : (ℕ → ℕ) → (ℕ → String) → ℕ → Accounts → Accounts
  unfolding authenticate_user
  tries times passwords zero db = db
  tries times passwords (suc n) db =
      (sign_in (times n) (passwords n) (tries times passwords n db)).0

  -- One wrong password more, on the tables after some.
  sign_in-Holds :
      (now : ℕ) (password : String) (n : ℕ) (user : User) (db : Accounts)
      → is_active user ≡ true
      → is_some user.email_verified_at ≡ true
      → verify password user.password_hash ≡ false
      → n < 5
      → Holds canonical (with_failures n user) db.users
      → Holds canonical (failed_row now (with_failures n user)) (sign_in now password db).0.users
  unfolding with_failures is_active
  sign_in-Holds now password n user db active verified wrong few holds =
      subst
        (λ (o : Outcome User). Holds canonical (failed_row now (with_failures n user)) o.0.users)
        (sym (
          sign_in-counts now password (with_failures n user) db holds refl few active verified
            wrong))
        (fail_login-Holds now (with_failures n user) db holds refl few)

  -- As long as they are fewer than five, wrong passwords are counted.
  tries-Holds :
      (times : ℕ → ℕ) (passwords : ℕ → String) (user : User) (db : Accounts)
      → is_active user ≡ true
      → is_some user.email_verified_at ≡ true
      → ((k : ℕ) → verify (passwords k) user.password_hash ≡ false)
      → Holds canonical (with_failures 0 user) db.users
      → (n : ℕ) → n < 5
      → Holds canonical (with_failures n user) (tries times passwords n db).users
  unfolding tries with_failures is_active count_failure
  tries-Holds times passwords user db active verified wrong holds zero few = holds
  tries-Holds times passwords user db active verified wrong holds (suc n) few =
      let before =
        tries-Holds times passwords user db active verified wrong holds n (ground arith) in
      let more : leb 5 (n + 1) ≡ false = ground (arith, few) in
      let next : n + 1 ≡ suc n = ground arith in
      subst (λ (r : User). Holds canonical r (tries times passwords (suc n) db).users)
        (ap
            (λ b.
              if b
              then with_lock (times n) (count_failure (with_failures n user))
              else count_failure (with_failures n user))
            more
          ∙ ap (λ m. with_failures m user) next)
        (sign_in-Holds (times n) (passwords n) n user (tries times passwords n db) active verified
          (wrong n) (ground arith) before)

  -- A lock that has not ended refuses every password.
  locked-refused :
      (now until : ℕ) (password : String) (user : User) (db : Accounts)
      → find (λ u. str_eq u.email canonical) db.users ≡ some user
      → user.locked_until ≡ some until
      → now < until
      → sign_in now password db ≡ (login_audited (some user) "locked" db, err account_locked_error)
  unfolding authenticate_user authenticate_found
  locked-refused now until password user db found locked early =
      let closed : ahead user.locked_until now ≡ true = rw locked (ground (arith, early)) in
      rw (address, authenticate_user, found, authenticate_found, closed) refl

  -- A user who is active and verified and has no lock is locked out by five wrong passwords: until
  -- fifteen minutes after the fifth, no password signs in, and none changes the users.
  pub authenticate_user-lockout :
      (times : ℕ → ℕ) (passwords : ℕ → String) (user : User) (db : Accounts) (now : ℕ)
      (password : String)
      → is_active user ≡ true
      → is_some user.email_verified_at ≡ true
      → ((k : ℕ) → verify (passwords k) user.password_hash ≡ false)
      → Holds canonical (with_failures 0 user) db.users
      → now < times 4 + minutes 15
      → (last : Accounts) × (authenticate_user needs_rehash hash_password normalize_email verify
            returning now
            (λ users. users)
            email
            password
            (tries times passwords 5 db)
          ≡ (last, err account_locked_error))
        × (last.users ≡ (tries times passwords 5 db).users)
  unfolding tries with_failures with_lock count_failure
  authenticate_user-lockout times passwords user db now password active verified wrong holds early =
      let fourth =
        tries-Holds times passwords user db active verified wrong holds 4 (ground arith) in
      let fifth =
        sign_in-Holds (times 4) (passwords 4) 4 user (tries times passwords 4 db) active verified
          (wrong 4) (ground arith) fourth in
      let found = Holds-found canonical _ _ fifth in
      (
        login_audited (some (failed_row (times 4) (with_failures 4 user))) "locked"
            (tries times passwords 5 db),
        locked-refused now (times 4 + minutes 15) password
            (failed_row (times 4) (with_failures 4 user)) (tries times passwords 5 db) found refl
            early,
        refl,
      )
