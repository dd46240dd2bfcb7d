-- ===== src/Sessions/Login.antt =====
-- `authenticate_user` of app/services/sessions.py. `concurrent` is
-- what other transactions commit between the read of the user's row and the conditional update, which
-- is nothing where the database locks the row that is read. `returning` tells PostgreSQL, whose update
-- returns its values, from SQLite, where the row is read again. The sessions are made with
-- `autoflush=False`, so what the code assigns to the row it read is written by the commit, after the
-- conditional update, and not at all where the row is read again first.
use user_token_management_ap.Prelude.{
  ℕ, ◌+◌, String, Bool, true, false, ◌&&◌, Option, none, some, is_some, List, map, ◌==◌, ltb, leb,
  ahead, str_eq, if◌then◌else◌,
}
use user_token_management_ap.Identity.{
  User, Accounts, authentication_error, account_locked_error, find, put_user, is_active,
  is_pending_status, audited, record_event,
}
use user_token_management_ap.Sessions.{minutes, Outcome, committed, refused}

-- `column == value`, where a null equals only `None`
abbrev pub same_hash : Option String → Option String → Bool
same_hash none none = true
same_hash none (some b) = false
same_hash (some a) none = false
same_hash (some a) (some b) = str_eq a b

-- the audit row of a sign-in
abbrev pub login_audited : Option User → String → Accounts → Accounts
login_audited none outcome db = record db {
  audits = record_event "auth.login" none none outcome db.audits;
}
login_audited (some user) outcome db = record db {
  audits = record_event "auth.login" none (some user.id) outcome db.audits;
}

-- `_LOGIN_LOCKOUT_ATTEMPTS` and `_LOGIN_LOCKOUT_DURATION`
abbrev pub lockout_attempts : ℕ
lockout_attempts = 5

abbrev pub lockout_until : ℕ → ℕ
lockout_until now = now + minutes 15

-- a lock in the past is lifted from the row
unfoldable pub lifted : User → User
lifted user =
    if is_some user.locked_until
    then record user { failed_login_attempts = 0; locked_until = none }
    else user

-- what the commit writes of these assignments: the columns that changed
unfoldable pub flush_lifted : User → User → User
flush_lifted user stored =
    if is_some user.locked_until
    then record stored {
      failed_login_attempts =
          if user.failed_login_attempts == 0 then stored.failed_login_attempts else 0;
      locked_until = none;
    }
    else stored

-- the condition of both updates: the row is the one against which the password was checked
unfoldable pub is_unchanged : User → User → Bool
is_unchanged user stored =
    stored.id == user.id
    && ltb stored.failed_login_attempts lockout_attempts
    && same_hash stored.password_hash user.password_hash
    && stored.security_version == user.security_version

-- the values of the two updates
unfoldable pub count_failure : User → User
count_failure stored = record stored {
  failed_login_attempts = stored.failed_login_attempts + 1;
  locked_until = none;
}

unfoldable pub clear_failures : ℕ → User → User
clear_failures now stored = record stored {
  failed_login_attempts = 0;
  locked_until = none;
  last_login_at = some now;
}

abbrev pub on_row : ℕ → (User → User) → List User → List User
on_row user change users = map (λ u. if u.id == user then change u else u) users

-- The commit writes the lifted columns on PostgreSQL; on SQLite the row was read again before.
unfoldable pub written_back : Bool → User → User → User
unfolding flush_lifted
written_back true user stored = flush_lifted user stored
written_back false user stored = stored

unfoldable pub with_lock : ℕ → User → User
with_lock now stored = record stored { locked_until = some (lockout_until now) }

-- no row was met: what was assigned is written by the commit
abbrev pub locked_out : (List User → List User) → User → Accounts → Outcome User
locked_out concurrent user db =
    refused
      (login_audited (some user) "locked"
        (record db { users = on_row user.id (flush_lifted user) (concurrent db.users) }))
      account_locked_error

-- the update that counts a failure, the lock that its fifth brings, and the audit row
unfoldable pub fail_login : Bool → ℕ → (List User → List User) → User → Accounts → Outcome User
unfolding find flush_lifted written_back is_unchanged count_failure with_lock
fail_login returning now concurrent user db =
    elim (find (is_unchanged user) (concurrent db.users)) [
      | none ↦ locked_out concurrent user db
      | some stored ↦
          if leb lockout_attempts (stored.failed_login_attempts + 1)
          then refused
              (login_audited (some user) "locked" (record db {
                users =
                    map
                      (λ u.
                        if is_unchanged user u
                        then with_lock now (written_back returning user (count_failure u))
                        else u)
                      (concurrent db.users);
              }))
              account_locked_error
          else refused
              (login_audited (some user) "failure" (record db {
                users =
                    map
                      (λ u.
                        if is_unchanged user u
                        then written_back returning user (count_failure u)
                        else u)
                      (concurrent db.users);
              }))
              authentication_error
    ]

module _ (needs_rehash : String → Bool) (hash_password : String → String) where
  -- the hash of the password again, where the parameters of the hash have changed
  unfoldable pub rehashed : String → User → User
  rehashed password stored = elim stored.password_hash [
    | none ↦ stored
    | some hash ↦
        if needs_rehash hash
        then record stored { password_hash = some (hash_password password) }
        else stored
  ]

  -- The update that clears the failures, on a row that is still the checked one; the row is read again
  -- after it.
  unfoldable pub pass_login : ℕ → (List User → List User) → String → User → Accounts → Outcome User
  unfolding find flush_lifted is_unchanged clear_failures rehashed put_user
  pass_login now concurrent password user db =
      elim (find (is_unchanged user) (concurrent db.users)) [
        | none ↦ locked_out concurrent user db
        | some stored ↦
            let signed_in = rehashed password (clear_failures now stored) in
            committed
              (record db {
                users =
                    map
                      (λ u.
                        if is_unchanged user u then rehashed password (clear_failures now u) else u)
                      (concurrent db.users);
                audits = audited "auth.login" (some user.id) user.id db.audits;
              })
              signed_in
      ]

  -- the branches on a row that no lock holds; `user` is the row as it was read
  unfoldable pub check_login :
      Bool → ℕ → (List User → List User) → Bool → String → User → Accounts → Outcome User
  unfolding lifted put_user with_lock is_active fail_login pass_login
  check_login returning now concurrent valid password user db =
      let current = lifted user in
      if leb lockout_attempts current.failed_login_attempts
      then refused
          (login_audited (some user) "locked"
            (record db { users = put_user (with_lock now current) db.users }))
          account_locked_error
      else (if valid && is_pending_status user.status && is_some user.email_verified_at
          then refused
              (login_audited (some user) "pending_approval"
                (record db { users = put_user current db.users }))
              authentication_error
          else (if is_active user && is_some user.email_verified_at
              then (if valid
                  then pass_login now concurrent password user db
                  else fail_login returning now concurrent user db)
              else refused (record db { users = put_user current db.users }) authentication_error))

  unfoldable pub authenticate_found :
      (String → Option String → Bool)
      → Bool
      → ℕ
      → (List User → List User)
      → String
      → Option User
      → Accounts
      → Outcome User
  unfolding check_login
  authenticate_found verify returning now concurrent password none db =
      refused db authentication_error
  authenticate_found verify returning now concurrent password (some user) db =
      if ahead user.locked_until now
      then refused (login_audited (some user) "locked" db) account_locked_error
      else check_login returning now concurrent (verify password user.password_hash) password user
          db

  -- `authenticate_user`
  unfoldable pub authenticate_user :
      (String → Option String)
      → (String → Option String → Bool)
      → Bool
      → ℕ
      → (List User → List User)
      → String
      → String
      → Accounts
      → Outcome User
  unfolding find authenticate_found
  authenticate_user normalize_email verify returning now concurrent email password db =
      elim (normalize_email email) [
        | none ↦ refused db authentication_error
        | some canonical ↦
            authenticate_found verify returning now concurrent password
              (find (λ u. str_eq u.email canonical) db.users) db
      ]
