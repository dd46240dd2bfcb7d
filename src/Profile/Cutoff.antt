-- ===== src/Profile/Cutoff.antt =====
-- A new password, by a change or by a reset, cuts off what the old one opened.
use user_token_management_ap.Prelude.{
  ℕ, String, Bool, true, false, not, ◌≡◌, ◌≢◌, refl, Option, none, some, List, [], ◌∷◌, Result, ok,
  err, ◌==◌, ◌<◌, length, select, arith, >>=-eq-ok, ok-injective, raise_if, ap, sym, ◌∙◌, subst,
}
use user_token_management_ap.Identity.{
  revoke_all_sessions, User, Accounts, AuthError, authentication_error, current_password_error,
  find, put_user,
}
use user_token_management_ap.Resets.Complete.{
  complete_password_reset, with_password, complete_reset,
}
use user_token_management_ap.Resets.Laws.{
  has_session, unused, revoke_all_sessions-has_session, completed_lem, use_all-unused,
}
use user_token_management_ap.Sessions.{Settings, SessionRequest, is_lockable, create_session}
use user_token_management_ap.Sessions.Alive.{find-passes}
use user_token_management_ap.Resets.{use_all}
use user_token_management_ap.Profile.{write_password, present, change_password}

-- Every row of the user has another version than this one.
IsNewer : ℕ → ℕ → List User → Type 0
IsNewer user version users = length (select (is_lockable user version) users) ≡ 0

put-IsNewer :
    (row : User) (user version : ℕ) (users : List User)
    → row.id ≡ user
    → row.security_version ≢ version
    → IsNewer user version (put_user row users)
unfolding IsNewer is_lockable put_user
put-IsNewer row user version [] e n = refl
put-IsNewer row user version (u ∷ us) e n = ground (arith, put-IsNewer row user version us e n)

newer-refused :
    (hash_token : ℕ → ℕ) (access_token : User → ℕ → ℕ) (settings : Settings) (now : ℕ)
    (request : SessionRequest) (stale : User) (db : Accounts)
    → IsNewer stale.id stale.security_version db.users
    → create_session hash_token access_token settings now request stale none db
      ≡ (db, err authentication_error)
unfolding create_session IsNewer
newer-refused hash_token access_token settings now request stale db h = rw h refl

present_lem : (o : Option User) {user : User} → present o ≡ ok user → o ≡ some user
present_lem none h = cc h
present_lem (some u) h = ap some (ok-injective h)

module _ (verify : String → Option String → Bool)
    (validate_password : String → String → Result AuthError String)
    (hash_password : String → String) (app_name : String) (clock : ℕ → ℕ) (message_id user_id : ℕ)
    (current_password new_password : String) where
  change_password-ok :
      (db db' : Accounts)
      → change_password verify validate_password hash_password app_name clock message_id user_id
          current_password new_password db
        ≡ ok db'
      → (row : User) × (hashed : String) × (find (λ u. u.id == user_id) db.users ≡ some row)
        × (verify current_password row.password_hash ≡ true)
        × (write_password app_name clock message_id hashed row db ≡ db')
  unfolding change_password
  change_password-ok db db' h =
      let (row, got, h1) = >>=-eq-ok (present (find (λ u. u.id == user_id) db.users)) _ h in
      let (_, passed, h2) =
        >>=-eq-ok
          (raise_if (not (verify current_password row.password_hash)) current_password_error) _
          h1 in
      let (validated, _, h3) = >>=-eq-ok (validate_password new_password row.email) _ h2 in
      (
        row,
        hash_password validated,
        present_lem (find (λ u. u.id == user_id) db.users) got,
        ground (arith, passed),
        ok-injective h3,
      )

  -- A change of the password that returns was made with the current password of the user's row, and
  -- leaves the user no session that was not revoked and no reset that was not used.
  pub change_password-closes :
      (db db' : Accounts)
      → change_password verify validate_password hash_password app_name clock message_id user_id
          current_password new_password db
        ≡ ok db'
      → (row : User) × (find (λ u. u.id == user_id) db.users ≡ some row)
        × (verify current_password row.password_hash ≡ true)
        × (has_session user_id db'.sessions ≡ false)
        × (unused user_id db'.resets ≡ [])
  unfolding write_password
  change_password-closes db db' h =
      let (row, hashed, found, passed, same) = change_password-ok db db' h in
      let id : row.id ≡ user_id =
        ground (arith, find-passes (λ (u : User). u.id == user_id) db.users found) in
      (
        row,
        found,
        passed,
        ap (λ (d : Accounts). has_session user_id d.sessions) (sym same)
            ∙ ap (λ n. has_session user_id (revoke_all_sessions (clock 1) n db.sessions)) id
            ∙ revoke_all_sessions-has_session (clock 1) user_id db.sessions,
        ap (λ (d : Accounts). unused user_id d.resets) (sym same)
            ∙ ap (λ n. unused user_id (use_all (clock 0) n db.resets)) id
            ∙ use_all-unused (clock 0) user_id db.resets,
      )

  -- After a change of the password, a sign-in that read the user's row before the change opens no session.
  pub change_password-outdates :
      (hash_token : ℕ → ℕ) (access_token : User → ℕ → ℕ) (settings : Settings) (now : ℕ)
      (request : SessionRequest) (stale : User) (db db' : Accounts)
      → find (λ u. u.id == user_id) db.users ≡ some stale
      → change_password verify validate_password hash_password app_name clock message_id user_id
          current_password new_password db
        ≡ ok db'
      → create_session hash_token access_token settings now request stale none db'
        ≡ (db', err authentication_error)
  unfolding write_password with_password
  change_password-outdates hash_token access_token settings now request stale db db' found h =
      let (row, hashed, there, passed, same) = change_password-ok db db' h in
      let it : row ≡ stale = cc (found, there) in
      newer-refused hash_token access_token settings now request stale db' (
        subst (λ (d : Accounts). IsNewer stale.id stale.security_version d.users) same
          (put-IsNewer (with_password (clock 0) hashed row) stale.id stale.security_version db.users
            (ap (λ (u : User). u.id) it)
            (λ e. ground (arith, ap (λ (u : User). u.security_version) it, e))))

module _ (hash_token : ℕ → ℕ) (validate_password : String → String → Result AuthError String)
    (hash_password : String → String) (app_name : String) (clock : ℕ → ℕ) (raw_token : ℕ)
    (password : String) (message_id : ℕ) where
  -- After a completed reset, a sign-in that read an earlier version of the user's row opens no session.
  pub complete_password_reset-outdates :
      (access_token : User → ℕ → ℕ) (settings : Settings) (now : ℕ) (request : SessionRequest)
      (stale : User) (db db' : Accounts) (user : User)
      → complete_password_reset hash_token validate_password hash_password app_name clock raw_token
          password message_id db
        ≡ ok (db', user)
      → stale.id ≡ user.id
      → stale.security_version < user.security_version
      → create_session hash_token access_token settings now request stale none db'
        ≡ (db', err authentication_error)
  unfolding complete_reset
  complete_password_reset-outdates access_token settings now request stale db db' user h id older =
      let (_, owner, hashed, _, _, _, same) =
        completed_lem hash_token validate_password hash_password app_name clock raw_token password
          message_id db h in
      newer-refused hash_token access_token settings now request stale db' (
        subst (λ (d : Accounts × User). IsNewer stale.id stale.security_version d.0.users)
          (sym same)
          (put-IsNewer (with_password (clock 1) hashed owner) stale.id stale.security_version
            db.users (sym (id ∙ ap (λ (d : Accounts × User). d.1.id) same))
            (λ e.
              ground (arith, older, e, ap (λ (d : Accounts × User). d.1.security_version) same))))
