-- ===== src/Resets/Laws.antt =====
-- A reset token is accepted once, and its completion ends everything that the old password opened.
use user_token_management_ap.Identity.{
  is_active, token_flow_error, Accounts, revoke_all_sessions, RefreshSession, find, PasswordReset,
  AuthError, User, put_user,
}
use user_token_management_ap.Prelude.{
  ℕ, String, Bool, false, not, ◌&&◌, ◌≡◌, refl, Option, none, some, is_none, List, [], ◌∷◌, ◌++◌,
  map, Result, ok, err, raise_if, ◌==◌, length, select, any, if◌then◌else◌, arith, >>=-eq-ok,
  ok-injective, subst, sym, ap, ◌∙◌, Option-cases, Bool-cases, inl, inr,
}
use user_token_management_ap.Resets.{is_unused_of, use_up, use_all, issue_reset, ResetRequest}
use user_token_management_ap.Resets.Complete.{
  valid_reset, require, get_valid_password_reset, is_consumable, consume, with_password,
  complete_reset, complete_password_reset,
}

put_user-find :
    (row : User) (users : List User) {user : User}
    → find (λ u. u.id == row.id) users ≡ some user
    → find (λ u. u.id == row.id) (put_user row users) ≡ some row
unfolding find put_user
put_user-find row [] {user} h = cc h
put_user-find row (u ∷ us) {user} h = ground (arith, put_user-find row us {user = user})

-- Whether the user has a session that was not revoked, or a reset that was not used.
unfoldable pub has_session : ℕ → List RefreshSession → Bool
has_session user sessions = any (λ s. s.user_id == user && is_none s.revoked_at) sessions

unfoldable pub unused : ℕ → List PasswordReset → List PasswordReset
unused user resets = select (is_unused_of user) resets

pub revoke_all_sessions-has_session :
    (now user : ℕ) (sessions : List RefreshSession)
    → has_session user (revoke_all_sessions now user sessions) ≡ false
unfolding has_session revoke_all_sessions
revoke_all_sessions-has_session now user [] = refl
revoke_all_sessions-has_session now user (s ∷ ss) =
    ground (arith, revoke_all_sessions-has_session now user ss)

pub use_all-unused :
    (now user : ℕ) (resets : List PasswordReset) → unused user (use_all now user resets) ≡ []
unfolding unused use_all use_up
use_all-unused now user [] = refl
use_all-unused now user (r ∷ rs) = ground (arith, use_all-unused now user rs)

unused-append :
    (now user : ℕ) (resets : List PasswordReset) (r : PasswordReset)
    → r.user_id ≡ user
    → r.used_at ≡ none
    → map (λ x. x.token_hash) (unused user (use_all now user resets ++ r ∷ [])) ≡ r.token_hash ∷ []
unfolding unused use_all use_up
unused-append now user [] r u n = ground (arith, u, n)
unused-append now user (x ∷ xs) r u n = ground (arith, unused-append now user xs r u n)

-- A reset found by its digest after a change of rows that keeps the digests is the changed one.
find-map :
    (hash : ℕ) (f : PasswordReset → PasswordReset) (rs : List PasswordReset)
    → ((r : PasswordReset) → (f r).token_hash ≡ r.token_hash)
    → {r : PasswordReset} → find (λ x. x.token_hash == hash) rs ≡ some r
    → find (λ x. x.token_hash == hash) (map f rs) ≡ some (f r)
unfolding find
find-map hash f [] keep {r} h = cc h
find-map hash f (x ∷ xs) keep {r} h = ground (arith, keep x, find-map hash f xs keep {r = r})

use_all-find :
    (now user hash : ℕ) (rs : List PasswordReset) {r : PasswordReset}
    → find (λ x. x.token_hash == hash) rs ≡ some r
    → r.user_id ≡ user
    → (r' : PasswordReset) × (find (λ x. x.token_hash == hash) (use_all now user rs) ≡ some r')
      × (is_none r'.used_at ≡ false)
unfolding use_all use_up
use_all-find now user hash rs {r} h u = (
  if is_unused_of user r then use_up now r else r,
  find-map hash (λ x. if is_unused_of user x then use_up now x else x) rs (λ x. ground arith) h,
  ground arith,
)

require_lem : {A : Type 0} (o : Option A) {a : A} → require o ≡ ok a → o ≡ some a
require_lem none h = cc h
require_lem (some b) h = ap some (ok-injective h)

get_valid-found :
    (hash_token : ℕ → ℕ) (now raw_token : ℕ) (db : Accounts) {reset : PasswordReset}
    → get_valid_password_reset hash_token now raw_token db ≡ ok reset
    → find (λ r. r.token_hash == hash_token raw_token) db.resets ≡ some reset
unfolding get_valid_password_reset
get_valid-found hash_token now raw_token db {reset} h =
    let found = find (λ r. r.token_hash == hash_token raw_token) db.resets in
    let (r, got, rest) = >>=-eq-ok (require found) _ h in
    let (_, _, done) = >>=-eq-ok (raise_if (not (valid_reset now db r)) token_flow_error) _ rest in
    require_lem found got ∙ ap some (ok-injective done)

module _ (hash_token : ℕ → ℕ) (validate_password : String → String → Result AuthError String)
    (hash_password : String → String) (app_name : String) where
  used-refused :
      (clock : ℕ → ℕ) (raw_token : ℕ) (password : String) (message_id : ℕ) (db : Accounts)
      (reset : PasswordReset)
      → find (λ r. r.token_hash == hash_token raw_token) db.resets ≡ some reset
      → is_none reset.used_at ≡ false
      → complete_password_reset hash_token validate_password hash_password app_name clock raw_token
          password message_id db
        ≡ err token_flow_error
  unfolding complete_password_reset
  used-refused clock raw_token password message_id db reset found used =
      elim (Option-cases (find (λ u. u.id == reset.user_id) db.users)) [
        | inl gone ↦ rw (found, gone) refl
        | inr (user, there) ↦ elim (Bool-cases (is_active user)) [
          | inl active ↦ rw (found, there, active, used) refl
          | inr inactive ↦ rw (found, there, inactive) refl
        ]
      ]

  -- What a completion that returns has found and written.
  pub completed_lem :
      (clock : ℕ → ℕ) (raw_token : ℕ) (password : String) (message_id : ℕ) (db : Accounts)
      {done : Accounts × User}
      → complete_password_reset hash_token validate_password hash_password app_name clock raw_token
          password message_id db
        ≡ ok done
      → (reset : PasswordReset) × (user : User) × (hashed : String) × (find
            (λ r. r.token_hash == hash_token raw_token)
            db.resets
          ≡ some reset)
        × (reset.user_id ≡ user.id)
        × (find (λ u. u.id == reset.user_id) db.users ≡ some user)
        × (done ≡ (
          complete_reset app_name clock (hash_token raw_token) message_id hashed reset user db,
          with_password (clock 1) hashed user,
        ))
  unfolding complete_password_reset
  completed_lem clock raw_token password message_id db h =
      let (claimed, row, h1) =
        >>=-eq-ok (require (find (λ r. r.token_hash == hash_token raw_token) db.resets)) _ h in
      let (user, there, h2) =
        >>=-eq-ok (require (find (λ u. u.id == claimed.user_id) db.users)) _ h1 in
      let (_, _, h3) = >>=-eq-ok (raise_if (not (is_active user)) token_flow_error) _ h2 in
      let (reset, got, h4) =
        >>=-eq-ok (get_valid_password_reset hash_token (clock 0) raw_token db) _ h3 in
      let (_, same, h5) =
        >>=-eq-ok (raise_if (not (reset.user_id == user.id)) token_flow_error) _ h4 in
      let (validated, _, h6) = >>=-eq-ok (validate_password password user.email) _ h5 in
      let (_, _, last) =
        >>=-eq-ok
          (raise_if
            (not (
              length (select (is_consumable (clock 1) (hash_token raw_token) reset) db.resets)
              == 1))
            token_flow_error)
          _ h6 in
      let found = get_valid-found hash_token (clock 0) raw_token db got in
      let same_row : claimed ≡ reset =
        cc (require_lem (find (λ r. r.token_hash == hash_token raw_token) db.resets) row, found) in
      (
        reset,
        user,
        hash_password validated,
        found,
        ground (arith, same),
        ap (λ (r : PasswordReset). find (λ u. u.id == r.user_id) db.users) (sym same_row)
            ∙ require_lem (find (λ u. u.id == claimed.user_id) db.users) there,
        sym (ok-injective last),
      )

  consumed-find :
      (now user : ℕ) (raw_token : ℕ) (reset : PasswordReset) (rs : List PasswordReset)
      → find (λ r. r.token_hash == hash_token raw_token) rs ≡ some reset
      → reset.user_id ≡ user
      → (r' : PasswordReset) × (find
            (λ r. r.token_hash == hash_token raw_token)
            (use_all now user (consume now (hash_token raw_token) reset rs))
          ≡ some r')
        × (is_none r'.used_at ≡ false)
  unfolding consume use_up
  consumed-find now user raw_token reset rs found u =
      use_all-find now user (hash_token raw_token) (consume now (hash_token raw_token) reset rs)
        (find-map (hash_token raw_token)
          (λ r. if is_consumable now (hash_token raw_token) reset r then use_up now r else r) rs
          (λ r. ground arith) found)
        (ground (arith, u))

  -- Once a token has completed a reset, an attempt with it on the tables that the completion left is
  -- refused, whatever the time and the password.
  pub complete_password_reset-once :
      (clock clock' : ℕ → ℕ) (raw_token : ℕ) (password password' : String)
      (message_id message_id' : ℕ) (db db' : Accounts) (user : User)
      → complete_password_reset hash_token validate_password hash_password app_name clock raw_token
          password message_id db
        ≡ ok (db', user)
      → complete_password_reset hash_token validate_password hash_password app_name clock' raw_token
          password' message_id' db'
        ≡ err token_flow_error
  unfolding complete_reset
  complete_password_reset-once clock clock' raw_token password password' message_id message_id' db
        db' user h =
      let (reset, owner, hashed, found, u, there, same) =
        completed_lem clock raw_token password message_id db h in
      let (r', found', used) = consumed-find (clock 1) owner.id raw_token reset db.resets found u in
      used-refused clock' raw_token password' message_id' db' r'
        (ap (λ (d : Accounts × User). find (λ r. r.token_hash == hash_token raw_token) d.0.resets)
            same
          ∙ found')
        used

  -- A completion leaves the user no session that was not revoked and no reset that was not used, and in
  -- the table a row of the user without a lock and without failed logins, which is the row it returns.
  pub complete_password_reset-closes :
      (clock : ℕ → ℕ) (raw_token : ℕ) (password : String) (message_id : ℕ) (db db' : Accounts)
      (user : User)
      → complete_password_reset hash_token validate_password hash_password app_name clock raw_token
          password message_id db
        ≡ ok (db', user)
      → (has_session user.id db'.sessions ≡ false)
        × (unused user.id db'.resets ≡ [])
        × (find (λ u. u.id == user.id) db'.users ≡ some user)
        × (user.failed_login_attempts ≡ 0)
        × (user.locked_until ≡ none)
  unfolding complete_reset with_password
  complete_password_reset-closes clock raw_token password message_id db db' user h =
      let (reset, owner, hashed, found, u, there, same) =
        completed_lem clock raw_token password message_id db h in
      subst
        (λ (d : Accounts × User).
          (has_session d.1.id d.0.sessions ≡ false)
          × (unused d.1.id d.0.resets ≡ [])
          × (find (λ u. u.id == d.1.id) d.0.users ≡ some d.1)
          × (d.1.failed_login_attempts ≡ 0)
          × (d.1.locked_until ≡ none))
        (sym same)
        (
          revoke_all_sessions-has_session (clock 2) owner.id db.sessions,
          use_all-unused (clock 1) owner.id
              (consume (clock 1) (hash_token raw_token) reset db.resets),
          put_user-find (with_password (clock 1) hashed owner) db.users
              (subst (λ n. find (λ v. v.id == n) db.users ≡ some owner) u there),
          refl,
          refl,
        )

-- After a request for an active user, the new reset is the user's only unused one.
pub issue_reset-unused :
    (hash_token : ℕ → ℕ) (reset_url : ℕ → String) (app_name : String) (clock : ℕ → ℕ)
    (request : ResetRequest) (user : User) (db : Accounts)
    → map
        (λ r. r.token_hash)
        (unused user.id (issue_reset hash_token reset_url app_name clock request user db).resets)
      ≡ hash_token request.raw_token ∷ []
unfolding issue_reset
issue_reset-unused hash_token reset_url app_name clock request user db =
    unused-append (clock 0) user.id db.resets _ refl refl
