-- ===== src/Resets/Complete.antt =====
-- The check of a reset, and its completion with a new password.
use user_token_management_ap.Identity.{
  audited, Accounts, revoke_all_sessions, token_flow_error, put_user, AuthError, find,
  PasswordReset, is_active, User,
}
use user_token_management_ap.Prelude.{
  ℕ, ◌+◌, String, Bool, false, not, ◌&&◌, Option, none, some, is_none, List, map, Result, ok, err,
  ◌>>=◌, ◌>>◌, raise_if, ltb, ◌==◌, length, select, if◌then◌else◌, text_append,
}
use user_token_management_ap.Mail.{queue_email}
use user_token_management_ap.Resets.{use_up, use_all}

-- `reset.user.is_active`
unfoldable pub is_active_user : Option User → Bool
unfolding is_active
is_active_user none = false
is_active_user (some user) = is_active user

unfoldable pub valid_reset : ℕ → Accounts → PasswordReset → Bool
unfolding find is_active_user
valid_reset now db reset =
    is_none reset.used_at
    && ltb now reset.expires_at
    && is_active_user (find (λ u. u.id == reset.user_id) db.users)

abbrev pub require : {A : Type 0} → Option A → Result AuthError A
require none = err token_flow_error
require (some a) = ok a

-- `get_valid_password_reset`
unfoldable pub get_valid_password_reset :
    (ℕ → ℕ) → ℕ → ℕ → Accounts → Result AuthError PasswordReset
unfolding find valid_reset
get_valid_password_reset hash_token now raw_token db = do
  reset ← require (find (λ r. r.token_hash == hash_token raw_token) db.resets)
  raise_if (not (valid_reset now db reset)) token_flow_error
  ok reset

-- the condition of the update that consumes the reset
abbrev pub is_consumable : ℕ → ℕ → PasswordReset → PasswordReset → Bool
is_consumable now token_hash reset r =
    r.id == reset.id && r.token_hash == token_hash && is_none r.used_at && ltb now r.expires_at

unfoldable pub consume : ℕ → ℕ → PasswordReset → List PasswordReset → List PasswordReset
unfolding use_up
consume now token_hash reset resets =
    map (λ r. if is_consumable now token_hash reset r then use_up now r else r) resets

-- the assignments on the user's row
unfoldable pub with_password : ℕ → String → User → User
with_password now password_hash user = record user {
  password_hash = some password_hash;
  password_changed_at = some now;
  security_version = user.security_version + 1;
  failed_login_attempts = 0;
  locked_until = none;
}

-- the writes of a completion, after the checks
unfoldable pub complete_reset :
    String → (ℕ → ℕ) → ℕ → ℕ → String → PasswordReset → User → Accounts → Accounts
unfolding consume use_all with_password put_user revoke_all_sessions
complete_reset app_name clock token_hash message_id password_hash reset user db = record db {
  users = put_user (with_password (clock 1) password_hash user) db.users;
  resets = use_all (clock 1) user.id (consume (clock 1) token_hash reset db.resets);
  sessions = revoke_all_sessions (clock 2) user.id db.sessions;
  outbox =
      queue_email (clock 3) message_id user.email_original
        (text_append "Your " (text_append app_name " password was changed"))
        "Your password was changed and existing sessions were revoked. If you did not perform this action, contact the service desk immediately."
        db.outbox;
  audits = audited "password.reset.completed" (some user.id) user.id db.audits;
}

-- `complete_password_reset`: the tables that it commits, and the user's new row. `clock 0` is read by
-- the check of the reset, `clock 1` by the completion, `clock 2` by the revocation of the sessions and
-- `clock 3` by the mail.
unfoldable pub complete_password_reset :
    (ℕ → ℕ)
    → (String → String → Result AuthError String)
    → (String → String)
    → String
    → (ℕ → ℕ)
    → ℕ
    → String
    → ℕ
    → Accounts
    → Result AuthError (Accounts × User)
unfolding find is_active get_valid_password_reset complete_reset
complete_password_reset hash_token validate_password hash_password app_name clock raw_token password
      message_id db =
    do
      owner ← require (find (λ r. r.token_hash == hash_token raw_token) db.resets)
      user ← require (find (λ u. u.id == owner.user_id) db.users)
      raise_if (not (is_active user)) token_flow_error
      reset ← get_valid_password_reset hash_token (clock 0) raw_token db
      raise_if (not (reset.user_id == user.id)) token_flow_error
      validated ← validate_password password user.email
      raise_if
          (not
            (length (select (is_consumable (clock 1) (hash_token raw_token) reset) db.resets) == 1))
          token_flow_error
      ok (
        complete_reset app_name clock (hash_token raw_token) message_id (hash_password validated)
            reset user db,
        with_password (clock 1) (hash_password validated) user,
      )
