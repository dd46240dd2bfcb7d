-- ===== src/Resets.antt =====
-- app/services/password_reset.py on the tables of users, resets and sessions, with the outbox and the
-- audit log. Parameters: the digest of a token, the normal form of an address, the policy on
-- passwords, the hash of a password, and the address of a page. Raw tokens and digests are numbers.
pub mod Complete
pub mod Laws
mod Tests
use user_token_management_ap.Prelude.{
  ℕ, ◌+◌, String, Bool, true, false, not, ◌&&◌, ◌||◌, Option, none, some, is_some, is_none, List,
  [], ◌∷◌, ◌++◌, map, Result, ok, err, ◌>>=◌, ◌>>◌, raise_if, ltb, leb, ◌==◌, length, select,
  str_eq, if◌then◌else◌, text_append,
}
use user_token_management_ap.Runs.Lease.{seconds}
use user_token_management_ap.Mail.{queue_email}
use user_token_management_ap.Identity.{User, PasswordReset, Accounts, find, audited, is_active}

-- the rows that an `update` without more conditions than these meets
abbrev pub is_unused_of : ℕ → PasswordReset → Bool
is_unused_of user r = r.user_id == user && is_none r.used_at

unfoldable pub use_up : ℕ → PasswordReset → PasswordReset
use_up now r = record r { used_at = some now }

-- `used_at = now` on the user's unused resets
unfoldable pub use_all : ℕ → ℕ → List PasswordReset → List PasswordReset
unfolding use_up
use_all now user resets = map (λ r. if is_unused_of user r then use_up now r else r) resets

-- What a request brings along: the new token, the identifiers of the new rows, and the client.
pub record ResetRequest : Type 0 where
  pub raw_token : ℕ
  pub reset_id : ℕ
  pub message_id : ℕ
  pub client_ip : String

-- the writes of a request for an active user
unfoldable pub issue_reset :
    (ℕ → ℕ) → (ℕ → String) → String → (ℕ → ℕ) → ResetRequest → User → Accounts → Accounts
unfolding use_all
issue_reset hash_token reset_url app_name clock request user db = record db {
  resets =
      use_all (clock 0) user.id db.resets
      ++ record {
        id = request.reset_id;
        user_id = user.id;
        token_hash = hash_token request.raw_token;
        created_at = (clock 0);
        expires_at = (clock 0) + seconds 1800;
        used_at = none;
        requested_ip = request.client_ip;
      }
        ∷ [];
  outbox =
      queue_email (clock 1) request.message_id user.email_original
        (text_append "Reset your " (text_append app_name " password"))
        (text_append
          "A password reset was requested for your account.\n\nOpen this link on the approved network to continue:\n"
          (text_append (reset_url request.raw_token)
            "\n\nThe link expires in 30 minutes. Opening it does not change your password. If you did not request this, contact the service desk."))
        db.outbox;
  audits = audited "password.reset.requested" none user.id db.audits;
}

abbrev issue_if_active :
    (ℕ → ℕ) → (ℕ → String) → String → (ℕ → ℕ) → ResetRequest → Option User → Accounts → Accounts
issue_if_active hash_token reset_url app_name clock request none db = db
issue_if_active hash_token reset_url app_name clock request (some user) db =
    if is_active user then issue_reset hash_token reset_url app_name clock request user db else db

-- `request_password_reset`: an address that is malformed, unknown or of an inactive user is passed over.
unfoldable pub request_password_reset :
    (ℕ → ℕ)
    → (ℕ → String)
    → (String → Option String)
    → String
    → (ℕ → ℕ)
    → String
    → ResetRequest
    → Accounts
    → Accounts
unfolding find is_active issue_reset
request_password_reset hash_token reset_url normalize_email app_name clock email request db =
    elim (normalize_email email) [
      | none ↦ db
      | some canonical ↦
          issue_if_active hash_token reset_url app_name clock request
            (find (λ u. str_eq u.email canonical) db.users) db
    ]
