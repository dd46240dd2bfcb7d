-- ===== src/Profile.antt =====
-- app/services/accounts.py: the user's own changes of the profile and of the password. Parameters:
-- `str.strip`, the check, the policy and the hash of passwords.
mod Tests
pub mod Cutoff
use user_token_management_ap.Prelude.{
  ℕ, String, Bool, not, Option, none, some, Result, ok, err, ◌>>=◌, ◌>>◌, raise_if, ◌==◌, clip,
  text_append,
}
use user_token_management_ap.Mail.{queue_email}
use user_token_management_ap.Identity.{
  User, Accounts, AuthError, current_password_error, find, put_user, revoke_all_sessions, audited,
}
use user_token_management_ap.Resets.{use_all}
use user_token_management_ap.Resets.Complete.{with_password}

pub record ProfileValues : Type 0 where
  pub full_name : String
  pub organization : String
  pub job_title : String
  pub phone : String

-- the four assignments on the user's row
unfoldable pub with_profile : (String → String) → ProfileValues → User → User
with_profile strip values user = record user {
  full_name = clip 160 (strip values.full_name);
  organization = clip 160 (strip values.organization);
  job_title = clip 160 (strip values.job_title);
  phone = clip 40 (strip values.phone);
}

-- `update_profile` of the row `user` that the session holds
unfoldable pub update_profile :
    (String → String) → ProfileValues → User → Accounts → Accounts × User
unfolding with_profile put_user
update_profile strip values user db =
    let changed = with_profile strip values user in
    (
      record db {
        users = put_user changed db.users;
        audits = audited "profile.updated" (some user.id) user.id db.audits;
      },
      changed,
    )

-- the writes of a change of the password, after the checks
unfoldable pub write_password : String → (ℕ → ℕ) → ℕ → String → User → Accounts → Accounts
unfolding with_password put_user revoke_all_sessions use_all
write_password app_name clock message_id password_hash user db = record db {
  users = put_user (with_password (clock 0) password_hash user) db.users;
  sessions = revoke_all_sessions (clock 1) user.id db.sessions;
  resets = use_all (clock 0) user.id db.resets;
  audits = audited "password.changed" (some user.id) user.id db.audits;
  outbox =
      queue_email (clock 2) message_id user.email_original
        (text_append "Your " (text_append app_name " password was changed"))
        "Your password was changed and existing sessions were revoked. If you did not perform this action, contact the service desk immediately."
        db.outbox;
}

abbrev pub present : Option User → Result AuthError User
present none = err current_password_error
present (some user) = ok user

-- `change_password` of the user with this identifier. `clock 0` is read by the change, `clock 1` by the
-- revocation of the sessions and `clock 2` by the mail.
unfoldable pub change_password :
    (String → Option String → Bool)
    → (String → String → Result AuthError String)
    → (String → String)
    → String
    → (ℕ → ℕ)
    → ℕ
    → ℕ
    → String
    → String
    → Accounts
    → Result AuthError Accounts
unfolding find write_password
change_password verify validate_password hash_password app_name clock message_id user_id
      current_password new_password db =
    do
      user ← present (find (λ u. u.id == user_id) db.users)
      raise_if (not (verify current_password user.password_hash)) current_password_error
      validated ← validate_password new_password user.email
      ok (write_password app_name clock message_id (hash_password validated) user db)
