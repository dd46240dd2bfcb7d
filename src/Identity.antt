-- ===== src/Identity.antt =====
-- The rows of app/models.py that sign-in, sessions, invitations, registrations and resets share, the
-- errors of app/services/auth_common.py, and the writes on these tables that several services make.
-- Raw tokens, their digests and identifiers are numbers, and a time counts microseconds.
pub mod Samples
use user_token_management_ap.Prelude.{
  ℕ, String, Bool, true, false, ◌&&◌, Option, none, some, is_none, List, [], ◌∷◌, ◌++◌, map, ◌==◌,
  if◌then◌else◌,
}
use user_token_management_ap.Runs.Row.{AuditEntry}
use user_token_management_ap.Mail.{Message}

pub data UserStatus : Type 0 where
  active disabled pending : UserStatus

-- `User`, without its preferences and the times of its row
pub record User : Type 0 where
  pub id : ℕ
  pub email : String
  pub email_original : String
  pub email_verified_at : Option ℕ
  pub full_name : String
  pub organization : String
  pub job_title : String
  pub phone : String
  pub status : UserStatus
  pub password_hash : Option String
  pub password_changed_at : Option ℕ
  pub failed_login_attempts : ℕ
  pub locked_until : Option ℕ
  pub security_version : ℕ
  pub last_login_at : Option ℕ
  pub roles : List String

pub record Invitation : Type 0 where
  pub id : ℕ
  pub email : String
  pub email_original : String
  pub token_hash : ℕ
  pub role_name : String
  pub invited_by_user_id : ℕ
  pub created_at : ℕ
  pub expires_at : ℕ
  pub accepted_at : Option ℕ
  pub revoked_at : Option ℕ

pub record RegistrationVerification : Type 0 where
  pub id : ℕ
  pub user_id : ℕ
  pub token_hash : ℕ
  pub created_at : ℕ
  pub expires_at : ℕ
  pub used_at : Option ℕ
  pub requested_ip : String

pub record PasswordReset : Type 0 where
  pub id : ℕ
  pub user_id : ℕ
  pub token_hash : ℕ
  pub created_at : ℕ
  pub expires_at : ℕ
  pub used_at : Option ℕ
  pub requested_ip : String

pub record RefreshSession : Type 0 where
  pub id : ℕ
  pub user_id : ℕ
  pub refresh_token_hash : ℕ
  pub csrf_token : ℕ
  pub created_at : ℕ
  pub last_seen_at : ℕ
  pub idle_expires_at : ℕ
  pub absolute_expires_at : ℕ
  pub revoked_at : Option ℕ
  pub user_agent : String
  pub source_ip : String

pub record RefreshTokenHistory : Type 0 where
  pub session_id : ℕ
  pub token_hash : ℕ
  pub consumed_at : ℕ

-- the tables; `roles` holds the names of the `Role` rows
pub record Accounts : Type 0 where
  pub users : List User
  pub roles : List String
  pub invitations : List Invitation
  pub verifications : List RegistrationVerification
  pub resets : List PasswordReset
  pub sessions : List RefreshSession
  pub history : List RefreshTokenHistory
  pub outbox : List Message
  pub audits : List AuditEntry

-- the errors of auth_common.py and accounts.py, and the bare `ValueError` and `RuntimeError`
pub data AuthError : Type 0 where
  authentication_error account_locked_error token_flow_error refresh_overlap_retry : AuthError
  current_password_error value_error runtime_error : AuthError

abbrev pub is_active_status : UserStatus → Bool
is_active_status active = true
is_active_status disabled = false
is_active_status pending = false

abbrev pub is_pending_status : UserStatus → Bool
is_pending_status active = false
is_pending_status disabled = false
is_pending_status pending = true

-- `User.is_active`
unfoldable pub is_active : User → Bool
is_active user = is_active_status user.status

module _ {A : Type 0} where
  unfoldable pub find : (A → Bool) → List A → Option A
  find p [] = none
  find p (x ∷ xs) = if p x then some x else find p xs

unfoldable pub put_user : User → List User → List User
put_user user users = map (λ u. if u.id == user.id then user else u) users

-- `revoke_all_sessions`
unfoldable pub revoke_all_sessions : ℕ → ℕ → List RefreshSession → List RefreshSession
revoke_all_sessions now user sessions =
    map
      (λ s.
        if s.user_id == user && is_none s.revoked_at then record s { revoked_at = some now } else s)
      sessions

-- `record_event`
abbrev pub record_event : String → Option ℕ → Option ℕ → String → List AuditEntry → List AuditEntry
record_event event_type actor target outcome audits =
    audits
    ++ record {
      event_type = event_type;
      actor_user_id = actor;
      target_user_id = target;
      outcome = outcome;
    }
      ∷ []

-- the row of an event about a user that succeeded
abbrev pub audited : String → Option ℕ → ℕ → List AuditEntry → List AuditEntry
audited event_type actor target audits =
    record_event event_type actor (some target) "success" audits
