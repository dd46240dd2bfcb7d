-- ===== src/Sessions.antt =====
-- app/services/sessions.py: the opening and the revocation of a refresh session. The children hold
-- sign-in and rotation. Parameters: digests, the successor of a token, the access token of a session,
-- the check of a password, and what the request brings. A call returns the tables as it leaves them,
-- those that it commits before it raises included, with its value or its error.
mod Tests
pub mod Rotate
pub mod Login
pub mod Federated
pub mod Rows
pub mod Lockout
pub mod Accept
pub mod Lapsed
pub mod Alive
pub mod Spent
pub mod Second
pub mod Replay
use user_token_management_ap.Prelude.{
  ℕ, ◌+◌, ◌*◌, String, Bool, not, ◌&&◌, ◌||◌, Option, none, some, is_none, [], ◌∷◌, ◌++◌, map,
  Result, ok, err, ◌==◌, length, select, if◌then◌else◌, clip,
}
use user_token_management_ap.Runs.Lease.{seconds}
use user_token_management_ap.Identity.{
  User, RefreshSession, Accounts, AuthError, authentication_error, find, is_active, audited,
}

-- the configuration that the services read
pub record Settings : Type 0 where
  pub app_name : String
  pub local_password : Bool
  pub session_idle_minutes : ℕ
  pub refresh_token_hours : ℕ

abbrev pub minutes : ℕ → ℕ
minutes n = seconds (60 * n)

abbrev pub hours : ℕ → ℕ
hours n = minutes (60 * n)

-- What a request brings along: the client, and the random values drawn for it.
pub record SessionRequest : Type 0 where
  pub session_id : ℕ
  pub raw_refresh : ℕ
  pub csrf_token : ℕ
  pub user_agent : String
  pub source_ip : String

pub record SessionTokens : Type 0 where
  pub access_token : ℕ
  pub refresh_token : ℕ
  pub session : RefreshSession

abbrev pub Outcome : Type 0 → Type 0
Outcome A = Accounts × Result AuthError A

abbrev pub committed : {A : Type 0} → Accounts → A → Outcome A
committed db a = (db, ok a)

abbrev pub refused : {A : Type 0} → Accounts → AuthError → Outcome A
refused db e = (db, err e)

-- the condition of the update that locks the row of the user
unfoldable pub is_lockable : ℕ → ℕ → User → Bool
unfolding is_active
is_lockable user expected_version u =
    u.id == user && is_active u && u.security_version == expected_version

unfoldable pub new_session : (ℕ → ℕ) → Settings → ℕ → SessionRequest → User → RefreshSession
new_session hash_token settings now request user = record {
  id = request.session_id;
  user_id = user.id;
  refresh_token_hash = hash_token request.raw_refresh;
  csrf_token = request.csrf_token;
  created_at = now;
  last_seen_at = now;
  idle_expires_at = now + minutes settings.session_idle_minutes;
  absolute_expires_at = now + hours settings.refresh_token_hours;
  revoked_at = none;
  user_agent = clip 500 request.user_agent;
  source_ip = request.source_ip;
}

unfoldable pub open_session :
    (ℕ → ℕ)
    → (User → ℕ → ℕ)
    → Settings
    → ℕ
    → SessionRequest
    → User
    → Accounts
    → Outcome SessionTokens
unfolding new_session
open_session hash_token access_token settings now request user db =
    let session = new_session hash_token settings now request user in
    committed
      (record db {
        sessions = db.sessions ++ session ∷ [];
        audits = audited "auth.session.created" (some user.id) user.id db.audits;
      })
      (record {
        access_token = access_token user request.session_id;
        refresh_token = request.raw_refresh;
        session = session;
      })

-- the second look at the user, under the lock
unfoldable pub open_if_current :
    (ℕ → ℕ)
    → (User → ℕ → ℕ)
    → Settings
    → ℕ
    → SessionRequest
    → ℕ
    → Option User
    → Accounts
    → Outcome SessionTokens
unfolding is_active open_session
open_if_current hash_token access_token settings now request version none db =
    refused db authentication_error
open_if_current hash_token access_token settings now request version (some user) db =
    if not (is_active user) || not (user.security_version == version)
    then refused db authentication_error
    else open_session hash_token access_token settings now request user db

abbrev pub expected_version : User → Option ℕ → ℕ
expected_version user none = user.security_version
expected_version user (some version) = version

-- `create_session` for the row `user` that the caller holds
unfoldable pub create_session :
    (ℕ → ℕ)
    → (User → ℕ → ℕ)
    → Settings
    → ℕ
    → SessionRequest
    → User
    → Option ℕ
    → Accounts
    → Outcome SessionTokens
unfolding find is_lockable open_if_current
create_session hash_token access_token settings now request user expected db =
    let version = expected_version user expected in
    if length (select (is_lockable user.id version) db.users) == 1
    then open_if_current hash_token access_token settings now request version
        (find (λ u. u.id == user.id) db.users) db
    else refused db authentication_error

-- `revoke_session`, on the session and by the actor with these identifiers
unfoldable pub revoke_session : ℕ → ℕ → ℕ → ℕ → Accounts → Accounts
revoke_session now session owner actor db =
    let live : RefreshSession → Bool = λ s. s.id == session && is_none s.revoked_at in
    record db {
      sessions = map (λ s. if live s then record s { revoked_at = some now } else s) db.sessions;
      audits =
          if length (select live db.sessions) == 1
          then audited "auth.session.revoked" (some actor) owner db.audits
          else db.audits;
    }
