-- ===== src/Identity/Samples.antt =====
-- Concrete tables, and concrete stand-ins for digests, passwords and tokens.
use user_token_management_ap.Prelude.{
  ℕ, ◌+◌, String, Bool, true, false, Option, none, some, [], ◌∷◌, Result, ok, err, str_eq,
}
use user_token_management_ap.Identity.{
  User, active, Invitation, RefreshSession, Accounts, AuthError,
}
use user_token_management_ap.Sessions.{Settings, SessionRequest, SessionTokens}

abbrev pub hash : ℕ → ℕ
hash n = n + 1000

abbrev pub follow : ℕ → ℕ
follow n = n + 1

abbrev pub access : User → ℕ → ℕ
access user session = session + 1

abbrev pub accept_all : String → String → Result AuthError String
accept_all password email = ok password

abbrev pub plain : String → String
plain s = s

abbrev pub never : String → Bool
never s = false

abbrev pub as_is : String → Option String
as_is s = some s

-- the stored hash is the password
abbrev pub matches : String → Option String → Bool
matches password none = false
matches password (some hash) = str_eq password hash

abbrev pub ticks : ℕ → ℕ
ticks n = n + 10

abbrev pub late_ticks : ℕ → ℕ
late_ticks n = n + 20000000

abbrev pub soon_ticks : ℕ → ℕ
soon_ticks n = n + 1000

abbrev pub config : Settings
config = record {
  app_name = "Data Mover";
  local_password = true;
  session_idle_minutes = 30;
  refresh_token_hours = 12;
}

abbrev pub ada : User
ada = record {
  id = 7;
  email = "a@example.org";
  email_original = "A@example.org";
  email_verified_at = some 1;
  full_name = "Ada";
  organization = "";
  job_title = "";
  phone = "";
  status = active;
  password_hash = some "right";
  password_changed_at = none;
  failed_login_attempts = 0;
  locked_until = none;
  security_version = 1;
  last_login_at = none;
  roles = "user" ∷ [];
}

abbrev pub session : RefreshSession
session = record {
  id = 4;
  user_id = 7;
  refresh_token_hash = 1077;
  csrf_token = 5;
  created_at = 0;
  last_seen_at = 0;
  idle_expires_at = 1800000000;
  absolute_expires_at = 3600000000;
  revoked_at = none;
  user_agent = "";
  source_ip = "";
}

abbrev pub invitation : Invitation
invitation = record {
  id = 3;
  email = "b@example.org";
  email_original = "B@example.org";
  token_hash = 1050;
  role_name = "user";
  invited_by_user_id = 7;
  created_at = 0;
  expires_at = 1800000000;
  accepted_at = none;
  revoked_at = none;
}

abbrev pub tables : Accounts
tables = record {
  users = ada ∷ [];
  roles = "user" ∷ [];
  invitations = invitation ∷ [];
  verifications = [];
  resets =
      record {
        id = 1;
        user_id = 7;
        token_hash = 1042;
        created_at = 0;
        expires_at = 1800000000;
        used_at = none;
        requested_ip = "";
      }
      ∷ [];
  sessions = session ∷ [];
  history = [];
  outbox = [];
  audits = [];
}

abbrev pub opening : SessionRequest
opening = record {
  session_id = 9;
  raw_refresh = 60;
  csrf_token = 6;
  user_agent = "browser";
  source_ip = "10.0.0.1";
}

abbrev pub tokens_or : SessionTokens → Result AuthError SessionTokens → SessionTokens
tokens_or fallback (ok tokens) = tokens
tokens_or fallback (err e) = fallback

abbrev pub some_tokens : SessionTokens
some_tokens = record { access_token = 0; refresh_token = 0; session = session }

abbrev pub user_or : Result AuthError User → User
user_or (ok user) = user
user_or (err e) = ada

abbrev pub done_or : Result AuthError (Accounts × User) → Accounts × User
done_or (ok done) = done
done_or (err e) = (tables, ada)

abbrev pub changed_or : Result AuthError Accounts → Accounts
changed_or (ok db) = db
changed_or (err e) = tables
