-- ===== src/Enrollment/Registration.antt =====
-- app/services/registration.py. `clock 0` is the time of the check or the write, `clock 1` and `clock 2`
-- are read later on. An error leaves the tables as they were.
use user_token_management_ap.Prelude.{
  ℕ, ◌+◌, String, Bool, false, not, ◌&&◌, ◌||◌, Option, none, some, is_none, is_some, List, [], ◌∷◌,
  ◌++◌, map, Result, ok, ◌>>=◌, ◌>>◌, raise_if, ltb, ◌==◌, any, length, select, str_eq,
  if◌then◌else◌, text_append, clip,
}
use user_token_management_ap.Mail.{queue_email}
use user_token_management_ap.Identity.{
  User, active, disabled, pending, is_pending_status, RegistrationVerification, Accounts, AuthError,
  token_flow_error, value_error, runtime_error, find, revoke_all_sessions, record_event, audited,
}
use user_token_management_ap.Sessions.{Settings, minutes, hours}
use user_token_management_ap.Enrollment.{has_role, revoke_open, found_or, new_user, validate_local}

-- What a request brings along: the new token, the identifiers of the new rows, and the client.
pub record RegistrationRequest : Type 0 where
  pub raw_token : ℕ
  pub user_id : ℕ
  pub verification_id : ℕ
  pub message_id : ℕ
  pub client_ip : String

-- a verification of the user that was not used
abbrev pub is_unused_for : ℕ → RegistrationVerification → Bool
is_unused_for user v = v.user_id == user && is_none v.used_at

-- one of them that still runs and is less than ten minutes old
unfoldable pub is_recent : ℕ → ℕ → RegistrationVerification → Bool
is_recent now user v =
    is_unused_for user v && ltb now v.expires_at && ltb now (v.created_at + minutes 10)

unfoldable pub use_verifications :
    ℕ → ℕ → List RegistrationVerification → List RegistrationVerification
use_verifications now user verifications =
    map (λ v. if is_unused_for user v then record v { used_at = some now } else v) verifications

-- the new verification and its mail
unfoldable pub send_verification :
    (ℕ → ℕ) → (ℕ → String) → Settings → (ℕ → ℕ) → RegistrationRequest → User → Accounts → Accounts
unfolding use_verifications
send_verification hash_token verification_url settings clock request user db = record db {
  verifications =
      use_verifications (clock 0) user.id db.verifications
      ++ record {
        id = request.verification_id;
        user_id = user.id;
        token_hash = hash_token request.raw_token;
        created_at = (clock 0);
        expires_at = (clock 0) + hours 24;
        used_at = none;
        requested_ip = request.client_ip;
      }
        ∷ [];
  outbox =
      queue_email (clock 1) request.message_id user.email_original
        (text_append "Verify your " (text_append settings.app_name " registration"))
        (text_append
          "A request was made to register this government email address.\n\nOpen this link on the approved network to verify the address and choose a password:\n"
          (text_append (verification_url request.raw_token)
            "\n\nThe link expires in 24 hours. After verification, an administrator must approve the request before you can sign in. If you did not request this account, do not open the link and contact the service desk."))
        db.outbox;
}

-- the two branches on the address: a user that is there, or a new one
unfoldable pub register :
    (ℕ → ℕ)
    → (ℕ → String)
    → (String → String)
    → Settings
    → (ℕ → ℕ)
    → RegistrationRequest
    → String
    → String
    → String
    → Option User
    → Accounts
    → Accounts
unfolding revoke_open is_recent send_verification
register hash_token verification_url strip settings clock request canonical original full_name none
      db =
    let user =
      new_user request.user_id canonical original (clip 160 (strip full_name)) pending "user" in
    send_verification hash_token verification_url settings clock request user (record db {
      users = db.users ++ user ∷ [];
      invitations = revoke_open (clock 0) canonical db.invitations;
      audits = record_event "registration.requested" none (some user.id) "success" db.audits;
    })
register hash_token verification_url strip settings clock request canonical original full_name
      (some user) db =
    let revoked = record db { invitations = revoke_open (clock 0) canonical db.invitations } in
    if not (is_pending_status user.status) || is_some user.email_verified_at
    then db
    else (if any (is_recent (clock 0) user.id) db.verifications
        then revoked
        else send_verification hash_token verification_url settings clock request user revoked)

-- `request_self_registration`
unfoldable pub request_self_registration :
    (ℕ → ℕ)
    → (ℕ → String)
    → (String → String)
    → (String → Result AuthError (String × String))
    → Settings
    → (ℕ → ℕ)
    → RegistrationRequest
    → String
    → String
    → Accounts
    → Result AuthError Accounts
unfolding find register
request_self_registration hash_token verification_url strip normalize_email settings clock request
      email full_name db =
    do
      (canonical, original) ← normalize_email email
      raise_if (not (has_role "user" db.roles)) runtime_error
      ok (
          register hash_token verification_url strip settings clock request canonical original
            full_name (find (λ u. str_eq u.email canonical) db.users) db)

-- whether the owner can still verify the address
abbrev pub awaits_verification : Option User → Bool
awaits_verification none = false
awaits_verification (some user) = is_pending_status user.status && is_none user.email_verified_at

unfoldable pub valid_verification : ℕ → Accounts → RegistrationVerification → Bool
unfolding find
valid_verification now db v =
    is_none v.used_at
    && ltb now v.expires_at
    && awaits_verification (find (λ u. u.id == v.user_id) db.users)

-- `get_valid_registration_verification`
unfoldable pub get_valid_registration_verification :
    (ℕ → ℕ) → ℕ → ℕ → Accounts → Result AuthError RegistrationVerification
unfolding find valid_verification
get_valid_registration_verification hash_token now raw_token db = do
  verification ←
      found_or token_flow_error (find (λ v. v.token_hash == hash_token raw_token) db.verifications)
  raise_if (not (valid_verification now db verification)) token_flow_error
  ok verification

-- the condition of the update that consumes the verification
unfoldable pub is_usable : ℕ → RegistrationVerification → RegistrationVerification → Bool
is_usable now verification v = v.id == verification.id && is_none v.used_at && ltb now v.expires_at

-- the assignments on the user's row
unfoldable pub verified_user : (String → String) → ℕ → Option String → User → User
verified_user hash_password now none user = record user { email_verified_at = some now }
verified_user hash_password now (some validated) user = record user {
  email_verified_at = some now;
  password_hash = some (hash_password validated);
  password_changed_at = some now;
}

-- `complete_self_registration`: the tables, and the user's new row
unfoldable pub complete_self_registration :
    (ℕ → ℕ)
    → (String → String → Result AuthError String)
    → (String → String)
    → Settings
    → (ℕ → ℕ)
    → ℕ
    → ℕ
    → String
    → Accounts
    → Result AuthError (Accounts × User)
unfolding find get_valid_registration_verification is_usable verified_user use_verifications
complete_self_registration hash_token validate_password hash_password settings clock raw_token
      message_id password db =
    do
      verification ← get_valid_registration_verification hash_token (clock 0) raw_token db
      user ← found_or token_flow_error (find (λ u. u.id == verification.user_id) db.users)
      validated ← validate_local settings.local_password validate_password password user.email
      raise_if (not (length (select (is_usable (clock 1) verification) db.verifications) == 1))
          token_flow_error
      ok (
        record db {
          users =
              map
                (λ u.
                  if u.id == user.id then verified_user hash_password (clock 1) validated u else u)
                db.users;
          verifications = use_verifications (clock 1) user.id (
              map
                (λ v.
                  if is_usable (clock 1) verification v
                  then record v { used_at = some (clock 1) }
                  else v)
                db.verifications);
          outbox =
              queue_email (clock 2) message_id user.email_original
                (text_append "Your "
                  (text_append settings.app_name " request is awaiting approval"))
                "Your government email address has been verified and your registration request is now awaiting administrator approval. You cannot sign in until an administrator approves it. You will receive another email when access is approved."
                db.outbox;
          audits = audited "registration.email_verified" (some user.id) user.id db.audits;
        },
        verified_user hash_password (clock 1) validated user,
      )

-- `bool(user.password_hash)`
abbrev pub is_set : Option String → Bool
is_set none = false
is_set (some hash) = not (str_eq hash "")

-- the condition of the update that activates the account
unfoldable pub is_approvable : ℕ → User → Bool
is_approvable user u = u.id == user && is_pending_status u.status && is_some u.email_verified_at

-- `approve_self_registration` of the row `user` that the administrator's page read
unfoldable pub approve_self_registration :
    Settings → ℕ → ℕ → User → ℕ → Accounts → Result AuthError Accounts
unfolding is_approvable
approve_self_registration settings now message_id user administrator db = do
  raise_if (not (is_pending_status user.status)) value_error
  raise_if
      (is_none user.email_verified_at || settings.local_password && not (is_set user.password_hash))
      value_error
  raise_if (not (length (select (is_approvable user.id) db.users) == 1)) value_error
  ok (record db {
    users = map (λ u. if is_approvable user.id u then record u { status = active } else u) db.users;
    audits = audited "registration.approved" (some administrator) user.id db.audits;
    outbox =
        queue_email now message_id user.email_original
          (text_append "Your " (text_append settings.app_name " access was approved"))
          (if settings.local_password
            then "An administrator approved your registration. You can now sign in using your government email address and the password you created."
            else "An administrator approved your registration. Continue through the approved identity-aware proxy using your federated credential.")
          db.outbox;
  })

abbrev pub is_deniable : ℕ → User → Bool
is_deniable user u = u.id == user && is_pending_status u.status

-- `deny_self_registration`; `clock 0` is read by the revocation, `clock 1` by the mail.
unfoldable pub deny_self_registration :
    Settings → (ℕ → ℕ) → ℕ → User → ℕ → Accounts → Result AuthError Accounts
unfolding revoke_all_sessions
deny_self_registration settings clock message_id user administrator db = do
  raise_if (not (is_pending_status user.status)) value_error
  raise_if (not (length (select (is_deniable user.id) db.users) == 1)) value_error
  ok (record db {
    users =
        map
          (λ u.
            if is_deniable user.id u
            then record u { status = disabled; security_version = u.security_version + 1 }
            else u)
          db.users;
    sessions = revoke_all_sessions (clock 0) user.id db.sessions;
    audits = audited "registration.denied" (some administrator) user.id db.audits;
    outbox =
        queue_email (clock 1) message_id user.email_original
          (text_append "Your " (text_append settings.app_name " registration was not approved"))
          "An administrator did not approve your registration request. You cannot sign in. Contact the application service desk if you believe this decision was made in error."
          db.outbox;
  })
