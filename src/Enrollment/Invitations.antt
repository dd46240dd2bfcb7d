-- ===== src/Enrollment/Invitations.antt =====
-- app/services/invitations.py. A time is `clock 0` at the check or the write, `clock 1` and `clock 2`
-- later on. An error leaves the tables as they were.
use user_token_management_ap.Prelude.{
  ℕ, ◌+◌, String, Bool, not, ◌&&◌, ◌||◌, Option, none, some, is_none, is_some, List, [], ◌∷◌, ◌++◌,
  map, Result, ok, ◌>>=◌, ◌>>◌, raise_if, ltb, leb, ◌==◌, length, select, str_eq, if◌then◌else◌,
  text_append, clip,
}
use user_token_management_ap.Mail.{Message, queue_email}
use user_token_management_ap.Identity.{
  User, active, Invitation, Accounts, AuthError, token_flow_error, value_error, find, record_event,
  audited,
}
use user_token_management_ap.Sessions.{Settings, hours}
use user_token_management_ap.Enrollment.{
  has_email, has_role, revoke_open, found_or, new_user, validate_local, hashed, changed_at,
}

-- What an administrator's request brings along: the new token and the identifiers of the new rows.
pub record InvitationRequest : Type 0 where
  pub raw_token : ℕ
  pub invitation_id : ℕ
  pub message_id : ℕ
  pub copy_id : ℕ

unfoldable pub invitation_row :
    (ℕ → ℕ) → ℕ → InvitationRequest → String → String → String → User → Invitation
invitation_row hash_token now request canonical original role_name inviter = record {
  id = request.invitation_id;
  email = canonical;
  email_original = original;
  token_hash = hash_token request.raw_token;
  role_name = role_name;
  invited_by_user_id = inviter.id;
  created_at = now;
  expires_at = now + hours 48;
  accepted_at = none;
  revoked_at = none;
}

-- the mail to the person invited, and its confirmation to an inviter with an address
unfoldable pub invitation_mail :
    (ℕ → String)
    → Settings
    → (ℕ → ℕ)
    → InvitationRequest
    → String
    → String
    → User
    → List Message
    → List Message
invitation_mail accept_url settings clock request original role_name inviter outbox =
    let invited =
      queue_email (clock 1) request.message_id original
        (text_append "Invitation to " settings.app_name)
        (text_append
          "You have been invited to an approved government application.\n\nOpen this link on the approved network to continue:\n"
          (text_append (accept_url request.raw_token)
            "\n\nThis invitation expires in 48 hours. If you did not expect it, contact the service desk."))
        outbox in
    if str_eq inviter.email ""
    then invited
    else queue_email (clock 2) request.copy_id inviter.email
        (text_append "Invitation sent: " settings.app_name)
        (text_append "An invitation for " (
          text_append original (
            text_append " (" (
              text_append role_name
                ") was sent from your account. The recipient will receive a separate email with the invitation link. For security, this confirmation does not include that link."))))
        invited

-- `create_invitation`: the tables, and the new row
unfoldable pub create_invitation :
    (ℕ → ℕ)
    → (ℕ → String)
    → (String → Result AuthError (String × String))
    → Settings
    → (ℕ → ℕ)
    → InvitationRequest
    → String
    → String
    → User
    → Accounts
    → Result AuthError (Accounts × Invitation)
unfolding revoke_open invitation_row invitation_mail
create_invitation hash_token accept_url normalize_email settings clock request email role_name
      inviter db =
    do
      (canonical, original) ← normalize_email email
      raise_if (has_email canonical db.users) value_error
      raise_if (not (has_role role_name db.roles)) value_error
      ok (
        record db {
          invitations =
              revoke_open (clock 0) canonical db.invitations
              ++ invitation_row hash_token (clock 0) request canonical original role_name inviter
                ∷ [];
          outbox =
              invitation_mail accept_url settings clock request original role_name inviter
                db.outbox;
          audits = record_event "invitation.created" (some inviter.id) none "success" db.audits;
        },
        invitation_row hash_token (clock 0) request canonical original role_name inviter,
      )

unfoldable pub is_spent : ℕ → Invitation → Bool
is_spent now i = is_some i.accepted_at || is_some i.revoked_at || leb i.expires_at now

-- `get_valid_invitation`
unfoldable pub get_valid_invitation : (ℕ → ℕ) → ℕ → ℕ → Accounts → Result AuthError Invitation
unfolding find is_spent
get_valid_invitation hash_token now raw_token db = do
  invitation ←
      found_or token_flow_error (find (λ i. i.token_hash == hash_token raw_token) db.invitations)
  raise_if (is_spent now invitation) token_flow_error
  ok invitation

-- `revoke_invitation`
unfoldable pub revoke_invitation : ℕ → ℕ → ℕ → Accounts → Result AuthError Accounts
revoke_invitation now invitation administrator db =
    let pending : Invitation → Bool =
      λ i. i.id == invitation && is_none i.accepted_at && is_none i.revoked_at in
    do
      raise_if (not (length (select pending db.invitations) == 1)) value_error
      ok (record db {
        invitations =
            map (λ i. if pending i then record i { revoked_at = some now } else i) db.invitations;
        audits = record_event "invitation.revoked" (some administrator) none "success" db.audits;
      })

-- the condition of the update that accepts the invitation
unfoldable pub is_acceptable : ℕ → ℕ → Invitation → Invitation → Bool
is_acceptable now token_hash invitation i =
    i.id == invitation.id
    && i.token_hash == token_hash
    && is_none i.accepted_at
    && is_none i.revoked_at
    && ltb now i.expires_at

unfoldable pub accept : ℕ → ℕ → Invitation → List Invitation → List Invitation
unfolding is_acceptable
accept now token_hash invitation invitations =
    map
      (λ i.
        if is_acceptable now token_hash invitation i
        then record i { accepted_at = some now }
        else i)
      invitations

-- the account that an invitation opens
unfoldable pub invited_user :
    (String → String) → (String → String) → ℕ → ℕ → Option String → String → Invitation → User
invited_user strip hash_password now id validated full_name invitation =
    record (new_user id invitation.email invitation.email_original (clip 160 (strip full_name))
      active invitation.role_name) {
        email_verified_at = some now;
        password_hash = hashed hash_password validated;
        password_changed_at = changed_at now validated;
      }

-- `accept_invitation`: the tables, and the new account. `clock 0` is read by the check, `clock 1` by the
-- acceptance. The flush fails on an address that another request has registered meanwhile, which the
-- check of the address covers here.
unfoldable pub accept_invitation :
    (ℕ → ℕ)
    → (String → String)
    → (String → String → Result AuthError String)
    → (String → String)
    → Settings
    → (ℕ → ℕ)
    → ℕ
    → ℕ
    → String
    → String
    → Accounts
    → Result AuthError (Accounts × User)
unfolding get_valid_invitation is_acceptable accept invited_user
accept_invitation hash_token strip validate_password hash_password settings clock raw_token user_id
      password full_name db =
    do
      invitation ← get_valid_invitation hash_token (clock 0) raw_token db
      raise_if (has_email invitation.email db.users) token_flow_error
      validated ← validate_local settings.local_password validate_password password invitation.email
      raise_if (not (has_role invitation.role_name db.roles)) token_flow_error
      raise_if
          (not (
            length
              (select (is_acceptable (clock 1) (hash_token raw_token) invitation) db.invitations)
            == 1))
          token_flow_error
      ok (
        record db {
          users =
              db.users
              ++ invited_user strip hash_password (clock 1) user_id validated full_name invitation
                ∷ [];
          invitations = accept (clock 1) (hash_token raw_token) invitation db.invitations;
          audits = audited "invitation.accepted" (some user_id) user_id db.audits;
        },
        invited_user strip hash_password (clock 1) user_id validated full_name invitation,
      )
