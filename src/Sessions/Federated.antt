-- ===== src/Sessions/Federated.antt =====
-- `authenticate_trusted_identity` of app/services/sessions.py.
use user_token_management_ap.Prelude.{
  ℕ, String, Bool, not, ◌||◌, Option, none, some, is_none, List, [], ◌∷◌, str_eq, if◌then◌else◌,
}
use user_token_management_ap.Identity.{
  User, Accounts, authentication_error, find, put_user, is_active, audited, record_event,
}
use user_token_management_ap.Sessions.{Outcome, committed, refused}

abbrev federated : Option ℕ → String → Accounts → Accounts
federated target outcome db = record db {
  audits = record_event "auth.federated" none target outcome db.audits;
}

abbrev id_of : Option User → Option ℕ
id_of none = none
id_of (some user) = some user.id

unfoldable pub accept_identity : ℕ → Option User → Accounts → Outcome User
unfolding is_active put_user
accept_identity now none db = refused (federated none "ineligible_account" db) authentication_error
accept_identity now (some user) db =
    if not (is_active user) || is_none user.email_verified_at
    then refused (federated (some user.id) "ineligible_account" db) authentication_error
    else let current = record user { last_login_at = some now } in
      committed
        (record db {
          users = put_user current db.users;
          audits = audited "auth.federated" (some user.id) user.id db.audits;
        })
        current

-- the one value of the identity header, decoded and brought to normal form
unfoldable pub identity_of : (String → Option String) → List String → Accounts → ℕ → Outcome User
unfolding find accept_identity
identity_of normalize_identity [] db now =
    refused (federated none "invalid_header" db) authentication_error
identity_of normalize_identity (value ∷ []) db now = elim (normalize_identity value) [
  | none ↦ refused (federated none "invalid_identity" db) authentication_error
  | some canonical ↦ accept_identity now (find (λ u. str_eq u.email canonical) db.users) db
]
identity_of normalize_identity (value ∷ second ∷ more) db now =
    refused (federated none "invalid_header" db) authentication_error

-- `authenticate_trusted_identity`: whether the mode is on, whether the peer is the trusted proxy, and
-- the values of the identity header
unfoldable pub authenticate_trusted_identity :
    (String → Option String) → Bool → Bool → List String → ℕ → Accounts → Outcome User
unfolding identity_of
authenticate_trusted_identity normalize_identity enabled trusted raw_values now db =
    if not enabled
    then refused db authentication_error
    else (if not trusted
        then refused (federated none "untrusted_proxy" db) authentication_error
        else identity_of normalize_identity raw_values db now)
