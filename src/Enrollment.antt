-- ===== src/Enrollment.antt =====
-- app/services/invitations.py and app/services/registration.py: how an account comes to be. The children
-- hold the two services. Parameters: digests, the normal form of an address, `str.strip`, the policy and
-- the hash of passwords, and the addresses of pages.
pub mod Invitations
pub mod Registration
pub mod Once
pub mod Addresses
pub mod Steps
mod Tests
use user_token_management_ap.Prelude.{
  ℕ, String, Bool, Option, none, some, is_none, List, [], ◌∷◌, ◌&&◌, any, str_eq, Result, ok, err,
  map, if◌then◌else◌,
}
use user_token_management_ap.Identity.{
  User, UserStatus, Invitation, Accounts, AuthError, token_flow_error, value_error,
}

abbrev pub has_email : String → List User → Bool
has_email email users = any (λ u. str_eq u.email email) users

abbrev pub has_role : String → List String → Bool
has_role name roles = any (λ r. str_eq r name) roles

-- an invitation for the address that was neither accepted nor revoked
abbrev pub is_open_for : String → Invitation → Bool
is_open_for email i = str_eq i.email email && is_none i.accepted_at && is_none i.revoked_at

unfoldable pub revoke_open : ℕ → String → List Invitation → List Invitation
revoke_open now email invitations =
    map (λ i. if is_open_for email i then record i { revoked_at = some now } else i) invitations

abbrev pub found_or : {A : Type 0} → AuthError → Option A → Result AuthError A
found_or e none = err e
found_or e (some a) = ok a

-- a new row with the defaults of its columns
abbrev pub new_user : ℕ → String → String → String → UserStatus → String → User
new_user id email email_original full_name status role = record {
  id = id;
  email = email;
  email_original = email_original;
  email_verified_at = none;
  full_name = full_name;
  organization = "";
  job_title = "";
  phone = "";
  status = status;
  password_hash = none;
  password_changed_at = none;
  failed_login_attempts = 0;
  locked_until = none;
  security_version = 1;
  last_login_at = none;
  roles = role ∷ [];
}

-- the policy, where passwords are local
abbrev pub validate_local :
    Bool
    → (String → String → Result AuthError String)
    → String
    → String
    → Result AuthError (Option String)
validate_local local validate_password password email = elim local [
  | Bool.true ↦ elim (validate_password password email) [
    | Result.ok validated ↦ ok (some validated)
    | Result.err e ↦ err e
  ]
  | Bool.false ↦ ok none
]

-- the hash of a password that was validated, and the time of its change
abbrev pub hashed : (String → String) → Option String → Option String
hashed hash_password none = none
hashed hash_password (some password) = some (hash_password password)

abbrev pub changed_at : ℕ → Option String → Option ℕ
changed_at now none = none
changed_at now (some password) = some now
