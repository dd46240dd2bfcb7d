-- ===== src/Enrollment/Steps.antt =====
-- The operations on invitations and registrations, in any sequence and at any readings of the clock.
use user_token_management_ap.Prelude.{
  ℕ, String, true, false, not, ◌&&◌, ◌||◌, ◌≡◌, refl, Option, none, some, is_none, is_some, List,
  [], ◌∷◌, ◌++◌, ◌+◌, map, Result, ok, raise_if, ◌==◌, length, select, str_eq, if◌then◌else◌, arith,
  ap, ◌∙◌, subst, >>=-eq-ok, ok-injective,
}
use user_token_management_ap.Identity.{
  User, active, disabled, is_pending_status, Invitation, Accounts, AuthError, token_flow_error,
  value_error, runtime_error, find, is_active,
}
use user_token_management_ap.Sessions.{Settings}
use user_token_management_ap.Enrollment.{found_or, has_email, has_role, validate_local}
use user_token_management_ap.Enrollment.Invitations.{
  InvitationRequest, create_invitation, revoke_invitation, accept_invitation,
}
use user_token_management_ap.Enrollment.Registration.{
  RegistrationRequest, send_verification, register, request_self_registration,
  get_valid_registration_verification, is_usable, verified_user, complete_self_registration,
  is_approvable, is_deniable, is_set, approve_self_registration, deny_self_registration,
}
use user_token_management_ap.Enrollment.Once.{accepted_lem}
use user_token_management_ap.Enrollment.Addresses.{
  IsVetted, IsSingle, append-IsVetted, map-IsVetted, append-IsSingle, map-IsSingle, find-has_email,
}

-- the code outside that the services call, and their configuration
pub record Outside : Type 0 where
  pub hash_token : ℕ → ℕ
  pub page_url : ℕ → String
  pub strip : String → String
  pub normalize_email : String → Result AuthError (String × String)
  pub validate_password : String → String → Result AuthError String
  pub hash_password : String → String
  pub settings : Settings

-- One operation that commits.
pub data Step (o : Outside) (db db' : Accounts) : Type 0 where
  invites :
      (clock : ℕ → ℕ) (request : InvitationRequest) (email role_name : String) (inviter : User)
      (invitation : Invitation)
      → create_invitation o.hash_token o.page_url o.normalize_email o.settings clock request email
          role_name inviter db
        ≡ ok (db', invitation)
      → Step o db db'
  withdraws :
      (now invitation administrator : ℕ)
      → revoke_invitation now invitation administrator db ≡ ok db'
      → Step o db db'
  accepts :
      (clock : ℕ → ℕ) (raw_token user_id : ℕ) (password full_name : String) (user : User)
      → accept_invitation o.hash_token o.strip o.validate_password o.hash_password o.settings clock
          raw_token user_id password full_name db
        ≡ ok (db', user)
      → Step o db db'
  registers :
      (clock : ℕ → ℕ) (request : RegistrationRequest) (email full_name : String)
      → request_self_registration o.hash_token o.page_url o.strip o.normalize_email o.settings clock
          request email full_name db
        ≡ ok db'
      → Step o db db'
  verifies :
      (clock : ℕ → ℕ) (raw_token message_id : ℕ) (password : String) (user : User)
      → complete_self_registration o.hash_token o.validate_password o.hash_password o.settings clock
          raw_token message_id password db
        ≡ ok (db', user)
      → Step o db db'
  approves :
      (now message_id administrator : ℕ) (user : User)
      → approve_self_registration o.settings now message_id user administrator db ≡ ok db'
      → Step o db db'
  denies :
      (clock : ℕ → ℕ) (message_id administrator : ℕ) (user : User)
      → deny_self_registration o.settings clock message_id user administrator db ≡ ok db'
      → Step o db db'

pub data Reach (o : Outside) (db : Accounts) : Accounts → Type 0 where
  here : Reach o db db
  next : {mid last : Accounts} → Reach o db mid → Step o mid last → Reach o db last

-- The users of an operation that leaves them, opens an account for a new address, or changes rows in
-- place.
data Change (users : List User) : List User → Type 0 where
  same : Change users users
  opens :
      (user : User)
      → has_email user.email users ≡ false
      → not (is_active user) || is_some user.email_verified_at ≡ true
      → Change users (users ++ user ∷ [])
  updates :
      (f : User → User)
      → ((u : User) → (f u).email ≡ u.email)
      → ((u : User)
          → not (is_active u) || is_some u.email_verified_at ≡ true
          → not (is_active (f u)) || is_some (f u).email_verified_at ≡ true)
      → Change users (map f users)

Change-IsVetted :
    {users users' : List User} → Change users users' → IsVetted users → IsVetted users'
Change-IsVetted same all = all
Change-IsVetted {users = users} (opens user new p) all = append-IsVetted user users p all
Change-IsVetted {users = users} (updates f mail keep) all = map-IsVetted f users keep all

Change-IsSingle :
    {users users' : List User} → Change users users' → IsSingle users → IsSingle users'
Change-IsSingle same all = all
Change-IsSingle {users = users} (opens user new p) all = append-IsSingle user users new all
Change-IsSingle {users = users} (updates f mail keep) all = map-IsSingle f users mail all

register-Change :
    (o : Outside) (clock : ℕ → ℕ) (request : RegistrationRequest)
    (canonical original full_name : String) (db : Accounts) (found : Option User)
    → find (λ u. str_eq u.email canonical) db.users ≡ found
    → Change db.users
        (register o.hash_token o.page_url o.strip o.settings clock request canonical original
          full_name found db).users
unfolding register send_verification is_active
register-Change o clock request canonical original full_name db none h =
    opens _ (find-has_email canonical db.users h) refl
register-Change o clock request canonical original full_name db (some user) h =
    let unchanged : db.users
        ≡ (register o.hash_token o.page_url o.strip o.settings clock request canonical original
            full_name (some user) db).users =
      ground arith in
    subst (Change db.users) unchanged same

verified-mail :
    (hash_password : String → String) (now : ℕ) (v : Option String) (u : User)
    → ((verified_user hash_password now v u).email ≡ u.email)
      × (is_some (verified_user hash_password now v u).email_verified_at ≡ true)
unfolding verified_user
verified-mail hash_password now none u = (refl, refl)
verified-mail hash_password now (some p) u = (refl, refl)

complete-Change :
    (o : Outside) (clock : ℕ → ℕ) (raw_token message_id : ℕ) (password : String) (user : User)
    (db : Accounts) {db' : Accounts}
    → complete_self_registration o.hash_token o.validate_password o.hash_password o.settings clock
        raw_token message_id password db
      ≡ ok (db', user)
    → Change db.users db'.users
unfolding complete_self_registration
complete-Change o clock raw_token message_id password user db h =
    let (verification, _, h1) =
      >>=-eq-ok (get_valid_registration_verification o.hash_token (clock 0) raw_token db) _ h in
    let (found, _, h2) =
      >>=-eq-ok (found_or token_flow_error (find (λ u. u.id == verification.user_id) db.users)) _
        h1 in
    let (validated, _, h3) =
      >>=-eq-ok (validate_local o.settings.local_password o.validate_password password found.email)
        _ h2 in
    let (_, _, h4) =
      >>=-eq-ok
        (raise_if (not (length (select (is_usable (clock 1) verification) db.verifications) == 1))
          token_flow_error)
        _ h3 in
    subst (Change db.users) (ap (λ (d : Accounts × User). d.0.users) (ok-injective h4)) (
      updates
        (λ u. if u.id == found.id then verified_user o.hash_password (clock 1) validated u else u)
        (λ u. ground (arith, verified-mail o.hash_password (clock 1) validated u))
        (λ u p. ground (arith, verified-mail o.hash_password (clock 1) validated u)))

approve-Change :
    (settings : Settings) (now message_id administrator : ℕ) (user : User) (db : Accounts)
    {db' : Accounts}
    → approve_self_registration settings now message_id user administrator db ≡ ok db'
    → Change db.users db'.users
unfolding approve_self_registration is_approvable is_active
approve-Change settings now message_id administrator user db h =
    let (_, _, h1) = >>=-eq-ok (raise_if (not (is_pending_status user.status)) value_error) _ h in
    let (_, _, h2) =
      >>=-eq-ok
        (raise_if
          (is_none user.email_verified_at
            || settings.local_password && not (is_set user.password_hash))
          value_error)
        _ h1 in
    let (_, _, h3) =
      >>=-eq-ok (raise_if (not (length (select (is_approvable user.id) db.users) == 1)) value_error)
        _ h2 in
    subst (Change db.users) (ap (λ (d : Accounts). d.users) (ok-injective h3)) (
      updates (λ u. if is_approvable user.id u then record u { status = active } else u)
        (λ u. ground arith) (λ u p. ground arith))

deny-Change :
    (settings : Settings) (clock : ℕ → ℕ) (message_id administrator : ℕ) (user : User)
    (db : Accounts) {db' : Accounts}
    → deny_self_registration settings clock message_id user administrator db ≡ ok db'
    → Change db.users db'.users
unfolding deny_self_registration is_active
deny-Change settings clock message_id administrator user db h =
    let (_, _, h1) = >>=-eq-ok (raise_if (not (is_pending_status user.status)) value_error) _ h in
    let (_, _, h2) =
      >>=-eq-ok (raise_if (not (length (select (is_deniable user.id) db.users) == 1)) value_error) _
        h1 in
    subst (Change db.users) (ap (λ (d : Accounts). d.users) (ok-injective h2)) (
      updates
        (λ u.
          if is_deniable user.id u
          then record u { status = disabled; security_version = u.security_version + 1 }
          else u)
        (λ u. ground arith) (λ u p. ground arith))

Step-Change : (o : Outside) {db db' : Accounts} → Step o db db' → Change db.users db'.users
unfolding create_invitation revoke_invitation request_self_registration
Step-Change o {db} (invites clock request email role_name inviter invitation h) =
    let (address, _, h1) = >>=-eq-ok (o.normalize_email email) _ h in
    let (_, _, h2) = >>=-eq-ok (raise_if (has_email address.0 db.users) value_error) _ h1 in
    let (_, _, h3) = >>=-eq-ok (raise_if (not (has_role role_name db.roles)) value_error) _ h2 in
    subst (Change db.users) (ap (λ (d : Accounts × Invitation). d.0.users) (ok-injective h3)) same
Step-Change o {db} (withdraws now invitation administrator h) =
    let (_, _, h1) =
      >>=-eq-ok
        (raise_if
          (not (
            length (
              select
                (λ (i : Invitation).
                  i.id == invitation && is_none i.accepted_at && is_none i.revoked_at)
                db.invitations)
            == 1))
          value_error)
        _ h in
    subst (Change db.users) (ap (λ (d : Accounts). d.users) (ok-injective h1)) same
Step-Change o {db} (accepts clock raw_token user_id password full_name user h) =
    let (invitation, _, _, new, users, mail, verified) =
      accepted_lem o.hash_token o.strip o.validate_password o.hash_password o.settings raw_token
        clock user_id password full_name db _ user h in
    subst (Change db.users) users
      (opens user (ap (λ e. has_email e db.users) mail ∙ new) (ground (arith, verified)))
Step-Change o {db} (registers clock request email full_name h) =
    let (address, _, h1) = >>=-eq-ok (o.normalize_email email) _ h in
    let (_, _, h2) = >>=-eq-ok (raise_if (not (has_role "user" db.roles)) runtime_error) _ h1 in
    subst (Change db.users) (ap (λ (d : Accounts). d.users) (ok-injective h2)) (
      register-Change o clock request address.0 address.1 full_name db
        (find (λ u. str_eq u.email address.0) db.users) refl)
Step-Change o {db} (verifies clock raw_token message_id password user h) =
    complete-Change o clock raw_token message_id password user db h
Step-Change o {db} (approves now message_id administrator user h) =
    approve-Change o.settings now message_id administrator user db h
Step-Change o {db} (denies clock message_id administrator user h) =
    deny-Change o.settings clock message_id administrator user db h

-- Whatever operations on invitations and registrations commit, in whatever order and at whatever times:
-- who is active has a verified address, and no address has two accounts, if it was so before.
pub Reach-IsVetted-IsSingle :
    (o : Outside) {db last : Accounts}
    → Reach o db last
    → IsVetted db.users
    → IsSingle db.users
    → IsVetted last.users × IsSingle last.users
Reach-IsVetted-IsSingle o here v s = (v, s)
Reach-IsVetted-IsSingle o (next r st) v s =
    let (v', s') = Reach-IsVetted-IsSingle o r v s in
    (Change-IsVetted (Step-Change o st) v', Change-IsSingle (Step-Change o st) s')
