-- ===== src/Enrollment/Once.antt =====
-- An invitation is accepted once.
use user_token_management_ap.Prelude.{
  ◌++◌, ℕ, String, true, false, not, ◌≡◌, refl, some, is_some, List, [], ◌∷◌, Result, ok, err,
  raise_if, ◌==◌, length, select, if◌then◌else◌, arith, ap, sym, ◌∙◌, subst, >>=-eq-ok,
  ok-injective,
}
use user_token_management_ap.Identity.{
  User, Invitation, Accounts, AuthError, token_flow_error, find,
}
use user_token_management_ap.Sessions.{Settings}
use user_token_management_ap.Enrollment.{has_email, has_role, validate_local}
use user_token_management_ap.Sessions.Rows.{find-map-kept}
use user_token_management_ap.Enrollment.Invitations.{
  invited_user, is_spent, get_valid_invitation, is_acceptable, accept, accept_invitation,
}

acceptable-none :
    (now token_hash : ℕ) (invitation : Invitation) (is : List Invitation)
    → select (λ i. i.token_hash == token_hash) is ≡ []
    → select (is_acceptable now token_hash invitation) is ≡ []
unfolding is_acceptable
acceptable-none now token_hash invitation [] none_left = refl
acceptable-none now token_hash invitation (x ∷ xs) none_left =
    ground (arith, acceptable-none now token_hash invitation xs)

-- Where one row carries the digest, a row that the update meets is that row.
acceptable-alone :
    (now token_hash : ℕ) (invitation row : Invitation) (is : List Invitation)
    → select (λ i. i.token_hash == token_hash) is ≡ row ∷ []
    → length (select (is_acceptable now token_hash invitation) is) ≡ 1
    → is_acceptable now token_hash invitation row ≡ true
unfolding is_acceptable
acceptable-alone now token_hash invitation row [] alone one = cc alone
acceptable-alone now token_hash invitation row (x ∷ xs) alone one = ground (
  arith,
  acceptable-alone now token_hash invitation row xs,
  acceptable-none now token_hash invitation xs,
)

accept-find :
    (now token_hash : ℕ) (invitation row : Invitation) (is : List Invitation)
    → find (λ i. i.token_hash == token_hash) is ≡ some row
    → is_acceptable now token_hash invitation row ≡ true
    → (spent : Invitation) × (find
          (λ i. i.token_hash == token_hash)
          (accept now token_hash invitation is)
        ≡ some spent)
      × (is_some spent.accepted_at ≡ true)
unfolding accept
accept-find now token_hash invitation row is found hit = (
  record row { accepted_at = some now },
  find-map-kept (λ (i : Invitation). i.token_hash == token_hash)
        (λ i.
          if is_acceptable now token_hash invitation i
          then record i { accepted_at = some now }
          else i)
        is (λ i. ground arith) found
      ∙ ap (λ b. some (if b then record row { accepted_at = some now } else row)) hit,
  refl,
)

alone-find :
    (token_hash : ℕ) (row : Invitation) (is : List Invitation)
    → select (λ i. i.token_hash == token_hash) is ≡ row ∷ []
    → find (λ i. i.token_hash == token_hash) is ≡ some row
unfolding find
alone-find token_hash row [] alone = cc alone
alone-find token_hash row (x ∷ xs) alone = ground (arith, alone-find token_hash row xs)

spent-refused :
    (hash_token : ℕ → ℕ) (now raw_token : ℕ) (db : Accounts) (row : Invitation)
    → find (λ i. i.token_hash == hash_token raw_token) db.invitations ≡ some row
    → is_some row.accepted_at ≡ true
    → get_valid_invitation hash_token now raw_token db ≡ err token_flow_error
unfolding get_valid_invitation is_spent
spent-refused hash_token now raw_token db row found spent = rw (found, spent) refl

module _ (hash_token : ℕ → ℕ) (strip : String → String)
    (validate_password : String → String → Result AuthError String)
    (hash_password : String → String) (settings : Settings) (raw_token : ℕ) where
  -- What an acceptance that returns has checked and written.
  pub accepted_lem :
      (clock : ℕ → ℕ) (user_id : ℕ) (password full_name : String) (db db' : Accounts) (user : User)
      → accept_invitation hash_token strip validate_password hash_password settings clock raw_token
          user_id password full_name db
        ≡ ok (db', user)
      → (invitation : Invitation) × (length
            (select (is_acceptable (clock 1) (hash_token raw_token) invitation) db.invitations)
          ≡ 1)
        × (accept (clock 1) (hash_token raw_token) invitation db.invitations ≡ db'.invitations)
        × (has_email invitation.email db.users ≡ false)
        × (db.users ++ user ∷ [] ≡ db'.users)
        × (user.email ≡ invitation.email)
        × (is_some user.email_verified_at ≡ true)
  unfolding accept_invitation invited_user
  accepted_lem clock user_id password full_name db db' user h =
      let (invitation, _, h1) =
        >>=-eq-ok (get_valid_invitation hash_token (clock 0) raw_token db) _ h in
      let (_, new, h2) =
        >>=-eq-ok (raise_if (has_email invitation.email db.users) token_flow_error) _ h1 in
      let (validated, _, h3) =
        >>=-eq-ok
          (validate_local settings.local_password validate_password password invitation.email) _
          h2 in
      let (_, _, h4) =
        >>=-eq-ok (raise_if (not (has_role invitation.role_name db.roles)) token_flow_error) _ h3 in
      let (_, one, h5) =
        >>=-eq-ok
          (raise_if
            (not (
              length
                (select (is_acceptable (clock 1) (hash_token raw_token) invitation) db.invitations)
              == 1))
            token_flow_error)
          _ h4 in
      let done = ok-injective h5 in
      (
        invitation,
        ground (arith, one),
        ap (λ (d : Accounts × User). d.0.invitations) done,
        ground (arith, new),
        ground (arith, done),
        sym (ap (λ (d : Accounts × User). d.1.email) done),
        sym (ap (λ (d : Accounts × User). is_some d.1.email_verified_at) done),
      )

  -- Once a token has accepted an invitation, an attempt with it on the tables that the acceptance left is
  -- refused, where one row of the table carries its digest.
  pub accept_invitation-once :
      (clock clock' : ℕ → ℕ) (user_id user_id' : ℕ)
      (password password' full_name full_name' : String) (db db' : Accounts) (user : User)
      (row : Invitation)
      → select (λ i. i.token_hash == hash_token raw_token) db.invitations ≡ row ∷ []
      → accept_invitation hash_token strip validate_password hash_password settings clock raw_token
          user_id password full_name db
        ≡ ok (db', user)
      → accept_invitation hash_token strip validate_password hash_password settings clock' raw_token
          user_id' password' full_name' db'
        ≡ err token_flow_error
  unfolding accept_invitation
  accept_invitation-once clock clock' user_id user_id' password password' full_name full_name' db
        db' user row alone h =
      let (invitation, one, same, _, _, _, _) =
        accepted_lem clock user_id password full_name db db' user h in
      let hit =
        acceptable-alone (clock 1) (hash_token raw_token) invitation row db.invitations alone one in
      let (spent, found, used) =
        accept-find (clock 1) (hash_token raw_token) invitation row db.invitations
          (alone-find (hash_token raw_token) row db.invitations alone) hit in
      let refusal =
        spent-refused hash_token (clock' 0) raw_token db' spent
          (subst (λ is. find (λ i. i.token_hash == hash_token raw_token) is ≡ some spent) same
            found)
          used in
      rw (refusal) refl
