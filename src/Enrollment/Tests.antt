-- ===== src/Enrollment/Tests.antt =====
-- The theorems about enrollment on concrete tables.
use user_token_management_ap.Prelude.{◌≡◌, refl, ok, err}
use user_token_management_ap.Identity.{is_active, User, Accounts, token_flow_error}
use user_token_management_ap.Identity.Samples.{
  hash, accept_all, plain, ticks, late_ticks, config, invitation, tables, done_or,
}
use user_token_management_ap.Enrollment.Invitations.{accept_invitation}
use user_token_management_ap.Enrollment.Once.{accept_invitation-once}
use user_token_management_ap.Enrollment.Addresses.{IsVetted, IsSingle}
use user_token_management_ap.Enrollment.Steps.{
  Outside, here, next, accepts, Reach-IsVetted-IsSingle,
}

abbrev joined : Accounts × User
joined =
    done_or (accept_invitation hash plain accept_all plain config ticks 50 8 "secret" " Bea" tables)

joined_lem :
    accept_invitation hash plain accept_all plain config ticks 50 8 "secret" " Bea" tables
    ≡ ok (joined.0, joined.1)
unfolding accept_invitation
joined_lem = refl

accept_invitation-once_example :
    accept_invitation hash plain accept_all plain config late_ticks 50 9 "other" "Eve" joined.0
    ≡ err token_flow_error
accept_invitation-once_example =
    accept_invitation-once hash plain accept_all plain config 50 ticks late_ticks 8 9 "secret"
      "other" " Bea" "Eve" tables joined.0 joined.1 invitation refl joined_lem

abbrev outside : Outside
outside = record {
  hash_token = hash;
  page_url = λ token. "link";
  strip = plain;
  normalize_email = λ email. ok (email, email);
  validate_password = accept_all;
  hash_password = plain;
  settings = config;
}

vetted_lem : IsVetted tables.users × IsSingle tables.users
unfolding IsVetted IsSingle is_active
vetted_lem = ((refl, tt), (refl, tt))

Reach-IsVetted-IsSingle_example : IsVetted joined.0.users × IsSingle joined.0.users
Reach-IsVetted-IsSingle_example =
    Reach-IsVetted-IsSingle outside
      (next here (accepts ticks 50 8 "secret" " Bea" joined.1 joined_lem)) vetted_lem.0 vetted_lem.1
