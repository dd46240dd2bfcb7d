-- ===== src/Profile/Tests.antt =====
-- The theorems about new passwords on concrete tables.
use user_token_management_ap.Prelude.{◌≡◌, refl, none, some, ok, err, arith, ◌==◌}
use user_token_management_ap.Identity.{User, Accounts, authentication_error, find}
use user_token_management_ap.Identity.Samples.{
  config, access, hash, access, accept_all, plain, matches, ticks, config, ada, tables, opening,
  done_or, changed_or,
}
use user_token_management_ap.Resets.Complete.{complete_password_reset}
use user_token_management_ap.Sessions.{create_session}
use user_token_management_ap.Profile.{change_password}
use user_token_management_ap.Profile.Cutoff.{complete_password_reset-outdates}

abbrev changed : Accounts
changed =
    changed_or (
      change_password matches accept_all plain "Data Mover" ticks 8 7 "right" "new password" tables)

changed_lem :
    change_password matches accept_all plain "Data Mover" ticks 8 7 "right" "new password" tables
    ≡ ok changed
unfolding change_password
changed_lem = refl

found_lem : find (λ u. u.id == 7) tables.users ≡ some ada
unfolding find
found_lem = refl

abbrev reset : Accounts × User
reset = done_or (complete_password_reset hash accept_all plain "Data Mover" ticks 42 "new" 9 tables)

reset_lem :
    complete_password_reset hash accept_all plain "Data Mover" ticks 42 "new" 9 tables
    ≡ ok (reset.0, reset.1)
unfolding complete_password_reset
reset_lem = refl

complete_password_reset-outdates_example :
    create_session hash access config 30 opening ada none reset.0
    ≡ (reset.0, err authentication_error)
unfolding complete_password_reset
complete_password_reset-outdates_example =
    complete_password_reset-outdates hash accept_all plain "Data Mover" ticks 42 "new" 9 access
      config 30 opening ada tables reset.0 reset.1 reset_lem refl (ground arith)
