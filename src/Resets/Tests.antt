-- ===== src/Resets/Tests.antt =====
-- The theorems about resets on concrete tables.
use user_token_management_ap.Identity.{Accounts, active, AuthError, find, token_flow_error, User}
use user_token_management_ap.Prelude.{
  ℕ, ◌+◌, String, false, none, some, [], ◌∷◌, Result, ok, err, ◌≡◌, refl, ◌==◌,
}
use user_token_management_ap.Resets.Complete.{complete_password_reset}
use user_token_management_ap.Resets.Laws.{
  has_session, unused, complete_password_reset-once, complete_password_reset-closes,
}

abbrev hash : ℕ → ℕ
hash n = n + 1000

abbrev accept : String → String → Result AuthError String
accept password email = ok password

abbrev hashed : String → String
hashed s = s

abbrev ticks : ℕ → ℕ
ticks n = n + 10

abbrev owner : User
owner = record {
  id = 7;
  email = "a@example.org";
  email_original = "A@example.org";
  email_verified_at = some 1;
  full_name = "Ada";
  organization = "";
  job_title = "";
  phone = "";
  status = active;
  password_hash = none;
  password_changed_at = none;
  failed_login_attempts = 3;
  locked_until = some 50;
  security_version = 1;
  last_login_at = none;
  roles = "user" ∷ [];
}

abbrev before : Accounts
before = record {
  users = owner ∷ [];
  roles = "user" ∷ [];
  invitations = [];
  verifications = [];
  resets =
      record {
        id = 1;
        user_id = 7;
        token_hash = 1042;
        created_at = 0;
        expires_at = 1800000000;
        used_at = none;
        requested_ip = "";
      }
      ∷ [];
  sessions =
      record {
        id = 4;
        user_id = 7;
        refresh_token_hash = 1077;
        csrf_token = 5;
        created_at = 0;
        last_seen_at = 0;
        idle_expires_at = 1800000000;
        absolute_expires_at = 3600000000;
        revoked_at = none;
        user_agent = "";
        source_ip = "";
      }
      ∷ [];
  history = [];
  outbox = [];
  audits = [];
}

abbrev or_before : Result AuthError (Accounts × User) → Accounts × User
or_before (ok done) = done
or_before (err e) = (before, owner)

abbrev after : Accounts × User
after =
    or_before
      (complete_password_reset hash accept hashed "Data Mover" ticks 42 "new password" 9 before)

after_lem :
    complete_password_reset hash accept hashed "Data Mover" ticks 42 "new password" 9 before
    ≡ ok (after.0, after.1)
unfolding complete_password_reset
after_lem = refl

complete_password_reset-once_example :
    complete_password_reset hash accept hashed "Data Mover" ticks 42 "another" 10 after.0
    ≡ err token_flow_error
complete_password_reset-once_example =
    complete_password_reset-once hash accept hashed "Data Mover" ticks ticks 42 "new password"
      "another" 9 10 before after.0 after.1 after_lem

complete_password_reset-closes_example :
    (has_session after.1.id after.0.sessions ≡ false)
    × (unused after.1.id after.0.resets ≡ [])
    × (find (λ u. u.id == after.1.id) after.0.users ≡ some after.1)
    × (after.1.failed_login_attempts ≡ 0)
    × (after.1.locked_until ≡ none)
complete_password_reset-closes_example =
    complete_password_reset-closes hash accept hashed "Data Mover" ticks 42 "new password" 9 before
      after.0 after.1 after_lem
