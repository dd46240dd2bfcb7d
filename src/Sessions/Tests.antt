-- ===== src/Sessions/Tests.antt =====
-- The theorems about sessions and sign-in on concrete tables.
use user_token_management_ap.Prelude.{
  ℕ, String, true, false, ◌&&◌, ◌≡◌, ◌≢◌, refl, none, some, is_none, is_some, [], ◌∷◌, ok, err,
  ◌==◌, any, arith, ahead, str_eq, ◌<◌, subst, sym,
}
use user_token_management_ap.Identity.{
  User, Accounts, token_flow_error, account_locked_error, is_active, find,
}
use user_token_management_ap.Identity.Samples.{
  hash, follow, access, plain, never, as_is, matches, ticks, late_ticks, soon_ticks, config, ada,
  session, tables, tokens_or, some_tokens, user_or,
}
use user_token_management_ap.Resets.Laws.{has_session}
use user_token_management_ap.Sessions.{SessionTokens, Outcome}
use user_token_management_ap.Sessions.Rotate.{is_rotatable, rotate_session, owner}
use user_token_management_ap.Sessions.Login.{
  authenticate_user, is_unchanged, rehashed, clear_failures,
}
use user_token_management_ap.Sessions.Rows.{Holds}
use user_token_management_ap.Sessions.Spent.{IsUnique}
use user_token_management_ap.Sessions.Alive.{rotate_session-live}
use user_token_management_ap.Sessions.Replay.{rotate_session-replay, rotate_session-duplicate}
use user_token_management_ap.Sessions.Lockout.{authenticate_user-lockout, tries, with_failures}
use user_token_management_ap.Sessions.Accept.{authenticate_user-checked}
use user_token_management_ap.Sessions.Lapsed.{authenticate_user-lapsed}

abbrev first : Outcome SessionTokens
first = rotate_session hash follow access config ticks 77 [] tables

abbrev issued : SessionTokens
issued = tokens_or some_tokens first.1

first_lem : rotate_session hash follow access config ticks 77 [] tables ≡ (first.0, ok issued)
unfolding rotate_session
first_lem = refl

rotate_session-live_example :
    (user : User) × (owner issued.session tables ≡ some user)
    × (is_active user ≡ true)
    × (issued.session.revoked_at ≡ none)
    × (has_session issued.session.user_id tables.sessions ≡ true)
rotate_session-live_example =
    rotate_session-live hash follow access config ticks 77 [] tables first.0 issued first_lem

times_lem :
    (issued.session.idle_expires_at ≡ 1800000010)
    × (issued.session.absolute_expires_at ≡ 3600000000)
unfolding rotate_session
times_lem = (refl, refl)

unique_lem : IsUnique tables.sessions
unfolding IsUnique
unique_lem = (tt, tt)

fresh_lem : hash (follow 77) ≢ hash 77
fresh_lem e = ground arith

new_lem : find (λ h. h.token_hash == hash 77) tables.history ≡ none
unfolding find
new_lem = refl

there_lem : find (is_rotatable (ticks 0) (hash 77)) tables.sessions ≡ some session
unfolding find is_rotatable
there_lem = refl

rotate_session-replay_example :
    (last : Accounts) × (rotate_session hash follow access config late_ticks 77 [] first.0
      ≡ (last, err token_flow_error))
    × (any (λ s. s.id == issued.session.id && is_none s.revoked_at) last.sessions ≡ false)
rotate_session-replay_example =
    rotate_session-replay hash follow access config ticks late_ticks 77 [] [] tables first.0 issued
      session unique_lem fresh_lem new_lem there_lem first_lem (ground arith)

proof_lem : any (λ proof. proof == issued.session.csrf_token) (5 ∷ []) ≡ true
unfolding rotate_session
proof_lem = refl

rotate_session-duplicate_example :
    (last : Accounts) × (again : SessionTokens) × (rotate_session hash follow access config
        soon_ticks 77
        (5 ∷ [])
        first.0
      ≡ (last, ok again))
    × (again.refresh_token ≡ issued.refresh_token)
    × (again.session ≡ issued.session)
    × (last.sessions ≡ first.0.sessions)
rotate_session-duplicate_example =
    rotate_session-duplicate hash follow access config ticks soon_ticks 77 [] (5 ∷ []) tables
      first.0 issued session unique_lem fresh_lem new_lem there_lem first_lem (ground arith)
      (ground arith) (subst (λ t. 1001 < t) (sym times_lem.0) (ground arith))
      (subst (λ t. 1001 < t) (sym times_lem.1) (ground arith)) proof_lem

abbrev wrongs : ℕ → String
wrongs n = "wrong"

holds_lem : Holds "a@example.org" (with_failures 0 ada) tables.users
unfolding Holds with_failures find
holds_lem = (refl, refl)

authenticate_user-lockout_example :
    (last : Accounts) × (authenticate_user never plain as_is matches true 900000013
        (λ users. users)
        "a@example.org"
        "right"
        (tries never plain as_is matches true "a@example.org" "a@example.org" refl ticks wrongs 5
          tables)
      ≡ (last, err account_locked_error))
    × (last.users
        ≡ (tries never plain as_is matches true "a@example.org" "a@example.org" refl ticks wrongs 5
            tables).users)
unfolding is_active
authenticate_user-lockout_example =
    authenticate_user-lockout never plain as_is matches true "a@example.org" "a@example.org" refl
      ticks wrongs ada tables 900000013 "right" refl refl (λ k. refl) holds_lem (ground arith)

abbrev signed_in : Outcome User
signed_in =
    authenticate_user never plain as_is matches true 50 (λ users. users) "a@example.org" "right"
      tables

signed_in_lem :
    authenticate_user never plain as_is matches true 50
      (λ users. users)
      "a@example.org"
      "right"
      tables
    ≡ (signed_in.0, ok (user_or signed_in.1))
unfolding authenticate_user
signed_in_lem = refl

authenticate_user-checked_example :
    (canonical : String) × (read : User) × (stored : User) × (as_is "a@example.org"
      ≡ some canonical)
    × (find (λ u. str_eq u.email canonical) tables.users ≡ some read)
    × (matches "right" read.password_hash ≡ true)
    × (ahead read.locked_until 50 ≡ false)
    × (is_active read ≡ true)
    × (is_some read.email_verified_at ≡ true)
    × (find (is_unchanged read) tables.users ≡ some stored)
    × (user_or signed_in.1 ≡ rehashed never plain "right" (clear_failures 50 stored))
authenticate_user-checked_example =
    authenticate_user-checked never plain true as_is matches 50 (λ users. users) "a@example.org"
      "right" (user_or signed_in.1) tables signed_in.0 signed_in_lem

-- a row whose lock ended at 40, with the five failures that brought it
abbrev lapsed : User
lapsed = record ada { failed_login_attempts = 5; locked_until = some 40 }

abbrev lapsed_tables : Accounts
lapsed_tables = record tables { users = lapsed ∷ [] }

lapsed_lem : Holds "a@example.org" lapsed lapsed_tables.users
unfolding Holds find
lapsed_lem = (refl, refl)

authenticate_user-lapsed_example :
    (last : Accounts) × (authenticate_user never plain as_is matches true 50
        (λ users. users)
        "a@example.org"
        "right"
        lapsed_tables
      ≡ (last, err account_locked_error))
    × Holds "a@example.org"
        (record lapsed { failed_login_attempts = 0; locked_until = none })
        last.users
unfolding is_active
authenticate_user-lapsed_example =
    authenticate_user-lapsed never plain true as_is matches 50 40 "a@example.org" "a@example.org"
      "right" lapsed lapsed_tables refl lapsed_lem refl (ground arith) (ground arith) refl refl
