-- ===== src/Sessions/Replay.antt =====
-- What the second use of a refresh token meets: its successor again within five seconds, or the end of
-- the session.
use user_token_management_ap.Prelude.{
  ℕ, ◌+◌, true, false, ◌&&◌, ◌≡◌, ◌≢◌, refl, none, some, is_none, List, ok, err, ◌==◌, ◌<◌, ◌≤◌,
  arith, any, ap, sym, ◌∙◌,
}
use user_token_management_ap.Runs.Lease.{seconds}
use user_token_management_ap.Identity.{
  audited, User, RefreshSession, RefreshTokenHistory, Accounts, token_flow_error, find, is_active,
}
use user_token_management_ap.Sessions.{Settings, SessionTokens}
use user_token_management_ap.Sessions.Rotate.{
  is_rotatable, exchanged, prolonged, duplicate_is_current, end_replayed, answer_replay,
  rotate_session,
}
use user_token_management_ap.Sessions.Second.{entry_row, second-answer}
use user_token_management_ap.Sessions.Alive.{find-passes, rotatable-unrevoked}
use user_token_management_ap.Sessions.Spent.{IsUnique, ended-put}

is_current :
    (now replacement_hash : ℕ) (entry : RefreshTokenHistory) (session : RefreshSession)
    (user : User)
    → entry.consumed_at ≤ now
    → now ≤ entry.consumed_at + seconds 5
    → session.revoked_at ≡ none
    → now < session.idle_expires_at
    → now < session.absolute_expires_at
    → is_active user ≡ true
    → session.refresh_token_hash ≡ replacement_hash
    → duplicate_is_current now replacement_hash entry session user ≡ true
unfolding duplicate_is_current
is_current now replacement_hash entry session user since soon live idle absolute runs same =
    ground arith

module _ (hash_token successor : ℕ → ℕ) (access_token : User → ℕ → ℕ) (settings : Settings) where
  late-refused :
      (now raw_refresh : ℕ) (proofs : List ℕ) (entry : RefreshTokenHistory)
      (session : RefreshSession) (user : User) (db : Accounts)
      → entry.consumed_at + seconds 5 < now
      → answer_replay hash_token successor access_token settings now raw_refresh proofs entry
          session user db
        ≡ (end_replayed now session user db, err token_flow_error)
  unfolding answer_replay duplicate_is_current
  late-refused now raw_refresh proofs entry session user db late = ground arith

  duplicate-answered :
      (now raw_refresh : ℕ) (proofs : List ℕ) (entry : RefreshTokenHistory)
      (session : RefreshSession) (user : User) (db : Accounts)
      → entry.consumed_at ≤ now
      → now ≤ entry.consumed_at + seconds 5
      → session.revoked_at ≡ none
      → now < session.idle_expires_at
      → now < session.absolute_expires_at
      → is_active user ≡ true
      → session.refresh_token_hash ≡ hash_token (successor raw_refresh)
      → any (λ proof. proof == session.csrf_token) proofs ≡ true
      → (last : Accounts) × (again : SessionTokens) × (answer_replay hash_token successor
            access_token settings now raw_refresh proofs entry session user db
          ≡ (last, ok again))
        × (again.refresh_token ≡ successor raw_refresh)
        × (again.session ≡ session)
        × (last.sessions ≡ db.sessions)
  unfolding answer_replay
  duplicate-answered now raw_refresh proofs entry session user db since soon live idle absolute runs
        same proof =
      let current : duplicate_is_current now (hash_token (successor raw_refresh)) entry session user
          ≡ true =
        is_current now _ entry session user since soon live idle absolute runs same in
      (
        record db {
          audits = audited "auth.session.refresh_duplicate" (some user.id) user.id db.audits;
        },
        record {
          access_token = access_token user session.id;
          refresh_token = successor raw_refresh;
          session = session;
        },
        rw (current, proof) refl,
        refl,
        refl,
        refl,
      )

  end_replayed-ends :
      (now : ℕ) (session : RefreshSession) (user : User) (db : Accounts)
      → any
          (λ s. s.id == session.id && is_none s.revoked_at)
          (end_replayed now session user db).sessions
        ≡ false
  unfolding end_replayed
  end_replayed-ends now session user db = ended-put _ db.sessions refl

  -- Beyond five seconds after the exchange of a token, its second use is refused and leaves its session
  -- revoked: for digests unique in the table, and when neither the successor has the digest of the token
  -- nor the history has it.
  pub rotate_session-replay :
      (clock clock' : ℕ → ℕ) (raw_refresh : ℕ) (proofs proofs' : List ℕ) (db db' : Accounts)
      (tokens : SessionTokens) (found : RefreshSession)
      → IsUnique db.sessions
      → hash_token (successor raw_refresh) ≢ hash_token raw_refresh
      → find (λ h. h.token_hash == hash_token raw_refresh) db.history ≡ none
      → find (is_rotatable (clock 0) (hash_token raw_refresh)) db.sessions ≡ some found
      → rotate_session hash_token successor access_token settings clock raw_refresh proofs db
        ≡ (db', ok tokens)
      → clock 1 + seconds 5 < clock' 1
      → (last : Accounts) × (rotate_session hash_token successor access_token settings clock'
            raw_refresh proofs' db'
          ≡ (last, err token_flow_error))
        × (any (λ s. s.id == tokens.session.id && is_none s.revoked_at) last.sessions ≡ false)
  rotate_session-replay clock clock' raw_refresh proofs proofs' db db' tokens found unique fresh new
        there h late =
      let (user, runs, kept, successor_of, answer) =
        second-answer hash_token successor access_token settings clock clock' raw_refresh proofs
          proofs' db db' tokens found unique fresh new there h in
      (
        end_replayed (clock' 1) tokens.session user db',
        answer
            ∙ late-refused (clock' 1) raw_refresh proofs'
                (entry_row hash_token successor access_token settings clock raw_refresh found)
                tokens.session user db' late,
        end_replayed-ends (clock' 1) tokens.session user db',
      )

  -- Within five seconds of the exchange, while the session has not expired, a second use that brings the
  -- proof of the session returns the successor that the exchange returned, under the same conditions.
  pub rotate_session-duplicate :
      (clock clock' : ℕ → ℕ) (raw_refresh : ℕ) (proofs proofs' : List ℕ) (db db' : Accounts)
      (tokens : SessionTokens) (found : RefreshSession)
      → IsUnique db.sessions
      → hash_token (successor raw_refresh) ≢ hash_token raw_refresh
      → find (λ h. h.token_hash == hash_token raw_refresh) db.history ≡ none
      → find (is_rotatable (clock 0) (hash_token raw_refresh)) db.sessions ≡ some found
      → rotate_session hash_token successor access_token settings clock raw_refresh proofs db
        ≡ (db', ok tokens)
      → clock 1 ≤ clock' 1
      → clock' 1 ≤ clock 1 + seconds 5
      → clock' 1 < tokens.session.idle_expires_at
      → clock' 1 < tokens.session.absolute_expires_at
      → any (λ proof. proof == tokens.session.csrf_token) proofs' ≡ true
      → (last : Accounts) × (again : SessionTokens) × (rotate_session hash_token successor
            access_token settings clock' raw_refresh proofs' db'
          ≡ (last, ok again))
        × (again.refresh_token ≡ tokens.refresh_token)
        × (again.session ≡ tokens.session)
        × (last.sessions ≡ db'.sessions)
  unfolding prolonged exchanged
  rotate_session-duplicate clock clock' raw_refresh proofs proofs' db db' tokens found unique fresh
        new there h since soon idle absolute proof =
      let (user, runs, kept, successor_of, answer) =
        second-answer hash_token successor access_token settings clock clock' raw_refresh proofs
          proofs' db db' tokens found unique fresh new there h in
      let unrevoked : tokens.session.revoked_at ≡ none =
        ap (λ (s : RefreshSession). s.revoked_at) kept
        ∙ rotatable-unrevoked (clock 0) (hash_token raw_refresh) found
            (find-passes (is_rotatable (clock 0) (hash_token raw_refresh)) db.sessions there) in
      let (last, again, same, token, session, sessions) =
        duplicate-answered (clock' 1) raw_refresh proofs'
          (entry_row hash_token successor access_token settings clock raw_refresh found)
          tokens.session user db' since soon unrevoked idle absolute runs
          (ap (λ (s : RefreshSession). s.refresh_token_hash) kept) proof in
      (last, again, answer ∙ same, token ∙ sym successor_of, session, sessions)
