-- ===== src/Sessions/Rotate.antt =====
-- `rotate_session` of app/services/sessions.py: a refresh token is exchanged for its successor once, and
-- the second use of a token is either the duplicate of a concurrent request or a replay that ends the
-- session. `clock 0` is the time of the exchange, `clock 1` the later time that either path reads.
use user_token_management_ap.Prelude.{
  ℕ, ◌+◌, min, Bool, not, ◌&&◌, Option, none, some, is_none, List, [], ◌∷◌, ◌++◌, map, any, ◌==◌,
  ltb, leb, if◌then◌else◌,
}
use user_token_management_ap.Runs.Lease.{seconds}
use user_token_management_ap.Identity.{
  User, RefreshSession, RefreshTokenHistory, Accounts, token_flow_error, refresh_overlap_retry,
  find, is_active, audited, record_event,
}
use user_token_management_ap.Sessions.{
  Settings, minutes, SessionTokens, Outcome, committed, refused,
}

-- the condition and the values of the update that exchanges the token
unfoldable pub is_rotatable : ℕ → ℕ → RefreshSession → Bool
is_rotatable now token_hash s =
    s.refresh_token_hash == token_hash
    && is_none s.revoked_at
    && ltb now s.idle_expires_at
    && ltb now s.absolute_expires_at

unfoldable pub exchanged : ℕ → ℕ → RefreshSession → RefreshSession
exchanged now replacement_hash s = record s {
  refresh_token_hash = replacement_hash;
  last_seen_at = now;
}

unfoldable pub exchange : ℕ → ℕ → ℕ → List RefreshSession → List RefreshSession
unfolding is_rotatable exchanged
exchange now token_hash replacement_hash sessions =
    map (λ s. if is_rotatable now token_hash s then exchanged now replacement_hash s else s)
      sessions

-- `idle_expires_at` of the session that was exchanged
unfoldable pub prolonged : Settings → ℕ → RefreshSession → RefreshSession
prolonged settings now s = record s {
  idle_expires_at = min (now + minutes settings.session_idle_minutes) s.absolute_expires_at;
}

unfoldable pub put_session : RefreshSession → List RefreshSession → List RefreshSession
put_session session sessions = map (λ s. if s.id == session.id then session else s) sessions

unfoldable pub owner : RefreshSession → Accounts → Option User
unfolding find
owner s db = find (λ u. u.id == s.user_id) db.users

-- `duplicate_is_current`
unfoldable pub duplicate_is_current : ℕ → ℕ → RefreshTokenHistory → RefreshSession → User → Bool
unfolding is_active
duplicate_is_current retry_now replacement_hash replayed session user =
    leb replayed.consumed_at retry_now
    && leb retry_now (replayed.consumed_at + seconds 5)
    && is_none session.revoked_at
    && ltb retry_now session.idle_expires_at
    && ltb retry_now session.absolute_expires_at
    && is_active user
    && session.refresh_token_hash == replacement_hash

abbrev pub revoked_or : ℕ → Option ℕ → ℕ
revoked_or now none = now
revoked_or now (some at) = at

-- `session.revoked_at = session.revoked_at or retry_now`, with its audit row
unfoldable pub end_replayed : ℕ → RefreshSession → User → Accounts → Accounts
unfolding put_session
end_replayed retry_now session user db = record db {
  sessions =
      put_session (record session { revoked_at = some (revoked_or retry_now session.revoked_at) })
        db.sessions;
  audits =
      record_event "auth.session.refresh_reuse" (some user.id) (some user.id) "denied" db.audits;
}

module _ (hash_token successor : ℕ → ℕ) (access_token : User → ℕ → ℕ) (settings : Settings) where
  -- the rest of the exchange, on the session's new row; an inactive owner rolls it back
  unfoldable pub finish_rotation :
      (ℕ → ℕ) → ℕ → RefreshSession → Option User → Accounts → Outcome SessionTokens
  unfolding exchange prolonged put_session is_active
  finish_rotation clock raw_refresh session none db = refused db token_flow_error
  finish_rotation clock raw_refresh session (some user) db =
      let token_hash = hash_token raw_refresh in
      let replacement = successor raw_refresh in
      let kept = prolonged settings (clock 0) session in
      if not (is_active user)
      then refused db token_flow_error
      else committed
          (record db {
            sessions =
                put_session kept
                  (exchange (clock 0) token_hash (hash_token replacement) db.sessions);
            history =
                db.history
                ++ record {
                  session_id = session.id;
                  token_hash = token_hash;
                  consumed_at = (clock 1);
                }
                  ∷ [];
            audits = audited "auth.session.refreshed" (some user.id) user.id db.audits;
          })
          (record {
            access_token = access_token user session.id;
            refresh_token = replacement;
            session = kept;
          })

  -- the answer to a token that was exchanged before
  unfoldable pub answer_replay :
      ℕ
      → ℕ
      → List ℕ
      → RefreshTokenHistory
      → RefreshSession
      → User
      → Accounts
      → Outcome SessionTokens
  unfolding duplicate_is_current end_replayed
  answer_replay retry_now raw_refresh csrf_proofs replayed session user db =
      let replacement = successor raw_refresh in
      if duplicate_is_current retry_now (hash_token replacement) replayed session user
      then (if any (λ proof. proof == session.csrf_token) csrf_proofs
          then committed
              (record db {
                audits = audited "auth.session.refresh_duplicate" (some user.id) user.id db.audits;
              })
              (record {
                access_token = access_token user session.id;
                refresh_token = replacement;
                session = session;
              })
          else refused
              (record db {
                audits =
                    record_event "auth.session.refresh_duplicate_denied" (some user.id)
                      (some user.id) "denied" db.audits;
              })
              refresh_overlap_retry)
      else refused (end_replayed retry_now session user db) token_flow_error

  -- `replayed.session` and `session.user`: a foreign key sees to it that both are there.
  unfoldable pub answer_session :
      ℕ
      → ℕ
      → List ℕ
      → RefreshTokenHistory
      → Option RefreshSession
      → Accounts
      → Outcome SessionTokens
  unfolding owner answer_replay
  answer_session retry_now raw_refresh csrf_proofs replayed none db = refused db token_flow_error
  answer_session retry_now raw_refresh csrf_proofs replayed (some session) db =
      elim (owner session db) [
        | none ↦ refused db token_flow_error
        | some user ↦ answer_replay retry_now raw_refresh csrf_proofs replayed session user db
      ]

  unfoldable pub replay :
      ℕ → ℕ → List ℕ → Option RefreshTokenHistory → Accounts → Outcome SessionTokens
  unfolding find answer_session
  replay retry_now raw_refresh csrf_proofs none db = refused db token_flow_error
  replay retry_now raw_refresh csrf_proofs (some replayed) db =
      answer_session retry_now raw_refresh csrf_proofs replayed
        (find (λ s. s.id == replayed.session_id) db.sessions) db

  -- `rotate_session`; `csrf_proofs` are the values of the request's CSRF cookie.
  unfoldable pub rotate_session : (ℕ → ℕ) → ℕ → List ℕ → Accounts → Outcome SessionTokens
  unfolding find owner is_rotatable exchanged finish_rotation replay
  rotate_session clock raw_refresh csrf_proofs db =
      elim (find (is_rotatable (clock 0) (hash_token raw_refresh)) db.sessions) [
        | none ↦
            replay (clock 1) raw_refresh csrf_proofs
              (find (λ h. h.token_hash == hash_token raw_refresh) db.history) db
        | some found ↦
            let session = exchanged (clock 0) (hash_token (successor raw_refresh)) found in
            finish_rotation clock raw_refresh session (owner session db) db
      ]
