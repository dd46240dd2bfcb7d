-- ===== src/Sessions/Alive.antt =====
-- Which sessions a refresh token can still keep alive.
use user_token_management_ap.Prelude.{
  inl, inr, ap, ◌∙◌, Option-cases, ℕ, Bool, true, ◌≡◌, refl, Option, none, some, List, [], ◌∷◌, ok,
  ◌==◌, arith,
}
use user_token_management_ap.Identity.{
  User, RefreshSession, RefreshTokenHistory, Accounts, find, is_active,
}
use user_token_management_ap.Resets.Laws.{has_session}
use user_token_management_ap.Sessions.{Settings, SessionTokens}
use user_token_management_ap.Sessions.Rotate.{
  is_rotatable, exchanged, prolonged, owner, finish_rotation, duplicate_is_current, answer_replay,
  answer_session, replay, rotate_session,
}

-- A session that a search finds unrevoked is one that its owner has.
find-has_session :
    (p : RefreshSession → Bool) (sessions : List RefreshSession) {s : RefreshSession}
    → find p sessions ≡ some s
    → s.revoked_at ≡ none
    → has_session s.user_id sessions ≡ true
unfolding find has_session
find-has_session p [] h n = cc h
find-has_session p (x ∷ xs) {s} h n = ground (arith, find-has_session p xs {s = s})

pub find-passes :
    {A : Type 0} (p : A → Bool) (xs : List A) {x : A} → find p xs ≡ some x → p x ≡ true
unfolding find
find-passes p [] h = cc h
find-passes p (y ∷ ys) {x} h = ground (arith, find-passes p ys {x = x})

pub rotatable-unrevoked :
    (now token_hash : ℕ) (s : RefreshSession)
    → is_rotatable now token_hash s ≡ true
    → s.revoked_at ≡ none
unfolding is_rotatable
rotatable-unrevoked now token_hash s h = ground arith

module _ (hash_token successor : ℕ → ℕ) (access_token : User → ℕ → ℕ) (settings : Settings) where
  finish-ok :
      (clock : ℕ → ℕ) (raw_refresh : ℕ) (session : RefreshSession) (found : Option User)
      (db db' : Accounts) (tokens : SessionTokens)
      → finish_rotation hash_token successor access_token settings clock raw_refresh session found
          db
        ≡ (db', ok tokens)
      → (user : User) × (found ≡ some user)
        × (is_active user ≡ true)
        × (tokens.session ≡ prolonged settings (clock 0) session)
  unfolding finish_rotation
  finish-ok clock raw_refresh session none db db' tokens h = cc
  finish-ok clock raw_refresh session (some user) db db' tokens h =
      (user, refl, ground arith, ground arith)

  answer-ok :
      (retry_now raw_refresh : ℕ) (csrf_proofs : List ℕ) (replayed : RefreshTokenHistory)
      (session : RefreshSession) (user : User) (db db' : Accounts) (tokens : SessionTokens)
      → answer_replay hash_token successor access_token settings retry_now raw_refresh csrf_proofs
          replayed session user db
        ≡ (db', ok tokens)
      → (is_active user ≡ true) × (session.revoked_at ≡ none) × (tokens.session ≡ session)
  unfolding answer_replay duplicate_is_current
  answer-ok retry_now raw_refresh csrf_proofs replayed session user db db' tokens h = ground arith

  session-ok :
      (retry_now raw_refresh : ℕ) (csrf_proofs : List ℕ) (replayed : RefreshTokenHistory)
      (p : RefreshSession → Bool) (db db' : Accounts) (tokens : SessionTokens)
      → answer_session hash_token successor access_token settings retry_now raw_refresh csrf_proofs
          replayed
          (find p db.sessions)
          db
        ≡ (db', ok tokens)
      → (user : User) × (owner tokens.session db ≡ some user)
        × (is_active user ≡ true)
        × (tokens.session.revoked_at ≡ none)
        × (has_session tokens.session.user_id db.sessions ≡ true)
  unfolding answer_session
  session-ok retry_now raw_refresh csrf_proofs replayed p db db' tokens h =
      elim (Option-cases (find p db.sessions)) [
        | inl gone ↦ cc (h, gone)
        | inr (session, found) ↦ elim (Option-cases (owner session db)) [
          | inl gone ↦ cc (rw (found, gone, answer_session) at h)
          | inr (user, there) ↦
              let (runs, live, same) =
                answer-ok retry_now raw_refresh csrf_proofs replayed session user db db' tokens
                  (rw (found, there, answer_session) at h) in
              (
                user,
                ap (λ s. owner s db) same ∙ there,
                runs,
                ap (λ (s : RefreshSession). s.revoked_at) same ∙ live,
                ap (λ (s : RefreshSession). has_session s.user_id db.sessions) same
                    ∙ find-has_session p db.sessions found live,
              )
        ]
      ]

  -- When a rotation returns tokens, by the exchange or to a duplicate of a concurrent request, their
  -- session is not revoked, its owner is active, and the owner had a session that was not revoked.
  pub rotate_session-live :
      (clock : ℕ → ℕ) (raw_refresh : ℕ) (csrf_proofs : List ℕ) (db db' : Accounts)
      (tokens : SessionTokens)
      → rotate_session hash_token successor access_token settings clock raw_refresh csrf_proofs db
        ≡ (db', ok tokens)
      → (user : User) × (owner tokens.session db ≡ some user)
        × (is_active user ≡ true)
        × (tokens.session.revoked_at ≡ none)
        × (has_session tokens.session.user_id db.sessions ≡ true)
  unfolding rotate_session replay exchanged prolonged owner
  rotate_session-live clock raw_refresh csrf_proofs db db' tokens h =
      let rotatable = is_rotatable (clock 0) (hash_token raw_refresh) in
      elim (Option-cases (find rotatable db.sessions)) [
        | inl gone ↦
            elim (Option-cases (find (λ x. x.token_hash == hash_token raw_refresh) db.history)) [
              | inl new ↦ cc (rw (gone, new, rotate_session, replay) at h)
              | inr (replayed, known) ↦
                  session-ok (clock 1) raw_refresh csrf_proofs replayed
                    (λ s. s.id == replayed.session_id) db db' tokens
                    (rw (gone, known, rotate_session, replay) at h)
            ]
        | inr (found, there) ↦
            let session = exchanged (clock 0) (hash_token (successor raw_refresh)) found in
            let (user, has, runs, same) =
              finish-ok clock raw_refresh session (owner session db) db db' tokens
                (rw (there, rotate_session) at h) in
            let live =
              rotatable-unrevoked (clock 0) (hash_token raw_refresh) found
                (find-passes rotatable db.sessions there) in
            (
              user,
              ap (λ s. owner s db) same ∙ has,
              runs,
              ap (λ (s : RefreshSession). s.revoked_at) same ∙ live,
              ap (λ (s : RefreshSession). has_session s.user_id db.sessions) same
                  ∙ find-has_session rotatable db.sessions there live,
            )
      ]
