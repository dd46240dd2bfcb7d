-- ===== src/Sessions/Second.antt =====
-- The second use of a refresh token is answered from the history of the first.
use user_token_management_ap.Prelude.{
  ℕ, true, ◌≡◌, ◌≢◌, refl, Option, none, some, List, [], ◌∷◌, ◌++◌, ok, ◌==◌, arith, ap, sym, ◌∙◌,
  subst,
}
use user_token_management_ap.Identity.{
  User, RefreshSession, RefreshTokenHistory, Accounts, find, is_active,
}
use user_token_management_ap.Sessions.{Settings, SessionTokens}
use user_token_management_ap.Sessions.Rotate.{
  is_rotatable, exchanged, exchange, prolonged, put_session, owner, finish_rotation, answer_replay,
  answer_session, replay, rotate_session,
}
use user_token_management_ap.Sessions.Spent.{
  IsUnique, IsSpent, exchange-IsSpent, put-IsSpent, spent-find, kept-find, history-find,
}

module _ (hash_token successor : ℕ → ℕ) (access_token : User → ℕ → ℕ) (settings : Settings) where
  -- the row of a session after its exchange
  abbrev pub kept_row : (ℕ → ℕ) → ℕ → RefreshSession → RefreshSession
  kept_row clock raw_refresh found =
      prolonged settings (clock 0) (exchanged (clock 0) (hash_token (successor raw_refresh)) found)

  abbrev pub entry_row : (ℕ → ℕ) → ℕ → RefreshSession → RefreshTokenHistory
  entry_row clock raw_refresh found = record {
    session_id = found.id;
    token_hash = hash_token raw_refresh;
    consumed_at = (clock 1);
  }

  finished_lem :
      (clock : ℕ → ℕ) (raw_refresh : ℕ) (found : RefreshSession) (o : Option User)
      (db db' : Accounts) (tokens : SessionTokens)
      → finish_rotation hash_token successor access_token settings clock raw_refresh
          (exchanged (clock 0) (hash_token (successor raw_refresh)) found)
          o
          db
        ≡ (db', ok tokens)
      → (user : User) × (o ≡ some user)
        × (is_active user ≡ true)
        × (tokens.session ≡ kept_row clock raw_refresh found)
        × (tokens.refresh_token ≡ successor raw_refresh)
        × (db'.users ≡ db.users)
        × (db'.history ≡ db.history ++ entry_row clock raw_refresh found ∷ [])
        × (db'.sessions
            ≡ put_session (kept_row clock raw_refresh found) (
                exchange
                  (clock 0)
                  (hash_token raw_refresh)
                  (hash_token (successor raw_refresh))
                  db.sessions))
  unfolding finish_rotation exchanged
  finished_lem clock raw_refresh found none db db' tokens h = cc
  finished_lem clock raw_refresh found (some user) db db' tokens h = (
    user,
    refl,
    ground arith,
    ground arith,
    ground arith,
    ground arith,
    ground arith,
    ground arith,
  )

  answered_lem :
      (clock : ℕ → ℕ) (raw_refresh : ℕ) (proofs : List ℕ) (db : Accounts)
      (entry : RefreshTokenHistory) (session : RefreshSession) (user : User)
      → find (is_rotatable (clock 0) (hash_token raw_refresh)) db.sessions ≡ none
      → find (λ h. h.token_hash == hash_token raw_refresh) db.history ≡ some entry
      → find (λ s. s.id == entry.session_id) db.sessions ≡ some session
      → owner session db ≡ some user
      → rotate_session hash_token successor access_token settings clock raw_refresh proofs db
        ≡ answer_replay hash_token successor access_token settings
            (clock 1)
            raw_refresh
            proofs
            entry
            session
            user
            db
  unfolding rotate_session replay answer_session
  answered_lem clock raw_refresh proofs db entry session user gone known row his =
      rw (gone, rotate_session, known, replay, row, answer_session, his) refl

  -- The second use of a token whose first use exchanged it is answered from the history.
  pub second-answer :
      (clock clock' : ℕ → ℕ) (raw_refresh : ℕ) (proofs proofs' : List ℕ) (db db' : Accounts)
      (tokens : SessionTokens) (found : RefreshSession)
      → IsUnique db.sessions
      → hash_token (successor raw_refresh) ≢ hash_token raw_refresh
      → find (λ h. h.token_hash == hash_token raw_refresh) db.history ≡ none
      → find (is_rotatable (clock 0) (hash_token raw_refresh)) db.sessions ≡ some found
      → rotate_session hash_token successor access_token settings clock raw_refresh proofs db
        ≡ (db', ok tokens)
      → (user : User) × (is_active user ≡ true)
        × (tokens.session ≡ kept_row clock raw_refresh found)
        × (tokens.refresh_token ≡ successor raw_refresh)
        × (rotate_session hash_token successor access_token settings clock' raw_refresh proofs' db'
            ≡ answer_replay hash_token successor access_token settings
                (clock' 1)
                raw_refresh
                proofs'
                (entry_row clock raw_refresh found)
                tokens.session
                user
                db')
  unfolding rotate_session owner exchanged prolonged
  second-answer clock clock' raw_refresh proofs proofs' db db' tokens found unique fresh new there
        h =
      let (user, has, runs, kept, successor_of, users, history, sessions) =
        finished_lem clock raw_refresh found
          (owner (exchanged (clock 0) (hash_token (successor raw_refresh)) found) db) db db' tokens
          (rw (there, rotate_session) at h) in
      let spent : IsSpent (hash_token raw_refresh) db'.sessions =
        subst (IsSpent (hash_token raw_refresh)) (sym sessions) (
          put-IsSpent (hash_token raw_refresh) (kept_row clock raw_refresh found) _ fresh (
            exchange-IsSpent (clock 0) (hash_token raw_refresh) (hash_token (successor raw_refresh))
              db.sessions unique there fresh)) in
      let gone = spent-find (clock' 0) (hash_token raw_refresh) db'.sessions spent in
      let known =
        ap (find (λ h. h.token_hash == hash_token raw_refresh)) history
        ∙ history-find (hash_token raw_refresh) (entry_row clock raw_refresh found) db.history new
            refl in
      let row =
        ap (find (λ s. s.id == found.id)) sessions
        ∙ kept-find (clock 0) (hash_token raw_refresh) (hash_token (successor raw_refresh))
            (kept_row clock raw_refresh found) db.sessions there refl in
      let his = ap (find (λ u. u.id == found.user_id)) users ∙ has in
      (
        user,
        runs,
        kept,
        successor_of,
        answered_lem clock' raw_refresh proofs' db' (entry_row clock raw_refresh found)
              (kept_row clock raw_refresh found) user gone known row his
            ∙ ap
                (λ s.
                  answer_replay hash_token successor access_token settings (clock' 1) raw_refresh
                    proofs' (entry_row clock raw_refresh found) s user db')
                (sym kept),
      )
