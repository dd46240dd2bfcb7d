-- ===== src/Sessions/Spent.antt =====
-- What an exchange leaves in the tables: no row with the spent digest, and the history row.
use user_token_management_ap.Prelude.{
  ℕ, true, false, ◌&&◌, ◌≡◌, ◌≢◌, refl, none, some, is_none, List, [], ◌∷◌, ◌++◌, ◌==◌, arith, any,
  All, inl, inr, Bool-cases, subst,
}
use user_token_management_ap.Identity.{RefreshSession, RefreshTokenHistory, find}
use user_token_management_ap.Sessions.Rotate.{is_rotatable, exchanged, exchange, put_session}

-- `refresh_token_hash` is a unique column.
unfoldable pub IsUnique : List RefreshSession → Type 0
IsUnique [] = Unit
IsUnique (s ∷ ss) = All (λ t. t.refresh_token_hash ≢ s.refresh_token_hash) ss × IsUnique ss

-- No row carries the digest.
unfoldable pub IsSpent : ℕ → List RefreshSession → Type 0
IsSpent token_hash sessions = All (λ s. s.refresh_token_hash ≢ token_hash) sessions

others-IsSpent :
    (now token_hash replacement_hash h : ℕ) (ss : List RefreshSession)
    → h ≡ token_hash
    → All (λ t. t.refresh_token_hash ≢ h) ss
    → replacement_hash ≢ token_hash
    → IsSpent token_hash (exchange now token_hash replacement_hash ss)
unfolding IsSpent exchange exchanged
others-IsSpent now token_hash replacement_hash h [] e all fresh = tt
others-IsSpent now token_hash replacement_hash h (s ∷ ss) e all fresh = (
  λ hit. all.0 (ground (arith, hit)),
  others-IsSpent now token_hash replacement_hash h ss e all.1 fresh,
)

pub spent-find :
    (now token_hash : ℕ) (ss : List RefreshSession)
    → IsSpent token_hash ss
    → find (is_rotatable now token_hash) ss ≡ none
unfolding IsSpent find is_rotatable
spent-find now token_hash [] all = refl
spent-find now token_hash (s ∷ ss) all = ground (arith, spent-find now token_hash ss all.1)

rotatable-hash :
    (now token_hash : ℕ) (s : RefreshSession)
    → is_rotatable now token_hash s ≡ true
    → s.refresh_token_hash ≡ token_hash
unfolding is_rotatable
rotatable-hash now token_hash s h = ground arith

pub exchange-IsSpent :
    (now token_hash replacement_hash : ℕ) (ss : List RefreshSession) {found : RefreshSession}
    → IsUnique ss
    → find (is_rotatable now token_hash) ss ≡ some found
    → replacement_hash ≢ token_hash
    → IsSpent token_hash (exchange now token_hash replacement_hash ss)
unfolding IsSpent IsUnique exchange exchanged find
exchange-IsSpent now token_hash replacement_hash [] u f fresh = tt
exchange-IsSpent now token_hash replacement_hash (s ∷ ss) {found} u f fresh =
    elim (Bool-cases (is_rotatable now token_hash s)) [
      | inl hit ↦ (
        λ back. fresh (ground (arith, hit, back)),
        others-IsSpent now token_hash replacement_hash s.refresh_token_hash ss
            (rotatable-hash now token_hash s hit) u.0 fresh,
      )
      | inr missed ↦
          let later : find (is_rotatable now token_hash) ss ≡ some found =
            ground (arith, f, missed) in
          (
            λ same.
                let none_left = spent-find now token_hash ss (
                  subst (λ h. All (λ t. t.refresh_token_hash ≢ h) ss) (ground (arith, missed, same))
                    u.0) in
                cc (later, none_left),
            exchange-IsSpent now token_hash replacement_hash ss u.1 later fresh,
          )
    ]

pub put-IsSpent :
    (token_hash : ℕ) (kept : RefreshSession) (ss : List RefreshSession)
    → kept.refresh_token_hash ≢ token_hash
    → IsSpent token_hash ss
    → IsSpent token_hash (put_session kept ss)
unfolding IsSpent put_session
put-IsSpent token_hash kept [] k all = tt
put-IsSpent token_hash kept (s ∷ ss) k all =
    (λ hit. ground (arith, hit), put-IsSpent token_hash kept ss k all.1)

-- The row of the session that was exchanged is found by its identifier.
pub kept-find :
    (now token_hash replacement_hash : ℕ) (kept : RefreshSession) (ss : List RefreshSession)
    {found : RefreshSession}
    → find (is_rotatable now token_hash) ss ≡ some found
    → kept.id ≡ found.id
    → find (λ s. s.id == found.id) (put_session kept (exchange now token_hash replacement_hash ss))
      ≡ some kept
unfolding find exchange exchanged put_session
kept-find now token_hash replacement_hash kept [] h same = cc h
kept-find now token_hash replacement_hash kept (s ∷ ss) {found} h same =
    ground (arith, kept-find now token_hash replacement_hash kept ss {found = found})

pub history-find :
    (token_hash : ℕ) (entry : RefreshTokenHistory) (hs : List RefreshTokenHistory)
    → find (λ h. h.token_hash == token_hash) hs ≡ none
    → entry.token_hash ≡ token_hash
    → find (λ h. h.token_hash == token_hash) (hs ++ entry ∷ []) ≡ some entry
unfolding find
history-find token_hash entry [] h same = ground arith
history-find token_hash entry (x ∷ xs) h same = ground (arith, history-find token_hash entry xs)

pub ended-put :
    (k : RefreshSession) (ss : List RefreshSession)
    → is_none k.revoked_at ≡ false
    → any (λ s. s.id == k.id && is_none s.revoked_at) (put_session k ss) ≡ false
unfolding put_session
ended-put k [] h = refl
ended-put k (s ∷ ss) h = ground (arith, ended-put k ss h)
