-- ===== src/RateLimit/Laws.antt =====
-- What a fixed window admits.
use user_token_management_ap.Prelude.{
  ℕ, ◌+◌, ◌*◌, ◌-◌, ◌/◌, ◌≤◌, ◌<◌, String, Bool, true, false, not, ◌&&◌, ◌||◌, ◌≡◌, none, List, [],
  ◌∷◌, ltb, ◌==◌, if◌then◌else◌, length, All, arith, join, eq_iff, min, subst,
}
use native.Mathlib.Nat.{mod-lt, mod-le}
use user_token_management_ap.Runs.Lease.{seconds}
use user_token_management_ap.RateLimit.{
  Kind, kind_text, Bucket, Settings, window_start, is_bucket, increment, count_checks, checks_of,
  retry_after, Verdict, allowed, too_many_requests, purge, check_window, check_rate_limit,
}

-- The requests that the bucket of a key has counted.
unfoldable pub count_of : String → ℕ → ℕ → List Bucket → ℕ
count_of scope key_hash window [] = 0
count_of scope key_hash window (b ∷ bs) =
    let rest = count_of scope key_hash window bs in
    if is_bucket scope key_hash window b then b.count else rest

-- Every bucket of the key expires at the given time.
unfoldable pub lasts : String → ℕ → ℕ → ℕ → List Bucket → Bool
lasts scope key_hash window expires_at [] = true
lasts scope key_hash window expires_at (b ∷ bs) =
    (not (is_bucket scope key_hash window b) || b.expires_at == expires_at)
    && lasts scope key_hash window expires_at bs

module _ (scope : String) (key_hash window expires_at : ℕ) where
  increment-counts :
      (table : List Bucket)
      → ((increment scope key_hash window expires_at table).1
          ≡ count_of scope key_hash window table + 1)
        × (count_of scope key_hash window (increment scope key_hash window expires_at table).0
            ≡ count_of scope key_hash window table + 1)
        × (lasts scope key_hash window expires_at table ≡ true
            → lasts scope key_hash window expires_at
                (increment scope key_hash window expires_at table).0
              ≡ true)
  unfolding increment count_of lasts is_bucket
  increment-counts [] = ground (arith, eq_iff scope scope)
  increment-counts (b ∷ bs) = ground (arith, increment-counts bs)

  purge-counts :
      (now : ℕ) (table : List Bucket)
      → now < expires_at
      → lasts scope key_hash window expires_at table ≡ true
      → (count_of scope key_hash window (purge now table) ≡ count_of scope key_hash window table)
        × (lasts scope key_hash window expires_at (purge now table) ≡ true)
  unfolding purge count_of lasts
  purge-counts now [] h l = ground arith
  purge-counts now (b ∷ bs) h l = ground (arith, purge-counts now bs h)

-- The window that a time falls into began at most the window's length before.
pub window_start_lem :
    (now window_seconds : ℕ)
    → 0 < window_seconds
    → (window_start now window_seconds ≤ now)
      × (now < window_start now window_seconds + seconds window_seconds)
unfolding window_start
window_start_lem now window_seconds h =
    let e_mod = mod-lt (now / 1000000) h in
    let e_le = mod-le (now / 1000000) window_seconds in
    (omega (arith, e_mod, e_le), omega (arith, e_mod, e_le))

-- With a window of at least a second, the wait that a refused caller is told is at least a second and
-- at most the window.
pub retry_after_lem :
    (now window_seconds : ℕ)
    → 0 < window_seconds
    → (1 ≤ retry_after now window_seconds) × (retry_after now window_seconds ≤ window_seconds)
unfolding retry_after
retry_after_lem now window_seconds h =
    let (from, until) = window_start_lem now window_seconds h in
    (omega arith, omega (arith, from, until))

unfoldable pub is_allowed : Verdict → Bool
is_allowed allowed = true
is_allowed (too_many_requests wait kinds) = false

-- The requests of one source at the given times, one after the other: how many are allowed.
unfoldable pub admitted : (String → ℕ) → Settings → String → String → ℕ → List ℕ → List Bucket → ℕ
unfolding is_allowed check_rate_limit
admitted digest settings scope address limit [] table = 0
admitted digest settings scope address limit (now ∷ nows) table =
    let (after, verdict) =
      check_rate_limit digest settings now scope address limit none none table in
    let rest = admitted digest settings scope address limit nows after in
    if is_allowed verdict then rest + 1 else rest

module _ (digest : String → ℕ) (settings : Settings) (scope address : String) (limit : ℕ)
    (enabled : settings.rate_limit_enabled ≡ true)
    (long : 0 < settings.rate_limit_window_seconds) where
  abbrev name : String
  name = join scope (kind_text Kind.source)

  abbrev key : ℕ
  key = digest (join name address)

  abbrev expiry : ℕ → ℕ
  expiry window = window + seconds (settings.rate_limit_window_seconds * 2)

  -- What one request does to the bucket of a window.
  abbrev Counts : ℕ → ℕ → List Bucket → Type 0
  Counts window now table =
      (is_allowed (check_rate_limit digest settings now scope address limit none none table).1
        ≡ ltb (count_of name key window table) limit)
      × (count_of name key window
            (check_rate_limit digest settings now scope address limit none none table).0
          ≡ count_of name key window table + 1)
      × (lasts name key window (expiry window)
            (check_rate_limit digest settings now scope address limit none none table).0
          ≡ true)

  check-Counts :
      (now : ℕ) (table : List Bucket)
      → lasts name key
          (window_start now settings.rate_limit_window_seconds)
          (expiry (window_start now settings.rate_limit_window_seconds))
          table
        ≡ true
      → Counts (window_start now settings.rate_limit_window_seconds) now table
  unfolding check_rate_limit check_window checks_of count_checks is_allowed
  check-Counts now table l =
      let window = window_start now settings.rate_limit_window_seconds in
      let (n, counted, lasting) = increment-counts name key window (expiry window) table in
      let (_, until) = window_start_lem now settings.rate_limit_window_seconds long in
      let (same, lasting') =
        purge-counts name key window (expiry window) now
          (increment name key window (expiry window) table).0 (omega (arith, until)) (lasting l) in
      rw enabled (ground (arith, n, counted, same, lasting'))

  -- Of any number of requests from one source within one window, without an account key, exactly as
  -- many are allowed as the limit leaves room for in the source's bucket, whatever the other buckets
  -- hold, if the limit is enabled and the source's buckets of the window expire when the code has it.
  pub admitted_within_window :
      (window : ℕ) (nows : List ℕ) (table : List Bucket)
      → All (λ now. window_start now settings.rate_limit_window_seconds ≡ window) nows
      → lasts name key window (expiry window) table ≡ true
      → admitted digest settings scope address limit nows table
        ≡ min (length nows) (limit - count_of name key window table)
  unfolding admitted
  admitted_within_window window [] table same l = ground arith
  admitted_within_window window (now ∷ nows) table same l =
      let (verdict, counted, lasting) =
        subst (λ w. lasts name key w (expiry w) table ≡ true → Counts w now table) same.0
          (check-Counts now table) l in
      let rest =
        admitted_within_window window nows
          (check_rate_limit digest settings now scope address limit none none table).0 same.1
          lasting in
      ground (arith, rest, verdict, counted)
