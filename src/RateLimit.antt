-- ===== src/RateLimit.antt =====
-- app/services/rate_limit.py: fixed windows shared through the table `RateLimitBucket`. The digest of
-- a key is the parameter `digest`; the source address and the folded account key are arguments.
pub mod Laws
mod Tests
use user_token_management_ap.Prelude.{
  ℕ, ◌+◌, ◌*◌, ◌-◌, ◌/◌, ◌%◌, String, Bool, true, false, not, ◌&&◌, ◌||◌, Option, none, some, List,
  [], ◌∷◌, ◌++◌, max, ltb, leb, ◌==◌, str_eq, select, join, if◌then◌else◌,
}
use user_token_management_ap.Runs.Lease.{seconds}

pub data Kind : Type 0 where
  source account : Kind

unfoldable pub kind_text : Kind → String
kind_text Kind.source = "source"
kind_text Kind.account = "account"

-- `RateLimitBucket`
pub record Bucket : Type 0 where
  pub scope : String
  pub key_hash : ℕ
  pub window_started_at : ℕ
  pub count : ℕ
  pub expires_at : ℕ

pub record Settings : Type 0 where
  pub rate_limit_enabled : Bool
  pub rate_limit_window_seconds : ℕ

-- `_window_start`: the start of the window, from the whole seconds of a time in microseconds
unfoldable pub window_start : ℕ → ℕ → ℕ
window_start now window_seconds =
    let epoch = now / 1000000 in seconds (epoch - epoch % window_seconds)

-- the primary key of a bucket
unfoldable pub is_bucket : String → ℕ → ℕ → Bucket → Bool
is_bucket scope key_hash window b =
    str_eq b.scope scope && b.key_hash == key_hash && b.window_started_at == window

-- `_increment`: the insert, or the update on a conflict, and the count that it returns
unfoldable pub increment : String → ℕ → ℕ → ℕ → List Bucket → List Bucket × ℕ
unfolding is_bucket
increment scope key_hash window expires_at [] = (
  record {
    scope = scope;
    key_hash = key_hash;
    window_started_at = window;
    count = 1;
    expires_at = expires_at;
  }
      ∷ [],
  1,
)
increment scope key_hash window expires_at (b ∷ bs) =
    let (rest, n) = increment scope key_hash window expires_at bs in
    if is_bucket scope key_hash window b
    then (record b { count = b.count + 1; expires_at = expires_at } ∷ bs, b.count + 1)
    else (b ∷ rest, n)

-- One dimension of a check: its kind, the value that is counted, and its limit.
pub record Check : Type 0 where
  pub kind : Kind
  pub value : String
  pub limit : ℕ

-- the loop over `checks`: the table after it, and `exceeded`
unfoldable pub count_checks :
    (String → ℕ) → String → ℕ → ℕ → List Check → List Bucket → List Bucket × List Kind
unfolding increment join kind_text
count_checks digest scope window expires_at [] table = (table, [])
count_checks digest scope window expires_at (c ∷ cs) table =
    let (counted, n) =
      increment (join scope (kind_text c.kind))
        (digest (join (join scope (kind_text c.kind)) c.value)) window expires_at table in
    let (after, exceeded) = count_checks digest scope window expires_at cs counted in
    (after, if ltb c.limit n then c.kind ∷ exceeded else exceeded)

-- `checks`; `none` stands for an absent or empty account key
unfoldable pub checks_of : String → ℕ → Option ℕ → Option String → List Check
checks_of address source_limit (some account_limit) (some key) =
    record { kind = Kind.source; value = address; limit = source_limit }
    ∷ record { kind = Kind.account; value = key; limit = account_limit }
    ∷ []
checks_of address source_limit _ _ =
    record { kind = Kind.source; value = address; limit = source_limit } ∷ []

-- `retry_after`, in seconds
unfoldable pub retry_after : ℕ → ℕ → ℕ
unfolding window_start
retry_after now window_seconds =
    max 1 ((window_start now window_seconds + seconds window_seconds - now) / 1000000)

pub data Verdict : Type 0 where
  allowed : Verdict
  -- status 429 with its header, and the dimensions of the audit row
  too_many_requests : ℕ → List Kind → Verdict

abbrev verdict_of : ℕ → List Kind → Verdict
verdict_of wait [] = allowed
verdict_of wait (k ∷ ks) = too_many_requests wait (k ∷ ks)

-- the deletion of what has expired
unfoldable pub purge : ℕ → List Bucket → List Bucket
purge now table = select (λ b. not (leb b.expires_at now)) table

unfoldable pub check_window :
    (String → ℕ) → ℕ → ℕ → String → List Check → List Bucket → List Bucket × Verdict
unfolding window_start count_checks purge retry_after
check_window digest now window_seconds scope checks table =
    let window = window_start now window_seconds in
    let (counted, exceeded) =
      count_checks digest scope window (window + seconds (window_seconds * 2)) checks table in
    (purge now counted, verdict_of (retry_after now window_seconds) exceeded)

-- `check_rate_limit`
unfoldable pub check_rate_limit :
    (String → ℕ)
    → Settings
    → ℕ
    → String
    → String
    → ℕ
    → Option ℕ
    → Option String
    → List Bucket
    → List Bucket × Verdict
unfolding check_window checks_of
check_rate_limit digest settings now scope address source_limit account_limit key table =
    if settings.rate_limit_enabled
    then check_window digest now settings.rate_limit_window_seconds scope
        (checks_of address source_limit account_limit key) table
    else (table, allowed)
