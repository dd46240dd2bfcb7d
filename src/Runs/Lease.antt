-- ===== src/Runs/Lease.antt =====
-- The lease checks and renewals of app/services/pipeline_runs.py.
use user_token_management_ap.Prelude.{
  ℕ, ◌+◌, ◌*◌, Bool, true, false, not, ◌&&◌, ◌||◌, some, Result, ok, ◌>>◌, raise_if, passed, ahead,
  holds, ◌==◌, if◌then◌else◌,
}
use user_token_management_ap.Runs.Status.{is_worker_owned}
use user_token_management_ap.Runs.Row.{Work, RunError, run_conflict, lookup_error, row_missing}

-- `timedelta(seconds=n)`, in microseconds
abbrev pub seconds : ℕ → ℕ
seconds n = n * 1000000

-- `_refresh_and_require_lease`: the row is read again; its lease must be the worker's, and not past.
unfoldable pub refresh_and_require_lease : ℕ → ℕ → Work → Result RunError (Unit {0})
refresh_and_require_lease now token w = do
  raise_if (not w.stored) row_missing
  raise_if (not (holds w.run.lease_token token)) run_conflict
  raise_if (passed w.run.lease_expires_at now) run_conflict

-- `owned_run`
unfoldable pub owned_run : ℕ → Work → Result RunError (Unit {0})
owned_run user w = raise_if (not w.stored || not (w.run.user_id == user)) lookup_error

-- `heartbeat`
unfoldable pub heartbeat : (ℕ → ℕ) → ℕ → ℕ → Work → Result RunError Work
unfolding refresh_and_require_lease
heartbeat clock token lease_seconds w = do
  refresh_and_require_lease (clock 0) token w
  ok (record w {
    run = record w.run {
      heartbeat_at = some (clock 1);
      lease_expires_at = some (clock 1 + seconds lease_seconds);
    };
  })

-- the condition of the conditional update in `renew_lease`
unfoldable pub may_renew : ℕ → ℕ → Work → Bool
may_renew now token w =
    w.stored
    && holds w.run.lease_token token
    && is_worker_owned w.run.status
    && ahead w.run.lease_expires_at now

-- `renew_lease`: the row after the update, and whether it was renewed.
unfoldable pub renew_lease : (ℕ → ℕ) → ℕ → ℕ → Work → Work × Bool
unfolding may_renew
renew_lease clock token lease_seconds w =
    if may_renew (clock 0) token w
    then (
      record w {
        run = record w.run {
          heartbeat_at = some (clock 0);
          lease_expires_at = some (clock 0 + seconds lease_seconds);
          updated_at = clock 0;
        };
      },
      true,
    )
    else (w, false)
