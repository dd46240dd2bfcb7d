-- ===== src/Runs/Defer.antt =====
-- `defer_run_for_databricks_compute` of app/services/pipeline_runs.py.
pub mod Laws
use user_token_management_ap.Prelude.{
  ℕ, ◌+◌, min, String, Bool, true, false, not, ◌||◌, Option, none, some, is_some, Result, ok, ◌>>=◌,
  ◌>>◌, leb, if◌then◌else◌,
}
use user_token_management_ap.Runs.Status.{Status, Stage}
use user_token_management_ap.Runs.Row.{Run, Work, info, RunError}
use user_token_management_ap.Runs.Events.{append_event}
use user_token_management_ap.Runs.Lease.{seconds, refresh_and_require_lease}
use user_token_management_ap.Runs.Lifecycle.{cancel_before_destination_work}

-- `DatabricksComputeAttempt`, as far as the deferral reads it
pub data AttemptStatus : Type 0 where
  starting ready : AttemptStatus
  ended : String → AttemptStatus

pub record ComputeAttempt : Type 0 where
  pub status : AttemptStatus
  pub deadline_at : ℕ

abbrev is_pending : AttemptStatus → Bool
is_pending starting = true
is_pending ready = true
is_pending (ended s) = false

-- The deadline that the run's attempt leaves, `none` where the deferral returns False.
abbrev attempt_deadline : Option ℕ → (ℕ → Option ComputeAttempt) → ℕ → Option ℕ
attempt_deadline none attempts deadline = some deadline
attempt_deadline (some k) attempts deadline = elim (attempts k) [
  | none ↦ none
  | some a ↦ if is_pending a.status then some (min deadline a.deadline_at) else none
]

abbrev is_authenticate : Stage → Bool
is_authenticate Stage.authenticate = true
is_authenticate _ = false

-- the row of a run that waits for its compute
unfoldable pub deferred_row : ℕ → ℕ → ℕ → Run → Run
deferred_row now poll_seconds deadline run = record run {
  databricks_compute_start_deadline_at = some deadline;
  status = Status.queued;
  stage = Stage.waiting_for_compute;
  worker_id = none;
  lease_token = none;
  lease_expires_at = none;
  heartbeat_at = none;
  next_attempt_at = some (min (now + seconds poll_seconds) deadline);
}

-- `run.stage != "authenticate" or deadline is None or now >= deadline` is false, and the attempt
-- is still pending: the deadline to wait for.
abbrev pub open_deadline : ℕ → (ℕ → Option ComputeAttempt) → Run → Option ℕ
open_deadline now attempts run = elim run.databricks_compute_start_deadline_at [
  | none ↦ none
  | some deadline ↦
      if not (is_authenticate run.stage) || leb deadline now
      then none
      else attempt_deadline run.databricks_compute_attempt_id attempts deadline
]

module _ (redact_text : String → String) where
  -- The deferral once the deadline is settled; without one the caller goes on with the run as it is. A
  -- settled deadline that has passed returns False with the assignment of the deadline not committed,
  -- and the next operation reads the row again, so the assignment is lost.
  abbrev pub defer_until : (ℕ → ℕ) → ℕ → Work → Option ℕ → Result RunError (Work × Bool)
  defer_until clock poll_seconds w none = ok (w, false)
  defer_until clock poll_seconds w (some deadline) =
      if leb deadline (clock 1) then ok (w, false) else (do
        w' ←
            append_event redact_text (clock 2)
              "Waiting for the authorized Databricks compute startup to become SQL ready."
              (some Stage.compute_startup) info none
              (record w { run = deferred_row (clock 1) poll_seconds deadline w.run })
        ok (w', true))

  -- `defer_run_for_databricks_compute`
  unfoldable pub defer_run_for_databricks_compute :
      (ℕ → ℕ) → ℕ → ℕ → (ℕ → Option ComputeAttempt) → Work → Result RunError (Work × Bool)
  unfolding refresh_and_require_lease cancel_before_destination_work deferred_row append_event
  defer_run_for_databricks_compute clock token poll_seconds attempts w = do
    refresh_and_require_lease (clock 0) token w
    (if is_some w.run.cancel_requested_at
        then (do
          w' ←
              cancel_before_destination_work redact_text (clock 2) w.run.stage
                "Run cancelled while waiting for Databricks compute readiness." w
          ok (w', true))
        else defer_until clock poll_seconds w (open_deadline (clock 1) attempts w.run))
