-- ===== src/Runs/Machine.antt =====
-- The two state machines of app/services/pipeline_state.py: the one on plain values and the one on
-- rows. A reading of the clock is an argument.
pub mod Pure
pub mod Laws
use user_token_management_ap.Prelude.{
  ℕ, Bool, true, false, Option, none, some, Result, ok, err, ◌>>=◌, ◌>>◌, raise_if, not, holds,
  if◌then◌else◌,
}
use user_token_management_ap.Runs.Status.{
  Status, Stage, is_terminal, allowed_transition, stage_for_status,
}
use user_token_management_ap.Runs.Row.{Run, RunError, run_conflict}

-- `require_lease`: the run's token is compared with the worker's.
abbrev pub require_lease : Option ℕ → ℕ → Result RunError (Unit {0})
require_lease held token = raise_if (not (holds held token)) run_conflict

abbrev pub require_given_lease : Option ℕ → Option ℕ → Result RunError (Unit {0})
require_given_lease held none = ok tt
require_given_lease held (some token) = require_lease held token

-- `elif lease_token: run.lease_token = lease_token`
abbrev pub keep_lease : Option ℕ → Option ℕ → Option ℕ
keep_lease held none = held
keep_lease held (some token) = some token

-- `PipelineRunStateMachine.set_status`
unfoldable pub set_status : ℕ → Run → Status → Option ℕ → Run
set_status now run status lease_token =
    if is_terminal status
    then record run {
      status = status;
      stage = stage_for_status status;
      updated_at = now;
      finished_at = some now;
      worker_id = none;
      lease_token = none;
      lease_expires_at = none;
    }
    else record run {
      status = status;
      stage = stage_for_status status;
      updated_at = now;
      lease_token = keep_lease run.lease_token lease_token;
    }

-- `PipelineRunStateMachine.transition`
unfoldable pub transition : ℕ → Run → Status → Option ℕ → Result RunError Run
unfolding set_status
transition now run status lease_token = do
  raise_if (not (allowed_transition run.status status)) run_conflict
  ok (set_status now run status lease_token)
