-- ===== src/Runs/Machine/Pure.antt =====
-- `RunState` and `PurePipelineRunStateMachine` of app/services/pipeline_state.py.
use user_token_management_ap.Prelude.{
  ℕ, Option, none, some, Result, ok, ◌>>◌, raise_if, not, if◌then◌else◌,
}
use user_token_management_ap.Runs.Status.{
  Status, Stage, is_terminal, allowed_transition, stage_for_status,
}
use user_token_management_ap.Runs.Row.{RunError, run_conflict}
use user_token_management_ap.Runs.Machine.{require_given_lease}

-- `RunState`
pub record RunState : Type 0 where
  pub status : Status
  pub stage : Stage
  pub lease_token : Option ℕ
  pub finished_at : Option ℕ
  pub updated_at : Option ℕ

-- the assignments of `PurePipelineRunStateMachine.transition`
unfoldable pub enter : ℕ → RunState → Status → RunState
enter now run status =
    let moved = record run {
      status = status;
      stage = stage_for_status status;
      updated_at = some now;
    } in
    if is_terminal status
    then record moved { finished_at = some now; lease_token = none }
    else moved

-- `PurePipelineRunStateMachine.transition`
unfoldable pub transition : ℕ → RunState → Status → Option ℕ → Result RunError RunState
unfolding enter
transition now run status lease_token = do
  raise_if (not (allowed_transition run.status status)) run_conflict
  require_given_lease run.lease_token lease_token
  ok (enter now run status)
