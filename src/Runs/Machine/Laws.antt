-- ===== src/Runs/Machine/Laws.antt =====
-- How the state machines move runs.
use user_token_management_ap.Prelude.{ℕ, ◌<◌, ◌≡◌, map_ok, true, Option, none, some, arith, ◌>>◌}
use user_token_management_ap.Runs.Status.{Status, allowed_transition}
use user_token_management_ap.Runs.Row.{Run}
use user_token_management_ap.Runs.Machine.{transition, require_given_lease}
use user_token_management_ap.Runs.Machine.Pure
use user_token_management_ap.Runs.Machine.Pure.{RunState}

-- What the plain machine keeps of a row.
abbrev pub view : Run → RunState
view run = record {
  status = run.status;
  stage = run.stage;
  lease_token = run.lease_token;
  finished_at = run.finished_at;
  updated_at = some run.updated_at;
}

-- The plain machine accepts a transition exactly when the token that is given, if any, is the run's and
-- the row machine, which does not look at the lease, accepts it; the row that the latter leaves then
-- shows the state that the former leaves.
pub transition-view :
    (now : ℕ) (run : Run) (status : Status) (lease_token : Option ℕ)
    → (require_given_lease run.lease_token lease_token
        >> map_ok view (transition now run status lease_token))
      ≡ Pure.transition now (view run) status lease_token
unfolding transition Pure.transition
transition-view now run status none = ground arith
transition-view now run status (some token) = ground arith

-- The number of steps that a status is away from where a run starts.
unfoldable pub rank : Status → ℕ
rank Status.queued = 0
rank Status.validating = 1
rank Status.extracting = 2
rank Status.loading = 3
rank Status.verifying = 4
rank _ = 5

-- Every allowed transition leads to a status of a higher rank, and the ranks go from 0 to 5.
pub allowed_transition-rank : (s t : Status) → allowed_transition s t ≡ true → rank s < rank t
unfolding allowed_transition rank
allowed_transition-rank s t h = ground arith
