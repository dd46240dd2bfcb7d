-- ===== src/Runs/Enqueue.antt =====
-- `enqueue_run` of app/services/pipeline_runs.py, on the table of the runs. The policies on routes and
-- writers are parameters.
use user_token_management_ap.Prelude.{
  ℕ, ◌+◌, max, String, Bool, true, false, not, ◌&&◌, ◌||◌, Option, none, some, List, [], ◌∷◌, ◌++◌,
  Result, ok, err, ◌>>=◌, ◌>>◌, raise_if, ltb, leb, holds, any, ◌==◌, if◌then◌else◌,
}
use user_token_management_ap.Runs.Status.{Status, Stage, stage_for_status}
use user_token_management_ap.Runs.Row.{Run, Work, info, RunError, lookup_error, value_error}
use user_token_management_ap.Runs.Review.{
  is_stopped, needs_reconciliation_status, unresolved, run_requires_reconciliation_review,
  reconciliation_reviewed,
}
use user_token_management_ap.Runs.Events.{append_event, record_event}

-- `PipelineDefinition` and `DefinitionSnapshot`, as far as an enqueue reads them
pub record Pipeline : Type 0 where
  pub id : ℕ
  pub user_id : ℕ
  pub legacy_unsupported : Bool

pub record Snapshot : Type 0 where
  pub source_provider : String
  pub destination_provider : String
  pub json : String

-- the conditions on the user's runs of the pipeline
unfoldable pub is_run_of : ℕ → ℕ → Run → Bool
is_run_of user pipeline run = run.user_id == user && holds run.pipeline_definition_id pipeline

-- the statuses of `safety_candidates`
abbrev pub is_candidate_status : Status → Bool
is_candidate_status status = is_stopped status || needs_reconciliation_status status

unfoldable pub is_safety_candidate : ℕ → ℕ → Run → Bool
unfolding is_run_of is_stopped
is_safety_candidate user pipeline run =
    is_run_of user pipeline run && is_candidate_status run.status

-- the members of `unresolved`
unfoldable pub blocks_enqueue : ℕ → ℕ → Work → Bool
unfolding is_safety_candidate
blocks_enqueue user pipeline w = is_safety_candidate user pipeline w.run && unresolved w.run

-- `order_by(created_at.desc(), id.desc()).limit(1)`
abbrev comes_later : Run → Run → Bool
comes_later a b = ltb b.created_at a.created_at || a.created_at == b.created_at && leb b.id a.id

abbrev later : Run → Option Run → Run
later r none = r
later r (some s) = if comes_later r s then r else s

unfoldable pub latest : (Run → Bool) → List Work → Option Run
latest p [] = none
latest p (w ∷ ws) = let rest = latest p ws in if p w.run then some (later w.run rest) else rest

-- `reviewed_parent`: the latest run, if it is a candidate that has been reviewed
abbrev parent_of : ℕ → ℕ → Option Run → Option Run
parent_of user pipeline none = none
parent_of user pipeline (some run) =
    if is_safety_candidate user pipeline run
      && run_requires_reconciliation_review run
      && reconciliation_reviewed run
    then some run
    else none

unfoldable pub reviewed_parent : ℕ → ℕ → List Work → Option Run
unfolding latest is_run_of is_safety_candidate
reviewed_parent user pipeline table =
    parent_of user pipeline (latest (is_run_of user pipeline) table)

abbrev next_attempt : ℕ → Option Run → ℕ
next_attempt attempt none = attempt
next_attempt attempt (some parent) = max attempt (parent.attempt + 1)

abbrev parent_id : Option ℕ → Option Run → Option ℕ
parent_id (some k) parent = some k
parent_id none none = none
parent_id none (some parent) = some parent.id

-- The arguments of a call, with the identifier that `new_id()` gives the run.
pub record Request : Type 0 where
  pub new_id : ℕ
  pub attempt : ℕ
  pub parent_run_id : Option ℕ
  pub idempotency_token : Option ℕ

-- the new row, with the defaults of the model's columns
unfoldable pub new_run : ℕ → ℕ → Pipeline → Snapshot → Request → Option Run → Run
unfolding stage_for_status
new_run now user pipeline snapshot request parent = record {
  id = request.new_id;
  pipeline_definition_id = some pipeline.id;
  user_id = user;
  definition_snapshot_json = snapshot.json;
  status = Status.queued;
  stage = stage_for_status Status.queued;
  next_attempt_at = none;
  databricks_compute_attempt_id = none;
  databricks_compute_start_deadline_at = none;
  attempt = next_attempt request.attempt parent;
  queued_at = now;
  started_at = none;
  finished_at = none;
  cancel_requested_at = none;
  worker_id = none;
  lease_token = none;
  lease_expires_at = none;
  heartbeat_at = none;
  source_rows = 0;
  source_rows_measured = false;
  source_bytes = 0;
  loaded_rows = 0;
  loaded_rows_measured = false;
  loaded_bytes = 0;
  next_event_sequence = 0;
  source_manifest = none;
  destination_manifest = none;
  verification = none;
  guardrail = none;
  last_safe_stage = none;
  data_impact = none;
  reconciliation_required = false;
  reconciliation_reviewed_at = none;
  error_code = none;
  error_summary = none;
  retryable = false;
  idempotency_token = request.idempotency_token;
  parent_run_id = parent_id request.parent_run_id parent;
  created_at = now;
  updated_at = now;
}

-- the row that `on_conflict_do_nothing` on (user_id, idempotency_token) meets
abbrev pub has_token : ℕ → ℕ → Run → Bool
has_token user token run = run.user_id == user && holds run.idempotency_token token

unfoldable pub find_run : (Run → Bool) → List Work → Option Work
find_run p [] = none
find_run p (w ∷ ws) = if p w.run then some w else find_run p ws

abbrev pub existing : ℕ → Option ℕ → List Work → Option Work
existing user none table = none
existing user (some token) table = find_run (has_token user token) table

-- the checks of `enqueue_run`, in their order
unfoldable pub may_enqueue :
    (String → String → Bool)
    → (String → Bool)
    → ℕ
    → Option Pipeline
    → Snapshot
    → List Work
    → Result RunError Pipeline
unfolding blocks_enqueue
may_enqueue route_allowed writer_enabled user none snapshot table = err lookup_error
may_enqueue route_allowed writer_enabled user (some pipeline) snapshot table = do
  raise_if (not (pipeline.user_id == user)) lookup_error
  raise_if (any (blocks_enqueue user pipeline.id) table) value_error
  raise_if pipeline.legacy_unsupported value_error
  raise_if (not (route_allowed snapshot.source_provider snapshot.destination_provider)) value_error
  raise_if (not (writer_enabled snapshot.destination_provider)) value_error
  ok pipeline

module _ (redact_text : String → String) where
  -- A new run with its first event and its audit row.
  unfoldable pub queue_new :
      (ℕ → ℕ) → ℕ → Pipeline → Snapshot → Request → Option Run → Result RunError Work
  unfolding new_run append_event record_event
  queue_new clock user pipeline snapshot request parent = do
    w ← append_event redact_text (clock 1) "Run queued." (some Stage.queued) info none (record {
      run = new_run (clock 0) user pipeline snapshot request parent;
      stored = true;
      events = [];
      audits = [];
    })
    ok (record_event "pipeline.run_queued" (some user) (some user) "success" w)

  -- the insert that does nothing on a conflict of tokens, and the read of the earlier run
  unfoldable pub place :
      (ℕ → ℕ)
      → ℕ
      → Pipeline
      → Snapshot
      → Request
      → List Work
      → Option Work
      → Result RunError (Work × List Work)
  unfolding queue_new reviewed_parent
  place clock user pipeline snapshot request table (some w) = ok (w, table)
  place clock user pipeline snapshot request table none = do
    w ← queue_new clock user pipeline snapshot request (reviewed_parent user pipeline.id table)
    ok (w, table ++ w ∷ [])

  -- `enqueue_run`: the run, and the table after the call. A request whose idempotency token the user
  -- has used gets the earlier run, and adds nothing.
  unfoldable pub enqueue_run :
      (ℕ → ℕ)
      → (String → String → Bool)
      → (String → Bool)
      → ℕ
      → Option Pipeline
      → Snapshot
      → Request
      → List Work
      → Result RunError (Work × List Work)
  unfolding may_enqueue find_run place
  enqueue_run clock route_allowed writer_enabled user pipeline snapshot request table = do
    p ← may_enqueue route_allowed writer_enabled user pipeline snapshot table
    place clock user p snapshot request table (existing user request.idempotency_token table)
