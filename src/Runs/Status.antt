-- ===== src/Runs/Status.antt =====
-- `PipelineRunStatus` of app/models.py, and the tables of app/services/pipeline_state.py.
use user_token_management_ap.Prelude.{String, Bool, true, false}

pub data Status : Type 0 where
  queued validating extracting loading verifying : Status
  blocked succeeded failed cancelled failed_needs_reconciliation : Status

-- The values of the column `stage`; `other` is any text that the code does not compare with.
pub data Stage : Type 0 where
  queued authenticate inspect transfer verify guardrails failed cancelled reconcile : Stage
  waiting_for_compute compute_startup loading verifying : Stage
  other : String → Stage

pub Status-discrete : Discrete Status
Status-discrete = hlevel

-- `WORKER_OWNED_STATUSES`
unfoldable pub is_worker_owned : Status → Bool
is_worker_owned Status.validating = true
is_worker_owned Status.extracting = true
is_worker_owned Status.loading = true
is_worker_owned Status.verifying = true
is_worker_owned _ = false

-- `ACTIVE_STATUSES`
unfoldable pub is_active : Status → Bool
is_active Status.queued = true
is_active Status.validating = true
is_active Status.extracting = true
is_active Status.loading = true
is_active Status.verifying = true
is_active _ = false

-- `TERMINAL_STATUSES`
unfoldable pub is_terminal : Status → Bool
is_terminal Status.blocked = true
is_terminal Status.succeeded = true
is_terminal Status.failed = true
is_terminal Status.cancelled = true
is_terminal Status.failed_needs_reconciliation = true
is_terminal _ = false

-- `status in ALLOWED_TRANSITIONS.get(run.status, frozenset())`
unfoldable pub allowed_transition : Status → Status → Bool
allowed_transition Status.queued Status.validating = true
allowed_transition Status.queued Status.cancelled = true
allowed_transition Status.validating Status.extracting = true
allowed_transition Status.validating Status.blocked = true
allowed_transition Status.validating Status.failed = true
allowed_transition Status.validating Status.failed_needs_reconciliation = true
allowed_transition Status.validating Status.cancelled = true
allowed_transition Status.extracting Status.loading = true
allowed_transition Status.extracting Status.blocked = true
allowed_transition Status.extracting Status.failed = true
allowed_transition Status.extracting Status.failed_needs_reconciliation = true
allowed_transition Status.extracting Status.cancelled = true
allowed_transition Status.loading Status.verifying = true
allowed_transition Status.loading Status.failed = true
allowed_transition Status.loading Status.failed_needs_reconciliation = true
allowed_transition Status.loading Status.cancelled = true
allowed_transition Status.verifying Status.succeeded = true
allowed_transition Status.verifying Status.failed = true
allowed_transition Status.verifying Status.failed_needs_reconciliation = true
allowed_transition Status.verifying Status.cancelled = true
allowed_transition _ _ = false

-- `STAGE_FOR_STATUS`
unfoldable pub stage_for_status : Status → Stage
stage_for_status Status.queued = Stage.queued
stage_for_status Status.validating = Stage.authenticate
stage_for_status Status.extracting = Stage.inspect
stage_for_status Status.loading = Stage.transfer
stage_for_status Status.verifying = Stage.verify
stage_for_status Status.blocked = Stage.guardrails
stage_for_status Status.succeeded = Stage.verify
stage_for_status Status.failed = Stage.failed
stage_for_status Status.cancelled = Stage.cancelled
stage_for_status Status.failed_needs_reconciliation = Stage.reconcile

-- The text of a stage.
unfoldable pub stage_text : Stage → String
stage_text Stage.queued = "queued"
stage_text Stage.authenticate = "authenticate"
stage_text Stage.inspect = "inspect"
stage_text Stage.transfer = "transfer"
stage_text Stage.verify = "verify"
stage_text Stage.guardrails = "guardrails"
stage_text Stage.failed = "failed"
stage_text Stage.cancelled = "cancelled"
stage_text Stage.reconcile = "reconcile"
stage_text Stage.waiting_for_compute = "waiting_for_compute"
stage_text Stage.compute_startup = "compute_startup"
stage_text Stage.loading = "loading"
stage_text Stage.verifying = "verifying"
stage_text (Stage.other s) = s
