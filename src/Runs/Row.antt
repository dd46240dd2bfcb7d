-- ===== src/Runs/Row.antt =====
-- `PipelineRun` and `PipelineRunEvent` of app/models.py, and the unit of work of a database session
-- on one run. Identifiers are numbers, times are microseconds, and an absent or empty text in an
-- identifier column is `none`. A JSON column holds its parsed document.
use user_token_management_ap.Prelude.{ℕ, String, Bool, Option, List}
use user_token_management_ap.Json.{Document, Fields}
use user_token_management_ap.Runs.Status.{Status, Stage}
use user_token_management_ap.Runs.Codes.{FailureCode, DataImpact}

pub record Run : Type 0 where
  pub id : ℕ
  pub pipeline_definition_id : Option ℕ
  pub user_id : ℕ
  pub definition_snapshot_json : String
  pub status : Status
  pub stage : Stage
  pub next_attempt_at : Option ℕ
  pub databricks_compute_attempt_id : Option ℕ
  pub databricks_compute_start_deadline_at : Option ℕ
  pub attempt : ℕ
  pub queued_at : ℕ
  pub started_at : Option ℕ
  pub finished_at : Option ℕ
  pub cancel_requested_at : Option ℕ
  pub worker_id : Option ℕ
  pub lease_token : Option ℕ
  pub lease_expires_at : Option ℕ
  pub heartbeat_at : Option ℕ
  pub source_rows : ℕ
  pub source_rows_measured : Bool
  pub source_bytes : ℕ
  pub loaded_rows : ℕ
  pub loaded_rows_measured : Bool
  pub loaded_bytes : ℕ
  pub next_event_sequence : ℕ
  pub source_manifest : Option Document
  pub destination_manifest : Option Document
  pub verification : Option Document
  pub guardrail : Option Document
  pub last_safe_stage : Option Stage
  pub data_impact : Option DataImpact
  pub reconciliation_required : Bool
  pub reconciliation_reviewed_at : Option ℕ
  pub error_code : Option FailureCode
  pub error_summary : Option String
  pub retryable : Bool
  pub idempotency_token : Option ℕ
  pub parent_run_id : Option ℕ
  pub created_at : ℕ
  pub updated_at : ℕ

pub data Level : Type 0 where
  info warning error : Level

pub record RunEvent : Type 0 where
  pub run_id : ℕ
  pub sequence : ℕ
  pub occurred_at : ℕ
  pub level : Level
  pub stage : Stage
  pub message : String
  pub detail : Option Fields

-- A row of the audit log, without its detail document.
pub record AuditEntry : Type 0 where
  pub event_type : String
  pub actor_user_id : Option ℕ
  pub target_user_id : Option ℕ
  pub outcome : String

-- The session's view of one run: its row, whether the table still has the row, the run's events,
-- the newest last, and the audit rows that the session has added.
pub record Work : Type 0 where
  pub run : Run
  pub stored : Bool
  pub events : List RunEvent
  pub audits : List AuditEntry

pub data RunError : Type 0 where
  -- `RunConflictError`, `LookupError`, `ValueError`, and the refresh of a deleted row
  run_conflict lookup_error value_error row_missing : RunError
