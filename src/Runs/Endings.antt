-- ===== src/Runs/Endings.antt =====
-- Each row that app/services/pipeline_runs.py writes when a run ends is well formed.
use user_token_management_ap.Prelude.{
  ℕ, String, Bool, true, false, Option, some, arith, if◌then◌else◌,
}
use user_token_management_ap.Json.{Fields}
use user_token_management_ap.Runs.Status.{Status, Stage, is_worker_owned, is_terminal}
use user_token_management_ap.Runs.Codes.{FailureCode, DataImpact}
use user_token_management_ap.Runs.Row.{Run}
use user_token_management_ap.Runs.Machine.{set_status}
use user_token_management_ap.Runs.Review.{is_uncertain}
use user_token_management_ap.Runs.Invariant.{Ends}
use user_token_management_ap.Runs.Lifecycle.{
  cancelled_row, failed_row, cancelled_claim_row, failed_status,
}
use user_token_management_ap.Runs.Progress.{compute_blocked_row, completed_row}

module _ (redact_text : String → String) (now : ℕ) where
  pub cancelled_row-Ends :
      (last_safe : Stage) (message : String) (run : Run)
      → Ends run (cancelled_row redact_text now last_safe message run) Status.cancelled
  unfolding cancelled_row set_status is_terminal is_worker_owned
  cancelled_row-Ends last_safe message run = ground arith

  pub failed_row-Ends :
      (code : FailureCode) (summary : String) (retryable needs : Bool) (impact : DataImpact)
      (token : Option ℕ) (facts : Option Fields) (run : Run)
      → Ends run
          (failed_row redact_text now code summary retryable needs impact token facts run)
          (failed_status needs)
  unfolding failed_row set_status is_terminal is_worker_owned failed_status
  failed_row-Ends code summary retryable true impact token facts run = ground arith
  failed_row-Ends code summary retryable false impact token facts run = ground arith

  pub cancelled_claim_row-Ends :
      (impact : DataImpact) (token : ℕ) (run : Run)
      → Ends run (cancelled_claim_row redact_text now impact token run) (
          if is_uncertain (some impact)
          then Status.failed_needs_reconciliation
          else Status.cancelled)
  unfolding cancelled_claim_row set_status is_terminal is_worker_owned
  cancelled_claim_row-Ends impact token run = ground arith

  pub compute_blocked_row-Ends :
      (summary : String) (token : ℕ) (run : Run)
      → Ends run (compute_blocked_row redact_text now summary token run) Status.blocked
  unfolding compute_blocked_row set_status is_terminal is_worker_owned
  compute_blocked_row-Ends summary token run = ground arith

  pub completed_row-Ends :
      (token : ℕ) (source destination verification guardrail : Option Fields) (run : Run)
      → Ends run
          (completed_row redact_text now token source destination verification guardrail run)
          Status.succeeded
  unfolding completed_row set_status is_terminal is_worker_owned
  completed_row-Ends token source destination verification guardrail run = ground arith
