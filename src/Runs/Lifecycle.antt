-- ===== src/Runs/Lifecycle.antt =====
-- The operations of app/services/pipeline_runs.py that end a run, or ask for its end. An operation
-- takes the successive readings of `utcnow()` as `clock 0`, `clock 1`, …; an error means that the
-- session is left without a commit. Log lines are not modelled.
use user_token_management_ap.Prelude.{
  ℕ, String, Bool, true, false, not, ◌&&◌, ◌||◌, Option, none, some, Result, ok, ◌>>◌, raise_if,
  or_else, clip, str_eq, ◌==◌, if◌then◌else◌,
}
use user_token_management_ap.Json.{Fields, text, dict, put, update, load, fields_of}
use user_token_management_ap.Redaction.{redact_mapping}
use user_token_management_ap.Runs.Status.{Status, Stage, is_terminal}
use user_token_management_ap.Runs.Codes.{TransferErrorCode, FailureCode, DataImpact, known}
use user_token_management_ap.Runs.Row.{Level, Run, Work, info, error, RunError, value_error}
use user_token_management_ap.Runs.Machine.{set_status}
use user_token_management_ap.Runs.Facts.{
  failure_facts, failure_requires_reconciliation, failure_data_impact,
  record_guardrail_terminal_outcome,
}
use user_token_management_ap.Runs.Review.{run_requires_reconciliation_review, is_uncertain}
use user_token_management_ap.Runs.Events.{append_event, append_and_record}
use user_token_management_ap.Runs.Lease.{refresh_and_require_lease, owned_run}

-- `text or default`
abbrev pub or_text : String → String → String
or_text s d = if str_eq s "" then d else s

abbrev pub is_queued : Status → Bool
is_queued Status.queued = true
is_queued _ = false

abbrev pub is_rolled_back : Option DataImpact → Bool
is_rolled_back (some DataImpact.rolled_back) = true
is_rolled_back _ = false

-- `needs_reconciliation` as `fail_run` settles it
unfoldable pub effective_reconciliation : Run → FailureCode → Bool → Option DataImpact → Bool
unfolding failure_requires_reconciliation
effective_reconciliation run code needs data_impact =
    if is_rolled_back data_impact then false else needs || failure_requires_reconciliation run code

unfoldable pub failed_status : Bool → Status
failed_status needs = if needs then Status.failed_needs_reconciliation else Status.failed

abbrev failed_destination : Bool → DataImpact → String
failed_destination true impact = "reconciliation_required"
failed_destination false DataImpact.rolled_back = "rolled_back"
failed_destination false DataImpact.unchanged = "unchanged"
failed_destination false _ = "uncertain"

abbrev pub require_if_given : ℕ → Option ℕ → Work → Result RunError (Unit {0})
require_if_given now none w = ok tt
require_if_given now (some token) w = refresh_and_require_lease now token w

-- `resolved_impact` of `cancel_claimed_run`, and what its event says
unfoldable pub claimed_impact : Run → Option DataImpact → DataImpact
claimed_impact run data_impact =
    or_else data_impact
      (if not (run.loaded_rows == 0) then DataImpact.uncertain else DataImpact.unchanged)

unfoldable pub cancel_message : DataImpact → String
cancel_message impact =
    if is_uncertain (some impact)
    then "Run cancelled; inspect the destination before retrying."
    else "Run cancelled."

unfoldable pub cancel_stage : DataImpact → Stage
cancel_stage impact = if is_uncertain (some impact) then Stage.reconcile else Stage.cancelled

unfoldable pub cancel_level : DataImpact → Level
cancel_level impact = if is_uncertain (some impact) then error else info

module _ (redact_text : String → String) where
  -- the row that `_cancel_before_destination_work` leaves
  unfoldable pub cancelled_row : ℕ → Stage → String → Run → Run
  unfolding set_status failure_facts
  cancelled_row now last_safe message run =
      let marked = record run {
        last_safe_stage = some last_safe;
        data_impact = some DataImpact.unchanged;
        reconciliation_required = false;
        reconciliation_reviewed_at = none;
        error_code = some (known TransferErrorCode.cancelled_by_user);
        error_summary = some message;
        retryable = false;
      } in
      let closed = set_status now marked Status.cancelled run.lease_token in
      record closed {
        verification = some (
            dict (
              failure_facts redact_text closed (known TransferErrorCode.cancelled_by_user)
                DataImpact.unchanged false last_safe));
      }

  -- `_cancel_before_destination_work`; one reading of the clock stands for the end of the run and for
  -- its event.
  unfoldable pub cancel_before_destination_work : ℕ → Stage → String → Work → Result RunError Work
  unfolding cancelled_row append_event
  cancel_before_destination_work now last_safe message w =
      append_event redact_text now message (some Stage.cancelled) info none
        (record w { run = cancelled_row now last_safe message w.run })

  -- `request_cancel`, alone from its read to its commit: the source does not lock the row that it reads,
  -- so a request that overlaps an operation of a worker is not this function.
  unfoldable pub request_cancel : (ℕ → ℕ) → ℕ → Work → Result RunError Work
  unfolding owned_run is_terminal cancel_before_destination_work
  request_cancel clock user w = do
    owned_run user w
    let asked = record w { run = record w.run { cancel_requested_at = some (clock 0) } }
    (if is_terminal w.run.status
        then ok w
        else if is_queued w.run.status
        then cancel_before_destination_work (clock 1) w.run.stage
            "Run cancelled before a worker claimed it." asked
        else append_event redact_text (clock 1) "Cancellation requested." (some w.run.stage) info
            none asked)

  -- `record_reconciliation_review`; `stamp` is the reading as ISO text.
  unfoldable pub record_reconciliation_review :
      (ℕ → String) → (ℕ → ℕ) → ℕ → Work → Result RunError Work
  unfolding owned_run append_event
  record_reconciliation_review stamp clock user w = do
    owned_run user w
    raise_if (not (run_requires_reconciliation_review w.run)) value_error
    append_event redact_text (clock 1) "Operator recorded reconciliation review."
        (some Stage.reconcile) info none
        (record w {
          run = record w.run {
            reconciliation_reviewed_at = some (clock 0);
            verification = some (
                dict (
                  redact_mapping redact_text (
                    put "reconciliation_reviewed_at" (text (stamp (clock 0)))
                      (fields_of (load w.run.verification)))));
          };
        })

  abbrev update_given : Fields → Option Fields → Fields
  update_given facts none = facts
  update_given facts (some given) = update facts (redact_mapping redact_text given)

  -- the row that `fail_run` has when it calls `_failure_facts`
  unfoldable pub closed_failure :
      ℕ → FailureCode → String → Bool → Bool → DataImpact → Option ℕ → Run → Run
  unfolding record_guardrail_terminal_outcome set_status failed_status
  closed_failure now code summary retryable needs impact token run =
      let reviewed =
        record_guardrail_terminal_outcome redact_text
          (if needs then "reconciliation_required" else "failed") (failed_destination needs impact)
          run in
      let marked = record reviewed {
        error_code = some code;
        error_summary = some (clip 500 (redact_text summary));
        retryable = retryable && not needs;
        last_safe_stage = some run.stage;
        data_impact = some impact;
        reconciliation_required = needs;
        reconciliation_reviewed_at = none;
      } in
      set_status now marked (failed_status needs) token

  -- the row that `fail_run` leaves, but for its event counter
  unfoldable pub failed_row :
      ℕ → FailureCode → String → Bool → Bool → DataImpact → Option ℕ → Option Fields → Run → Run
  unfolding closed_failure failure_facts
  failed_row now code summary retryable needs impact token verification_facts run =
      let closed = closed_failure now code summary retryable needs impact token run in
      let facts = failure_facts redact_text closed code impact needs run.stage in
      record closed { verification = some (dict (update_given facts verification_facts)) }

  -- `fail_run`
  unfoldable pub fail_run :
      (ℕ → ℕ)
      → FailureCode
      → String
      → Bool
      → Bool
      → Option DataImpact
      → Option ℕ
      → Option Fields
      → Work
      → Result RunError Work
  unfolding refresh_and_require_lease effective_reconciliation failure_data_impact failed_row
      append_and_record
  fail_run clock code summary retryable needs_reconciliation data_impact token verification_facts
        w =
      do
        require_if_given (clock 0) token w
        let needs = effective_reconciliation w.run code needs_reconciliation data_impact
        let impact = or_else data_impact (failure_data_impact w.run code needs)
        let run =
            failed_row (clock 1) code summary retryable needs impact token verification_facts w.run
        append_and_record redact_text (clock 2)
            (or_text (clip 500 (redact_text summary)) "The transfer failed.") (some w.run.stage)
            error "pipeline.run.failed" "failure" (record w { run = run })

  -- the row that `cancel_claimed_run` leaves, but for its event counter
  unfoldable pub cancelled_claim_row : ℕ → DataImpact → ℕ → Run → Run
  unfolding record_guardrail_terminal_outcome set_status failure_facts
  cancelled_claim_row now impact token run =
      let needs = is_uncertain (some impact) in
      let reviewed =
        record_guardrail_terminal_outcome redact_text
          (if needs then "reconciliation_required" else "cancelled")
          (if needs
            then "reconciliation_required"
            else if is_rolled_back (some impact)
            then "rolled_back"
            else "unchanged")
          run in
      let marked = record reviewed {
        last_safe_stage = some run.stage;
        data_impact = some impact;
        reconciliation_required = needs;
        reconciliation_reviewed_at = none;
        error_code = some (known TransferErrorCode.cancelled_by_user);
        error_summary = some "The transfer was cancelled.";
      } in
      let status = if needs then Status.failed_needs_reconciliation else Status.cancelled in
      let closed = set_status now marked status (some token) in
      record closed {
        verification = some (
            dict (
              failure_facts redact_text closed (known TransferErrorCode.cancelled_by_user) impact
                needs run.stage));
      }

  -- `cancel_claimed_run`
  unfoldable pub cancel_claimed_run : (ℕ → ℕ) → ℕ → Option DataImpact → Work → Result RunError Work
  unfolding refresh_and_require_lease cancelled_claim_row append_event claimed_impact cancel_message
      cancel_stage cancel_level
  cancel_claimed_run clock token data_impact w = do
    refresh_and_require_lease (clock 0) token w
    let impact = claimed_impact w.run data_impact
    append_event redact_text (clock 2) (cancel_message impact) (some (cancel_stage impact))
        (cancel_level impact) none
        (record w { run = cancelled_claim_row (clock 1) impact token w.run })
