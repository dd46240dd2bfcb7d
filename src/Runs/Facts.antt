-- ===== src/Runs/Facts.antt =====
-- The documents on a run that record how it failed: `_failure_requires_reconciliation`,
-- `_failure_data_impact`, `_failure_facts` and `_record_guardrail_terminal_outcome` of
-- app/services/pipeline_runs.py.
use user_token_management_ap.Prelude.{
  ℕ, String, Bool, true, false, not, ◌&&◌, ◌||◌, Option, some, str_eq, leb, ◌==◌, if◌then◌else◌,
}
use user_token_management_ap.Json.{
  Value, Items, Fields, Document, boolean, int, text, array, object, nil, cons, end, field, dict,
  get, put, update, load, fields_of, flag,
}
use user_token_management_ap.Redaction.{redact_mapping}
use user_token_management_ap.Runs.Status.{Stage, stage_text}
use user_token_management_ap.Runs.Codes.{
  TransferErrorCode, FailureCode, DataImpact, known, unknown, code_text, impact_text,
}
use user_token_management_ap.Runs.Row.{Run}

-- `stage in {"transfer", "verify"}`
unfoldable pub is_destination_stage : Stage → Bool
is_destination_stage Stage.transfer = true
is_destination_stage Stage.verify = true
is_destination_stage _ = false

-- `stage in {"loading", "transfer", "verifying", "verify"}`
unfoldable pub is_write_stage : Stage → Bool
is_write_stage Stage.loading = true
is_write_stage Stage.transfer = true
is_write_stage Stage.verifying = true
is_write_stage Stage.verify = true
is_write_stage _ = false

-- `_RECONCILIATION_CODES`
unfoldable pub is_reconciliation_code : TransferErrorCode → Bool
is_reconciliation_code TransferErrorCode.partial_write = true
is_reconciliation_code TransferErrorCode.publish_uncertain = true
is_reconciliation_code TransferErrorCode.verification_failed = true
is_reconciliation_code TransferErrorCode.worker_lost = true
is_reconciliation_code _ = false

-- the two codes whose meaning depends on how far the run came
unfoldable pub depends_on_progress : TransferErrorCode → Bool
depends_on_progress TransferErrorCode.run_timeout = true
depends_on_progress TransferErrorCode.internal_error = true
depends_on_progress _ = false

-- `_failure_requires_reconciliation`
unfoldable pub failure_requires_reconciliation : Run → FailureCode → Bool
unfolding is_destination_stage is_write_stage is_reconciliation_code depends_on_progress
failure_requires_reconciliation run (known code) =
    if is_reconciliation_code code
    then true
    else if depends_on_progress code
    then not (run.loaded_rows == 0) || is_destination_stage run.stage
    else false
failure_requires_reconciliation run (unknown code) =
    not (run.loaded_rows == 0) || is_write_stage run.stage

abbrev is_cancellation : FailureCode → Bool
is_cancellation (known TransferErrorCode.cancelled_by_user) = true
is_cancellation _ = false

-- `_failure_data_impact`: the remaining branches all return UNCHANGED.
unfoldable pub failure_data_impact : Run → FailureCode → Bool → DataImpact
failure_data_impact run code needs_reconciliation =
    if needs_reconciliation
    then DataImpact.uncertain
    else if is_cancellation code
    then (if not (run.loaded_rows == 0) then DataImpact.uncertain else DataImpact.unchanged)
    else DataImpact.unchanged

-- the entries that `_failure_facts` writes over the existing ones
unfoldable pub failure_entries : Run → FailureCode → DataImpact → Bool → Stage → Fields
failure_entries run code impact required last_safe = field "failure_code" (text (code_text code)) (
    field "data_impact" (text (impact_text impact)) (
      field "reconciliation_required" (boolean required) (
        field "last_safe_stage" (text (stage_text last_safe))
          (field "loaded_rows" (int run.loaded_rows) end))))

module _ (redact_text : String → String) where
  -- `_failure_facts`; every caller names the stage.
  unfoldable pub failure_facts : Run → FailureCode → DataImpact → Bool → Stage → Fields
  unfolding failure_entries
  failure_facts run code impact required last_safe = redact_mapping redact_text (
      update (fields_of (load run.verification))
        (failure_entries run code impact required last_safe))

-- `isinstance(finding, dict) and finding.get("action")`
abbrev has_action : Value → Bool
has_action (object finding) = flag (get "action" finding)
has_action _ = false

unfoldable pub any_action : Items → Bool
unfolding get
any_action nil = false
any_action (cons v vs) = has_action v || any_action vs

abbrev has_selected_action : Option Value → Bool
has_selected_action (some (array findings)) = any_action findings
has_selected_action _ = false

-- `max(0, scanned_rows) if isinstance(scanned_rows, int) else 0`; a bool is an int.
abbrev row_count : Option Value → ℕ
row_count (some (int n)) = n
row_count (some (boolean b)) = if b then 1 else 0
row_count _ = 0

unfoldable pub execution_outcome : Bool → ℕ → ℕ → String
execution_outcome selected transformed scanned =
    if not selected
    then "not_applicable"
    else if transformed == 0
    then "not_started"
    else if not (scanned == 0) && leb scanned transformed
    then "completed"
    else "partial"

abbrev text_is : Option Value → String → Bool
text_is (some (text s)) t = str_eq s t
text_is _ t = false

module _ (redact_text : String → String) where
  -- the document with the run's terminal state
  unfoldable pub terminal_guardrail : Run → String → String → Fields → Fields
  unfolding execution_outcome any_action get put
  terminal_guardrail run outcome destination_outcome document =
      let executed =
        execution_outcome (has_selected_action (get "findings" document)) run.source_rows
          (row_count (get "scanned_rows" document)) in
      let reviewed =
        if text_is (get "outcome" document) "pending"
        then put "outcome" (text outcome) document
        else document in
      redact_mapping redact_text (
        put "destination_outcome" (text destination_outcome)
          (put "execution_outcome" (text executed) reviewed))

  -- A document whose `outcome` is neither "pending" nor "clear" stays as it is. (One that is a list
  -- or a dict, which no writer stores, counts as such; Python would refuse to hash it.)
  abbrev close_document : Run → String → String → Document → Option Document → Option Document
  close_document run outcome destination_outcome (dict document) column =
      if text_is (get "outcome" document) "pending" || text_is (get "outcome" document) "clear"
      then some (dict (terminal_guardrail run outcome destination_outcome document))
      else column
  close_document run outcome destination_outcome _ column = column

  -- `_record_guardrail_terminal_outcome`
  unfoldable pub record_guardrail_terminal_outcome : String → String → Run → Run
  unfolding terminal_guardrail
  record_guardrail_terminal_outcome outcome destination_outcome run = record run {
    guardrail = close_document run outcome destination_outcome (load run.guardrail) run.guardrail;
  }
