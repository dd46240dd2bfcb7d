-- ===== src/Runs/Progress.antt =====
-- The operations of app/services/pipeline_runs.py by which the worker that holds a run's lease moves
-- it on, counts its rows, blocks it or completes it.
use user_token_management_ap.Prelude.{
  ℕ, ◌+◌, String, Bool, true, false, Option, none, some, Result, ok, ◌>>=◌, ◌>>◌, clip, decimal,
  str_eq, ◌==◌, if◌then◌else◌, suc,
}
use Prim.Native.String.{◌++◌}
use user_token_management_ap.Json.{
  Fields, Items, Document, Value, text, array, dict, end, nil, cons, get,
}
use user_token_management_ap.Redaction.Keys.{codes, fold_codes, same_codes}
use user_token_management_ap.Redaction.{redact_mapping}
use user_token_management_ap.Runs.Status.{Status, Stage}
use user_token_management_ap.Runs.Codes.{TransferErrorCode, DataImpact, known}
use user_token_management_ap.Runs.Row.{Level, Run, Work, info, warning, RunError}
use user_token_management_ap.Runs.Machine
use user_token_management_ap.Runs.Machine.{set_status}
use user_token_management_ap.Runs.Facts.{failure_facts}
use user_token_management_ap.Runs.Events.{append_event, append_and_record}
use user_token_management_ap.Runs.Lease.{refresh_and_require_lease}

-- `add_counters`: a row count that is not given leaves the counter and its mark alone.
abbrev counted : ℕ → Option ℕ → ℕ
counted n none = n
counted n (some m) = n + m

abbrev measured : Bool → Option ℕ → Bool
measured b none = b
measured b (some m) = true

unfoldable pub add_counters :
    (ℕ → ℕ) → ℕ → Option ℕ → ℕ → Option ℕ → ℕ → Work → Result RunError Work
unfolding refresh_and_require_lease
add_counters clock token source_rows source_bytes loaded_rows loaded_bytes w = do
  refresh_and_require_lease (clock 0) token w
  ok (record w {
    run = record w.run {
      source_rows = counted w.run.source_rows source_rows;
      source_rows_measured = measured w.run.source_rows_measured source_rows;
      source_bytes = w.run.source_bytes + source_bytes;
      loaded_rows = counted w.run.loaded_rows loaded_rows;
      loaded_rows_measured = measured w.run.loaded_rows_measured loaded_rows;
      loaded_bytes = w.run.loaded_bytes + loaded_bytes;
    };
  })

abbrev item_count : Items → ℕ
item_count nil = 0
item_count (cons v vs) = suc (item_count vs)

abbrev finding_count : Option Value → ℕ
finding_count (some (array findings)) = item_count findings
finding_count _ = 0

-- the table's row that a mapping is dumped to
abbrev dumped : (String → String) → Option Fields → Document
dumped redact_text none = dict end
dumped redact_text (some m) = dict (redact_mapping redact_text m)

abbrev dumped_or_kept : (String → String) → Option Fields → Option Document → Option Document
dumped_or_kept redact_text none column = column
dumped_or_kept redact_text (some m) column = some (dict (redact_mapping redact_text m))

-- `str((verification or {}).get("verification_level", "")).casefold() == "exact"`
abbrev value_is_exact : Option Value → Bool
value_is_exact (some (text s)) = same_codes (fold_codes (codes s)) (codes "exact")
value_is_exact _ = false

unfoldable pub is_exact : Option Fields → Bool
unfolding get same_codes
is_exact none = false
is_exact (some m) = value_is_exact (get "verification_level" m)

-- what the event of a guardrail review says
unfoldable pub review_message : Fields → String
unfolding get
review_message document =
    "Sensitive-data scan completed: "
    ++ decimal (finding_count (get "findings" document))
    ++ " finding(s) recorded."

unfoldable pub review_level : Fields → Level
unfolding get
review_level document = if finding_count (get "findings" document) == 0 then info else warning

module _ (redact_text : String → String) where
  abbrev pub append_if_given : ℕ → Option String → Work → Result RunError Work
  append_if_given now none w = ok w
  append_if_given now (some message) w =
      if str_eq message ""
      then ok w
      else append_event redact_text now message (some w.run.stage) info none w

  -- `transition`
  unfoldable pub transition : (ℕ → ℕ) → Status → ℕ → Option String → Work → Result RunError Work
  unfolding refresh_and_require_lease Machine.transition append_event
  transition clock status token message w = do
    refresh_and_require_lease (clock 0) token w
    run ← Machine.transition (clock 1) w.run status (some token)
    append_if_given (clock 2) message (record w { run = run })

  -- `record_guardrail_review`
  unfoldable pub record_guardrail_review : (ℕ → ℕ) → ℕ → Fields → Work → Result RunError Work
  unfolding refresh_and_require_lease append_event review_message review_level
  record_guardrail_review clock token guardrail w = do
    refresh_and_require_lease (clock 0) token w
    let document = redact_mapping redact_text guardrail
    append_event redact_text (clock 1) (review_message document) (some Stage.guardrails)
        (review_level document) none
        (record w { run = record w.run { guardrail = some (dict document) } })

  -- `block_compute_readiness` leaves this row, but for its event counter.
  unfoldable pub compute_blocked_row : ℕ → String → ℕ → Run → Run
  unfolding set_status failure_facts
  compute_blocked_row now summary token run =
      let marked = record run {
        error_code = some (known TransferErrorCode.compute_not_ready);
        error_summary = some (clip 500 (redact_text summary));
        retryable = false;
        last_safe_stage = some run.stage;
        data_impact = some DataImpact.unchanged;
        reconciliation_required = false;
        reconciliation_reviewed_at = none;
      } in
      let closed = set_status now marked Status.blocked (some token) in
      record closed {
        verification = some (
            dict (
              failure_facts redact_text closed (known TransferErrorCode.compute_not_ready)
                DataImpact.unchanged false run.stage));
      }

  abbrev pub summary_message : String → String
  summary_message summary =
      let s = clip 500 (redact_text summary) in if str_eq s "" then summary else s

  -- `block_compute_readiness`
  unfoldable pub block_compute_readiness : (ℕ → ℕ) → ℕ → String → Work → Result RunError Work
  unfolding refresh_and_require_lease compute_blocked_row append_event
  block_compute_readiness clock token summary w = do
    refresh_and_require_lease (clock 0) token w
    append_event redact_text (clock 2) (summary_message summary) (some Stage.compute_startup)
        warning none (record w { run = compute_blocked_row (clock 1) summary token w.run })

  -- what `block_run` assigns before and after the transition
  abbrev pub blocked_marks : String → Fields → Run → Run
  blocked_marks summary guardrail run = record run {
    guardrail = some (dict (redact_mapping redact_text guardrail));
    error_code = some (known TransferErrorCode.sensitive_data_guardrail_blocked);
    error_summary = some (clip 500 (redact_text summary));
    retryable = false;
    last_safe_stage = some Stage.guardrails;
    data_impact = some DataImpact.unchanged;
    reconciliation_required = false;
    reconciliation_reviewed_at = none;
  }

  abbrev pub blocked_facts : Run → Run
  blocked_facts run = record run {
    verification = some (
        dict (
          failure_facts redact_text run (known TransferErrorCode.sensitive_data_guardrail_blocked)
            DataImpact.unchanged false Stage.guardrails));
  }

  -- `block_run`
  unfoldable pub block_run : (ℕ → ℕ) → ℕ → String → Fields → Work → Result RunError Work
  unfolding refresh_and_require_lease Machine.transition failure_facts append_and_record
  block_run clock token summary guardrail w = do
    refresh_and_require_lease (clock 0) token w
    run ←
        Machine.transition (clock 1) (blocked_marks summary guardrail w.run) Status.blocked
          (some token)
    append_and_record redact_text (clock 2) (summary_message summary) (some Stage.guardrails)
        warning "pipeline.run.blocked" "blocked" (record w { run = blocked_facts run })

  -- the row that `complete_run` leaves, but for its event counter
  unfoldable pub completed_row :
      ℕ → ℕ → Option Fields → Option Fields → Option Fields → Option Fields → Run → Run
  unfolding set_status is_exact
  completed_row now token source_manifest destination_manifest verification guardrail run =
      let marked = record run {
        source_manifest = some (dumped redact_text source_manifest);
        destination_manifest = some (dumped redact_text destination_manifest);
        verification = some (dumped redact_text verification);
        guardrail = dumped_or_kept redact_text guardrail run.guardrail;
        source_rows_measured = true;
        loaded_rows_measured = true;
        last_safe_stage = some run.stage;
        data_impact =
            some (if is_exact verification then DataImpact.verified else DataImpact.changed);
        reconciliation_required = false;
        reconciliation_reviewed_at = none;
      } in
      set_status now marked Status.succeeded (some token)

  -- `complete_run`
  unfoldable pub complete_run :
      (ℕ → ℕ)
      → ℕ
      → Option Fields
      → Option Fields
      → Option Fields
      → Option Fields
      → Work
      → Result RunError Work
  unfolding refresh_and_require_lease completed_row append_and_record
  complete_run clock token source_manifest destination_manifest verification guardrail w = do
    refresh_and_require_lease (clock 0) token w
    let run =
        completed_row (clock 1) token source_manifest destination_manifest verification guardrail
          w.run
    append_and_record redact_text (clock 2) "Transfer succeeded." (some Stage.verify) info
        "pipeline.run.completed" "success" (record w { run = run })
