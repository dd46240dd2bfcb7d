-- ===== src/Runs/Safety.antt =====
-- Retry safety: what a failure with an uncertain destination means for the next enqueue.
use user_token_management_ap.Prelude.{
  refl, ok-injective, ℕ, String, Bool, true, false, ◌≡◌, subst, sym, ◌∙◌, ap, Option, none, some,
  ok, arith, inl, inr, Bool-cases, >>=-eq-ok, or_else, List, [], ◌∷◌, any, ◌++◌,
}
use user_token_management_ap.Json.{Fields, get, update, flag, fields_of, load}
use user_token_management_ap.Json.Laws.{get-update-none}
use user_token_management_ap.Redaction.Laws.{get-redact_mapping, redacted_entry}
use user_token_management_ap.Runs.Status.{is_terminal, Status, Stage}
use user_token_management_ap.Runs.Codes.{FailureCode, DataImpact}
use user_token_management_ap.Runs.Row.{Level, Run, Work, error}
use user_token_management_ap.Runs.Machine.{set_status}
use user_token_management_ap.Runs.Facts.{failure_facts, failure_entries, failure_data_impact}
use user_token_management_ap.Runs.Review.{
  unresolved, run_requires_reconciliation_review, reconciliation_reviewed,
}
use user_token_management_ap.Runs.Events.{
  next_sequence, record_event, logged, append_event, append_and_record,
}
use user_token_management_ap.Runs.Lifecycle.{
  closed_failure, fail_run, failed_row, failed_status, effective_reconciliation, require_if_given,
}

-- A run that has failed with a reconciliation to do needs a review.
failed_row-requires_review :
    (redact_text : String → String) (now : ℕ) (code : FailureCode) (summary : String)
    (retryable : Bool) (impact : DataImpact) (token : Option ℕ) (run : Run)
    → run_requires_reconciliation_review
        (failed_row redact_text now code summary retryable true impact token none run)
      ≡ true
unfolding run_requires_reconciliation_review failed_row set_status failed_status is_terminal
failed_row-requires_review redact_text now code summary retryable impact token run = refl

-- The failure facts hold no review stamp that was not there before.
failure_facts-unstamped :
    (redact_text : String → String) (run : Run) (code : FailureCode) (impact : DataImpact)
    (needs : Bool) (stage : Stage)
    → get "reconciliation_reviewed_at" (fields_of (load run.verification)) ≡ none
    → get "reconciliation_reviewed_at" (failure_facts redact_text run code impact needs stage)
      ≡ none
unfolding failure_facts failure_entries get
failure_facts-unstamped redact_text run code impact needs stage h =
    get-redact_mapping redact_text "reconciliation_reviewed_at"
      (update (fields_of (load run.verification)) (failure_entries run code impact needs stage))
    ∙ ap (redacted_entry redact_text "reconciliation_reviewed_at") (
        get-update-none "reconciliation_reviewed_at" (fields_of (load run.verification))
          (failure_entries run code impact needs stage) refl
        ∙ h)

failed_row-unreviewed :
    (redact_text : String → String) (now : ℕ) (code : FailureCode) (summary : String)
    (retryable needs : Bool) (impact : DataImpact) (token : Option ℕ) (run : Run)
    → get "reconciliation_reviewed_at" (fields_of (load run.verification)) ≡ none
    → reconciliation_reviewed
        (failed_row redact_text now code summary retryable needs impact token none run)
      ≡ false
unfolding reconciliation_reviewed failed_row is_terminal
failed_row-unreviewed redact_text now code summary retryable true impact token run h = ap flag (
    failure_facts-unstamped redact_text
      (closed_failure redact_text now code summary retryable true impact token run) code impact true
      run.stage h)
failed_row-unreviewed redact_text now code summary retryable false impact token run h = ap flag (
    failure_facts-unstamped redact_text
      (closed_failure redact_text now code summary retryable false impact token run) code impact
      false run.stage h)

pub any-append_mem :
    (p : Work → Bool) (before rest : List Work) (w : Work)
    → p w ≡ true
    → any p (before ++ w ∷ rest) ≡ true
any-append_mem p [] rest w h = rw h
any-append_mem p (x ∷ before) rest w h = ground (arith, any-append_mem p before rest w h)

append_and_record-run :
    (redact_text : String → String) (now : ℕ) (message : String) (stage : Option Stage)
    (level : Level) (kind outcome : String) (w : Work) {w' : Work}
    → append_and_record redact_text now message stage level kind outcome w ≡ ok w'
    → w'.run ≡ next_sequence w.run
unfolding append_and_record append_event record_event logged
append_and_record-run redact_text now message stage level kind outcome w h =
    elim (Bool-cases w.stored) [
      | inl there ↦ ap (λ v. v.run) (sym (ok-injective (rw there at h)))
      | inr gone ↦ cc (rw gone at h)
    ]

-- The row that a failure leaves.
fail_run-row :
    (redact_text : String → String) (clock : ℕ → ℕ) (code : FailureCode) (summary : String)
    (retryable needs : Bool) (impact : Option DataImpact) (token : Option ℕ) (facts : Option Fields)
    (w : Work) {w' : Work}
    → fail_run redact_text clock code summary retryable needs impact token facts w ≡ ok w'
    → w'.run
      ≡ next_sequence (
          failed_row redact_text
            (clock 1)
            code
            summary
            retryable
            (effective_reconciliation w.run code needs impact)
            (or_else impact
              (failure_data_impact w.run code (effective_reconciliation w.run code needs impact)))
            token
            facts
            w.run)
unfolding fail_run
fail_run-row redact_text clock code summary retryable needs impact token facts w h =
    let (_, _, wrote) = >>=-eq-ok (require_if_given (clock 0) token w) _ h in
    append_and_record-run redact_text (clock 2) _ (some w.run.stage) error "pipeline.run.failed"
      "failure" _ wrote

-- What makes a run block its pipeline.
abbrev pub IsBlocking : Run → Run → Type 0
IsBlocking before run =
    (unresolved run ≡ true)
    × (run.status ≡ Status.failed_needs_reconciliation)
    × (run.user_id ≡ before.user_id)
    × (run.pipeline_definition_id ≡ before.pipeline_definition_id)

unresolved-next_sequence : (run : Run) → unresolved (next_sequence run) ≡ unresolved run
unfolding unresolved next_sequence
unresolved-next_sequence run = refl

unresolved_of :
    (run : Run)
    → run_requires_reconciliation_review run ≡ true
    → reconciliation_reviewed run ≡ false
    → unresolved run ≡ true
unresolved_of run h k = unfold unresolved in rw (h, k)

failed_row-blocks :
    (redact_text : String → String) (now : ℕ) (code : FailureCode) (summary : String)
    (retryable : Bool) (impact : DataImpact) (token : Option ℕ) (run : Run)
    → get "reconciliation_reviewed_at" (fields_of (load run.verification)) ≡ none
    → IsBlocking run (
        next_sequence
          (failed_row redact_text now code summary retryable true impact token none run))
unfolding failed_row is_terminal next_sequence
failed_row-blocks redact_text now code summary retryable impact token run u =
    let row : Run = failed_row redact_text now code summary retryable true impact token none run in
    (
      unresolved-next_sequence row
          ∙ unresolved_of row
              (failed_row-requires_review redact_text now code summary retryable impact token run)
              (failed_row-unreviewed redact_text now code summary retryable true impact token run
                u),
      refl,
      refl,
      refl,
    )

-- A failure that settles on a reconciliation, of a run whose facts hold no review stamp, leaves a run
-- of the same user and pipeline that is unresolved.
pub fail_run-IsBlocking :
    (redact_text : String → String) (clock : ℕ → ℕ) (code : FailureCode) (summary : String)
    (retryable needs : Bool) (impact : Option DataImpact) (token : Option ℕ) (w : Work) {w' : Work}
    → fail_run redact_text clock code summary retryable needs impact token none w ≡ ok w'
    → effective_reconciliation w.run code needs impact ≡ true
    → get "reconciliation_reviewed_at" (fields_of (load w.run.verification)) ≡ none
    → IsBlocking w.run w'.run
fail_run-IsBlocking redact_text clock code summary retryable needs impact token w {w'} h e u =
    let impact' : DataImpact = or_else impact (failure_data_impact w.run code true) in
    let row : Run =
      failed_row redact_text (clock 1) code summary retryable true impact' token none w.run in
    let at : w'.run ≡ next_sequence row =
      rw e at (fail_run-row redact_text clock code summary retryable needs impact token none w h) in
    subst (IsBlocking w.run) (sym at)
      (failed_row-blocks redact_text (clock 1) code summary retryable impact' token w.run u)
