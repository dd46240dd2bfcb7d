-- ===== src/Runs/Keeps.antt =====
-- The operations of Lifecycle.antt leave a sound session, in a known status.
use user_token_management_ap.Prelude.{
  ℕ, String, Bool, true, ◌≡◌, subst, sym, Option, none, some, ok, arith, inl, inr, Bool-cases,
  >>=-eq-ok, or_else,
}
use user_token_management_ap.Json.{Fields}
use user_token_management_ap.Runs.Status.{Status, Stage, is_terminal}
use user_token_management_ap.Runs.Codes.{FailureCode, DataImpact}
use user_token_management_ap.Runs.Row.{Work, info, error}
use user_token_management_ap.Runs.Facts.{failure_data_impact}
use user_token_management_ap.Runs.Lease.{owned_run, refresh_and_require_lease}
use user_token_management_ap.Runs.Lifecycle.{
  cancel_level, cancel_stage, claimed_impact, cancel_message, cancel_before_destination_work,
  cancelled_row, request_cancel, fail_run, failed_status, effective_reconciliation,
  cancel_claimed_run, require_if_given, is_queued,
}
use user_token_management_ap.Runs.Invariant.{
  IsSound, append_event-Ends, append_and_record-Ends, append_event-IsSound,
}
use user_token_management_ap.Runs.Endings.{
  cancelled_row-Ends, failed_row-Ends, cancelled_claim_row-Ends,
}

module _ (redact_text : String → String) where
  pub cancel_before_destination_work-IsSound :
      (now : ℕ) (last_safe : Stage) (message : String) (w : Work) {w' : Work}
      → cancel_before_destination_work redact_text now last_safe message w ≡ ok w'
      → IsSound w
      → IsSound w' × (w'.run.status ≡ Status.cancelled)
  unfolding cancel_before_destination_work
  cancel_before_destination_work-IsSound now last_safe message w h s =
      append_event-Ends redact_text now message (some Stage.cancelled) info none w
        (cancelled_row redact_text now last_safe message w.run) Status.cancelled h
        (cancelled_row-Ends redact_text now last_safe message w.run) s

  asked-IsSound :
      (now : ℕ) (w : Work)
      → IsSound w
      → IsSound (record w { run = record w.run { cancel_requested_at = some now } })
  asked-IsSound now w s = record { row = ground arith; log = s.log }

  -- A cancellation keeps a session sound; a run that has ended is returned as it is.
  pub request_cancel-IsSound :
      (clock : ℕ → ℕ) (user : ℕ) (w : Work) {w' : Work}
      → request_cancel redact_text clock user w ≡ ok w'
      → IsSound w
      → IsSound w' × (is_terminal w.run.status ≡ true → w' ≡ w)
  unfolding request_cancel
  request_cancel-IsSound clock user w {w'} h s =
      let (_, _, owned) = >>=-eq-ok (owned_run user w) _ h in
      let asked : Work = record w { run = record w.run { cancel_requested_at = some (clock 0) } } in
      elim (Bool-cases (is_terminal w.run.status)) [
        | inl ended ↦
            let same : w' ≡ w = cc (rw ended at owned) in (subst IsSound (sym same) s, λ _. same)
        | inr going ↦ elim (Bool-cases (is_queued w.run.status)) [
          | inl waiting ↦ (
            (cancel_before_destination_work-IsSound (clock 1) w.run.stage
                "Run cancelled before a worker claimed it." asked (rw (going, waiting) at owned)
                (asked-IsSound (clock 0) w s)).0,
            λ e. absurd (cc (e, going)),
          )
          | inr working ↦ (
            append_event-IsSound redact_text (clock 1) "Cancellation requested." (some w.run.stage)
                info none asked (rw (going, working) at owned) (asked-IsSound (clock 0) w s),
            λ e. absurd (cc (e, going)),
          )
        ]
      ]

  -- A failure of a sound run leaves a sound session, whose run has the failed status that goes with
  -- the reconciliation that the call settled on.
  pub fail_run-IsSound :
      (clock : ℕ → ℕ) (code : FailureCode) (summary : String) (retryable needs : Bool)
      (impact : Option DataImpact) (token : Option ℕ) (facts : Option Fields) (w : Work) {w' : Work}
      → fail_run redact_text clock code summary retryable needs impact token facts w ≡ ok w'
      → IsSound w
      → IsSound w'
        × (w'.run.status ≡ failed_status (effective_reconciliation w.run code needs impact))
  unfolding fail_run
  fail_run-IsSound clock code summary retryable needs impact token facts w h s =
      let (_, _, wrote) = >>=-eq-ok (require_if_given (clock 0) token w) _ h in
      let settled : Bool = effective_reconciliation w.run code needs impact in
      append_and_record-Ends redact_text (clock 2) _ (some w.run.stage) error "pipeline.run.failed"
        "failure" w _ (failed_status settled) wrote
        (failed_row-Ends redact_text (clock 1) code summary retryable settled
          (or_else impact (failure_data_impact w.run code settled)) token facts w.run)
        s

  pub cancel_claimed_run-IsSound :
      (clock : ℕ → ℕ) (token : ℕ) (impact : Option DataImpact) (w : Work) {w' : Work}
      → cancel_claimed_run redact_text clock token impact w ≡ ok w'
      → IsSound w
      → IsSound w'
  unfolding cancel_claimed_run
  cancel_claimed_run-IsSound clock token impact w h s =
      let (_, _, wrote) = >>=-eq-ok (refresh_and_require_lease (clock 0) token w) _ h in
      (append_event-Ends redact_text (clock 2) (cancel_message (claimed_impact w.run impact))
        (some (cancel_stage (claimed_impact w.run impact)))
        (cancel_level (claimed_impact w.run impact)) none w _ _ wrote
        (cancelled_claim_row-Ends redact_text (clock 1) (claimed_impact w.run impact) token w.run)
        s).0
