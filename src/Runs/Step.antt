-- ===== src/Runs/Step.antt =====
-- One operation of app/services/pipeline_runs.py on a run, by its workers, its owner or the claims of the
-- queue, at any readings of the clock.
use user_token_management_ap.Prelude.{
  ok-injective, Bool-cases, refl, ℕ, String, Bool, true, false, ◌≡◌, subst, Option, some, ok, arith,
  inl, inr,
}
use user_token_management_ap.Json.{Fields}
use user_token_management_ap.Runs.Status.{Status, is_terminal, is_worker_owned}
use user_token_management_ap.Runs.Codes.{FailureCode, DataImpact}
use user_token_management_ap.Runs.Row.{Run, Work}
use user_token_management_ap.Runs.Enqueue.{queue_new, Pipeline, Snapshot, Request, new_run}
use user_token_management_ap.Runs.Events.{append_event, logged, next_sequence, record_event}
use user_token_management_ap.Runs.Lease.{renew_lease, may_renew, heartbeat}
use user_token_management_ap.Runs.Lifecycle.{
  request_cancel, fail_run, cancel_claimed_run, record_reconciliation_review,
}
use user_token_management_ap.Runs.Progress
use user_token_management_ap.Runs.Progress.{
  complete_run, block_run, block_compute_readiness, add_counters, record_guardrail_review,
}
use user_token_management_ap.Runs.Claim.{claimable, claim_selected}
use user_token_management_ap.Runs.Claim.Laws.{claim_selected-IsSound}
use user_token_management_ap.Runs.Defer.{ComputeAttempt, defer_run_for_databricks_compute}
use user_token_management_ap.Runs.Defer.Laws.{IsDeferred, defer-IsDeferred}
use user_token_management_ap.Runs.Invariant.{IsSound}
use user_token_management_ap.Runs.Keeps.{
  request_cancel-IsSound, fail_run-IsSound, cancel_claimed_run-IsSound,
}
use user_token_management_ap.Runs.Reviewed.{record_reconciliation_review-IsSound}
use user_token_management_ap.Runs.Advances.{
  complete_run-IsSound, block_compute_readiness-IsSound, transition-IsSound, block_run-IsSound,
  record_guardrail_review-IsSound, add_counters-IsSound, heartbeat-IsSound,
}

-- One operation that commits, alone from its read to its commit: of the queue, of the worker whose
-- token it gives, or of the owner, whose operations are the request to cancel and the review of the
-- reconciliation.
pub data Step (redact_text : String → String) (w w' : Work) : Type 0 where
  claims :
      (clock : ℕ → ℕ) (active_user : ℕ → Bool) (run_id : Option ℕ) (worker lease_seconds token : ℕ)
      (t : Option ℕ)
      → claimable (clock 0) active_user run_id w.run ≡ true
      → claim_selected redact_text clock worker lease_seconds token w ≡ ok (w', t)
      → Step redact_text w w'
  beats :
      (clock : ℕ → ℕ) (token lease_seconds : ℕ)
      → heartbeat clock token lease_seconds w ≡ ok w'
      → Step redact_text w w'
  renews :
      (clock : ℕ → ℕ) (token lease_seconds : ℕ)
      → (renew_lease clock token lease_seconds w).0 ≡ w'
      → Step redact_text w w'
  counts :
      (clock : ℕ → ℕ) (token : ℕ) (rows : Option ℕ) (bytes : ℕ) (loaded : Option ℕ)
      (loaded_bytes : ℕ)
      → add_counters clock token rows bytes loaded loaded_bytes w ≡ ok w'
      → Step redact_text w w'
  moves :
      (clock : ℕ → ℕ) (status : Status) (token : ℕ) (message : Option String)
      → Progress.transition redact_text clock status token message w ≡ ok w'
      → Step redact_text w w'
  reviews :
      (clock : ℕ → ℕ) (token : ℕ) (guardrail : Fields)
      → record_guardrail_review redact_text clock token guardrail w ≡ ok w'
      → Step redact_text w w'
  defers :
      (clock : ℕ → ℕ) (token poll : ℕ) (attempts : ℕ → Option ComputeAttempt) (waits : Bool)
      → defer_run_for_databricks_compute redact_text clock token poll attempts w ≡ ok (w', waits)
      → Step redact_text w w'
  blocks :
      (clock : ℕ → ℕ) (token : ℕ) (summary : String) (guardrail : Fields)
      → block_run redact_text clock token summary guardrail w ≡ ok w'
      → Step redact_text w w'
  blocks_compute :
      (clock : ℕ → ℕ) (token : ℕ) (summary : String)
      → block_compute_readiness redact_text clock token summary w ≡ ok w'
      → Step redact_text w w'
  completes :
      (clock : ℕ → ℕ) (token : ℕ) (source destination verification guardrail : Option Fields)
      → complete_run redact_text clock token source destination verification guardrail w ≡ ok w'
      → Step redact_text w w'
  fails :
      (clock : ℕ → ℕ) (code : FailureCode) (summary : String) (retryable needs : Bool)
      (impact : Option DataImpact) (token : ℕ) (facts : Option Fields)
      → fail_run redact_text clock code summary retryable needs impact (some token) facts w ≡ ok w'
      → Step redact_text w w'
  cancels :
      (clock : ℕ → ℕ) (token : ℕ) (impact : Option DataImpact)
      → cancel_claimed_run redact_text clock token impact w ≡ ok w'
      → Step redact_text w w'
  asks :
      (clock : ℕ → ℕ) (user : ℕ)
      → request_cancel redact_text clock user w ≡ ok w'
      → Step redact_text w w'
  acknowledges :
      (stamp : ℕ → String) (clock : ℕ → ℕ) (user : ℕ)
      → record_reconciliation_review redact_text stamp clock user w ≡ ok w'
      → Step redact_text w w'

renew_lease-IsSound :
    (clock : ℕ → ℕ) (token lease_seconds : ℕ) (w : Work)
    → IsSound w
    → IsSound (renew_lease clock token lease_seconds w).0
unfolding renew_lease may_renew
renew_lease-IsSound clock token lease_seconds w s =
    elim (Bool-cases (may_renew (clock 0) token w)) [
      | inl renewed ↦ rw renewed (record { row = ground (arith, renewed); log = s.log })
      | inr refused ↦ rw refused s
    ]

-- A run that has just been queued is sound.
pub queue_new-IsSound :
    (redact_text : String → String) (clock : ℕ → ℕ) (user : ℕ) (pipeline : Pipeline)
    (snapshot : Snapshot) (request : Request) (parent : Option Run) {w : Work}
    → queue_new redact_text clock user pipeline snapshot request parent ≡ ok w
    → IsSound w × (w.run.status ≡ Status.queued)
unfolding queue_new append_event logged next_sequence new_run record_event is_worker_owned
    is_terminal
queue_new-IsSound redact_text clock user pipeline snapshot request parent h =
    subst (λ v. IsSound v × (v.run.status ≡ Status.queued)) (ok-injective h)
      (
        record {
          row = record { leased = refl; expiring = refl; worked = refl; finished = refl };
          log = (omega arith, omega arith);
        },
        refl,
      )

module _ (redact_text : String → String) where
  deferred-IsSound : (w : Work) (result : Work × Bool) → IsDeferred w result → IsSound result.0
  deferred-IsSound w (v, true) d = d.0
  deferred-IsSound w (v, false) d = d.0

  pub Step-IsSound : {w w' : Work} → Step redact_text w w' → IsSound w → IsSound w'
  Step-IsSound {w} (claims clock active run_id worker seconds token t c h) s =
      (claim_selected-IsSound redact_text clock worker seconds token active run_id w c s h).0
  Step-IsSound {w} (beats clock token seconds h) s = (heartbeat-IsSound clock token seconds w h s).0
  Step-IsSound {w} (renews clock token seconds h) s =
      subst IsSound h (renew_lease-IsSound clock token seconds w s)
  Step-IsSound {w} (counts clock token rows bytes loaded loaded_bytes h) s =
      (add_counters-IsSound clock token rows bytes loaded loaded_bytes w h s).0
  Step-IsSound {w} (moves clock status token message h) s =
      (transition-IsSound redact_text clock status token message w h s).0
  Step-IsSound {w} (reviews clock token guardrail h) s =
      (record_guardrail_review-IsSound redact_text clock token guardrail w h s).0
  Step-IsSound {w} {w'} (defers clock token poll attempts waits h) s =
      deferred-IsSound w (w', waits) (defer-IsDeferred redact_text clock token poll attempts w h s)
  Step-IsSound {w} (blocks clock token summary guardrail h) s =
      (block_run-IsSound redact_text clock token summary guardrail w h s).0
  Step-IsSound {w} (blocks_compute clock token summary h) s =
      (block_compute_readiness-IsSound redact_text clock token summary w h s).0
  Step-IsSound {w} (completes clock token a b c d h) s =
      (complete_run-IsSound redact_text clock token a b c d w h s).0
  Step-IsSound {w} (fails clock code summary retryable needs impact token facts h) s =
      (fail_run-IsSound redact_text clock code summary retryable needs impact (some token) facts w h
        s).0
  Step-IsSound {w} (cancels clock token impact h) s =
      cancel_claimed_run-IsSound redact_text clock token impact w h s
  Step-IsSound {w} (asks clock user h) s = (request_cancel-IsSound redact_text clock user w h s).0
  Step-IsSound {w} (acknowledges stamp clock user h) s =
      record_reconciliation_review-IsSound redact_text stamp clock user w h s
