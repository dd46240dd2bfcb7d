-- ===== src/Runs/Ended.antt =====
-- What the operations of app/services/pipeline_runs.py change of a run that has ended.
use user_token_management_ap.Prelude.{
  ℕ, String, Bool, true, false, ◌≡◌, subst, sym, ◌∙◌, ap, Option, ok, arith, inl, inr, >>=-eq-ok,
}
use user_token_management_ap.Runs.Status.{Status, is_terminal, is_worker_owned}
use user_token_management_ap.Runs.Row.{Work}
use user_token_management_ap.Runs.Lease.{
  renew_lease, may_renew, refresh_and_require_lease, heartbeat,
}
use user_token_management_ap.Runs.Lifecycle.{fail_run, cancel_claimed_run}
use user_token_management_ap.Runs.Progress
use user_token_management_ap.Runs.Progress.{
  complete_run, block_run, block_compute_readiness, add_counters, record_guardrail_review,
}
use user_token_management_ap.Runs.Claim.{claimable}
use user_token_management_ap.Runs.Claim.Laws.{claimable_lem}
use user_token_management_ap.Runs.Defer.{defer_run_for_databricks_compute}
use user_token_management_ap.Runs.Invariant.{IsSound, refresh-is_worker_owned}
use user_token_management_ap.Runs.Keeps.{request_cancel-IsSound}
use user_token_management_ap.Runs.Reviewed.{
  IsKept, IsKept-refl, record_reconciliation_review-IsKept,
}
use user_token_management_ap.Runs.Step.{
  Step, claims, beats, renews, counts, moves, reviews, defers, blocks, blocks_compute, completes,
  fails, cancels, asks, acknowledges,
}

-- A renewal of a run that has ended changes nothing.
ended_renewal :
    (clock : ℕ → ℕ) (token lease_seconds : ℕ) (w : Work)
    → is_terminal w.run.status ≡ true
    → (renew_lease clock token lease_seconds w).0 ≡ w
unfolding renew_lease may_renew is_worker_owned is_terminal
ended_renewal clock token lease_seconds w e = ground arith

module _ (redact_text : String → String) where
  ended_unowned : (status : Status) → is_terminal status ≡ true → is_worker_owned status ≡ false
  unfolding is_terminal is_worker_owned
  ended_unowned status h = ground arith

  -- No worker's lease check passes on a run that has ended.
  ended_fenced :
      {A : Type 0} (now token : ℕ) (w : Work) {u : Unit {0}}
      → IsSound w
      → is_terminal w.run.status ≡ true
      → refresh_and_require_lease now token w ≡ ok u
      → A
  ended_fenced now token w s t h =
      absurd (cc (ended_unowned w.run.status t, refresh-is_worker_owned now token w h s))

  ended_unclaimable :
      {A : Type 0} (now : ℕ) (active_user : ℕ → Bool) (run_id : Option ℕ) (w : Work)
      → is_terminal w.run.status ≡ true
      → claimable now active_user run_id w.run ≡ true
      → A
  unfolding is_terminal
  ended_unclaimable now active_user run_id w t c =
      elim (claimable_lem now active_user run_id w.run c) [
        | inl waiting ↦ absurd (cc (ap is_terminal waiting, t))
        | inr (owned, _) ↦ absurd (cc (ended_unowned w.run.status t, owned))
      ]

  IsKept-same : {w w' : Work} → w' ≡ w → IsKept w w'
  IsKept-same {w} same = subst (IsKept w) (sym same) (IsKept-refl w)

  -- A run that has ended is changed by no operation but a review, which keeps all else.
  pub Step-terminal :
      {w w' : Work}
      → Step redact_text w w'
      → IsSound w
      → is_terminal w.run.status ≡ true
      → IsKept w w'
  unfolding heartbeat add_counters Progress.transition record_guardrail_review
      defer_run_for_databricks_compute block_run block_compute_readiness complete_run fail_run
      cancel_claimed_run
  Step-terminal {w} (claims clock active run_id worker seconds token t c h) s e =
      ended_unclaimable (clock 0) active run_id w e c
  Step-terminal {w} (beats clock token seconds h) s e =
      ended_fenced (clock 0) token w s e
        (>>=-eq-ok (refresh_and_require_lease (clock 0) token w) _ h).1
  Step-terminal {w} {w'} (renews clock token seconds h) s e =
      IsKept-same (sym h ∙ ended_renewal clock token seconds w e)
  Step-terminal {w} (counts clock token rows bytes loaded loaded_bytes h) s e =
      ended_fenced (clock 0) token w s e
        (>>=-eq-ok (refresh_and_require_lease (clock 0) token w) _ h).1
  Step-terminal {w} (moves clock status token message h) s e =
      ended_fenced (clock 0) token w s e
        (>>=-eq-ok (refresh_and_require_lease (clock 0) token w) _ h).1
  Step-terminal {w} (reviews clock token guardrail h) s e =
      ended_fenced (clock 0) token w s e
        (>>=-eq-ok (refresh_and_require_lease (clock 0) token w) _ h).1
  Step-terminal {w} (defers clock token poll attempts waits h) s e =
      ended_fenced (clock 0) token w s e
        (>>=-eq-ok (refresh_and_require_lease (clock 0) token w) _ h).1
  Step-terminal {w} (blocks clock token summary guardrail h) s e =
      ended_fenced (clock 0) token w s e
        (>>=-eq-ok (refresh_and_require_lease (clock 0) token w) _ h).1
  Step-terminal {w} (blocks_compute clock token summary h) s e =
      ended_fenced (clock 0) token w s e
        (>>=-eq-ok (refresh_and_require_lease (clock 0) token w) _ h).1
  Step-terminal {w} (completes clock token a b c d h) s e =
      ended_fenced (clock 0) token w s e
        (>>=-eq-ok (refresh_and_require_lease (clock 0) token w) _ h).1
  Step-terminal {w} (fails clock code summary retryable needs impact token facts h) s e =
      ended_fenced (clock 0) token w s e
        (>>=-eq-ok (refresh_and_require_lease (clock 0) token w) _ h).1
  Step-terminal {w} (cancels clock token impact h) s e =
      ended_fenced (clock 0) token w s e
        (>>=-eq-ok (refresh_and_require_lease (clock 0) token w) _ h).1
  Step-terminal {w} (asks clock user h) s e =
      IsKept-same ((request_cancel-IsSound redact_text clock user w h s).1 e)
  Step-terminal {w} (acknowledges stamp clock user h) s e =
      record_reconciliation_review-IsKept redact_text stamp clock user w h
