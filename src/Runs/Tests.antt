-- ===== src/Runs/Tests.antt =====
-- The theorems about runs on concrete rows.
mod Reviews
use user_token_management_ap.Prelude.{
  ◌>>◌, arith, ℕ, ◌+◌, String, Bool, true, false, Option, none, some, List, [], ◌∷◌, ◌++◌, ◌≡◌, ◌≢◌,
  ◌<◌, refl, ok, err, Result, map_ok, any, All, subst, is_some,
}
use user_token_management_ap.Json.{Fields, end, get, fields_of, load}
use user_token_management_ap.Runs.Status.{
  Status, Stage, is_terminal, allowed_transition, is_worker_owned,
}
use user_token_management_ap.Runs.Codes.{TransferErrorCode, FailureCode, known}
use user_token_management_ap.Runs.Row.{Run, Work, RunError, value_error, run_conflict}
use user_token_management_ap.Runs.Machine.{require_given_lease, transition, set_status}
use user_token_management_ap.Runs.Machine.Pure
use user_token_management_ap.Runs.Machine.Laws.{
  view, rank, transition-view, allowed_transition-rank,
}
use user_token_management_ap.Runs.Events.{logged, record_event}
use user_token_management_ap.Runs.Lease.{refresh_and_require_lease, seconds}
use user_token_management_ap.Runs.Review.{unresolved}
use user_token_management_ap.Runs.Lifecycle.{effective_reconciliation, failed_status}
use user_token_management_ap.Runs.Progress
use user_token_management_ap.Runs.Enqueue.{enqueue_run, new_run, blocks_enqueue}
use user_token_management_ap.Runs.Claim.{leased_row, claim_selected, claimable}
use user_token_management_ap.Runs.Claim.Laws.{claim_selected-IsSound}
use user_token_management_ap.Runs.Claim.Fences.{claim_selected_fences, lease_excludes_claim}
use user_token_management_ap.Runs.Invariant.{IsSound}
use user_token_management_ap.Runs.Step.{claims, fails}
use user_token_management_ap.Runs.Reach.{Reach, here, next, queued_Reach-IsSound}
use user_token_management_ap.Runs.Retry.{
  fail_run-blocks-enqueue_run, enqueue_run-idempotent, record_reconciliation_review-resolves,
}
use user_token_management_ap.Runs.Janitor.{janitor, Retention, Publication, purge_events}
use user_token_management_ap.Runs.Janitor.Laws.{janitor-blocks_enqueue}
use user_token_management_ap.Runs.Samples.{
  same_text, ticks, everyone, sample_pipeline, sample_snapshot, sample_request, queued_work,
  claimed_work, failed_work, queued_work_lem, claimed_work_lem, claimable_queued, failed_work_lem,
}

claimed_life : Reach same_text queued_work claimed_work
claimed_life =
    next here (claims ticks everyone none 5 60 99 (some 99) claimable_queued claimed_work_lem)

failed_life : Reach same_text queued_work failed_work
failed_life = next claimed_life (
    fails ticks (known TransferErrorCode.publish_uncertain) "" false true none 99 none
      failed_work_lem)

queued_Reach-IsSound_example : IsSound failed_work
queued_Reach-IsSound_example =
    queued_Reach-IsSound same_text ticks 7 sample_pipeline sample_snapshot sample_request none
      queued_work_lem failed_life

claimed-IsSound : IsSound claimed_work
claimed-IsSound =
    queued_Reach-IsSound same_text ticks 7 sample_pipeline sample_snapshot sample_request none
      queued_work_lem claimed_life

queued-IsSound : IsSound queued_work
queued-IsSound =
    queued_Reach-IsSound same_text ticks 7 sample_pipeline sample_snapshot sample_request none
      queued_work_lem here

sample_settles :
    effective_reconciliation claimed_work.run (known TransferErrorCode.publish_uncertain) true none
    ≡ true
unfolding effective_reconciliation
sample_settles = refl

sample_unstamped :
    get "reconciliation_reviewed_at" (fields_of (load claimed_work.run.verification)) ≡ none
unfolding logged record_event new_run leased_row set_status is_terminal get
sample_unstamped = refl

claimed_user : claimed_work.run.user_id ≡ 7
unfolding logged record_event new_run leased_row set_status is_terminal
claimed_user = refl

claimed_pipeline : claimed_work.run.pipeline_definition_id ≡ some 3
unfolding logged record_event new_run leased_row set_status is_terminal
claimed_pipeline = refl

fail_run-blocks-enqueue_run_example :
    enqueue_run same_text ticks
      (λ s d. true)
      (λ d. true)
      7
      (some sample_pipeline)
      sample_snapshot
      sample_request
      (failed_work ∷ queued_work ∷ [])
    ≡ err value_error
fail_run-blocks-enqueue_run_example =
    fail_run-blocks-enqueue_run same_text ticks (λ s d. true) (λ d. true) ticks
      (known TransferErrorCode.publish_uncertain) "" false true none (some 99) claimed_work
      failed_work sample_pipeline sample_snapshot sample_request [] (queued_work ∷ [])
      failed_work_lem sample_settles sample_unstamped claimed_user claimed_pipeline

claim_selected-IsSound_example :
    IsSound claimed_work
    × ((◌≡◌ {A = ℕ} 99 99)
        × (claimed_work.run.status ≡ Status.validating)
        × (claimed_work.run.lease_token ≡ some 99)
        × (claimed_work.run.lease_expires_at ≡ some (0 + seconds 60)))
claim_selected-IsSound_example =
    claim_selected-IsSound same_text ticks 5 60 99 everyone none queued_work claimable_queued
      queued-IsSound claimed_work_lem

claimed_stored : claimed_work.stored ≡ true
unfolding logged record_event
claimed_stored = refl

not_same : ◌≢◌ {A = ℕ} 98 99
not_same h = ground (arith, h)

claim_selected_fences_example : refresh_and_require_lease 4 98 claimed_work ≡ err run_conflict
claim_selected_fences_example =
    claim_selected_fences same_text ticks 5 60 99 everyone none queued_work claimed_work 99 4 98
      claimable_queued queued-IsSound claimed_work_lem not_same claimed_stored

claimed_held : refresh_and_require_lease 4 99 claimed_work ≡ ok tt
unfolding logged record_event new_run leased_row set_status is_terminal refresh_and_require_lease
claimed_held = refl

lease_excludes_claim_example : claimable 4 everyone none claimed_work.run ≡ false
lease_excludes_claim_example =
    lease_excludes_claim 4 99 everyone none claimed_work claimed_held claimed-IsSound

transition-view_example :
    (require_given_lease claimed_work.run.lease_token (some 99)
      >> map_ok view (transition 9 claimed_work.run Status.extracting (some 99)))
    ≡ Pure.transition 9 (view claimed_work.run) Status.extracting (some 99)
transition-view_example = transition-view 9 claimed_work.run Status.extracting (some 99)

validating_extracting : allowed_transition Status.validating Status.extracting ≡ true
unfolding allowed_transition
validating_extracting = refl

allowed_transition-rank_example : rank Status.validating < rank Status.extracting
allowed_transition-rank_example =
    allowed_transition-rank Status.validating Status.extracting validating_extracting
