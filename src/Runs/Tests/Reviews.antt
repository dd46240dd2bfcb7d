-- ===== src/Runs/Tests/Reviews.antt =====
-- The theorems about retries, reviews, deferrals and the janitor on concrete rows.
use user_token_management_ap.Prelude.{
  true, false, none, some, [], ◌∷◌, ◌==◌, ◌≡◌, refl, ok, any, All,
}
use user_token_management_ap.Runs.Status.{Status, is_terminal, allowed_transition}
use user_token_management_ap.Runs.Row.{Work}
use user_token_management_ap.Runs.Machine.{set_status}
use user_token_management_ap.Runs.Events.{logged, record_event}
use user_token_management_ap.Runs.Review.{unresolved, run_requires_reconciliation_review}
use user_token_management_ap.Runs.Lifecycle.{fail_run, record_reconciliation_review}
use user_token_management_ap.Runs.Progress
use user_token_management_ap.Runs.Enqueue.{enqueue_run, may_enqueue, new_run, blocks_enqueue}
use user_token_management_ap.Runs.Claim.Table.{earliest_lem, claim_run-All, queued_before}
use user_token_management_ap.Runs.Claim.{claim_run, earliest, claimable, leased_row}
use user_token_management_ap.Runs.Invariant.{IsSound}
use user_token_management_ap.Runs.Step.{claims}
use user_token_management_ap.Runs.Reach.{here, next, queued_Reach-IsSound}
use user_token_management_ap.Runs.Retry.{
  enqueue_run-idempotent, record_reconciliation_review-resolves,
}
use user_token_management_ap.Runs.Janitor.{janitor, Retention}
use user_token_management_ap.Runs.Janitor.Laws.{janitor-blocks_enqueue}
use user_token_management_ap.Runs.Samples.{
  same_text, ticks, everyone, sample_pipeline, sample_snapshot, sample_request, queued_work,
  claimed_work, failed_work, or_work, queued_work_lem, claimed_work_lem, claimable_queued,
}

claim-IsSound : IsSound claimed_work
claim-IsSound =
    queued_Reach-IsSound same_text ticks 7 sample_pipeline sample_snapshot sample_request none
      queued_work_lem
      (next here (claims ticks everyone none 5 60 99 (some 99) claimable_queued claimed_work_lem))

first_enqueue :
    enqueue_run same_text ticks
      (λ s d. true)
      (λ d. true)
      7
      (some sample_pipeline)
      sample_snapshot
      sample_request
      []
    ≡ ok (queued_work, queued_work ∷ [])
unfolding enqueue_run logged record_event new_run
first_enqueue = refl

may_again :
    may_enqueue
      (λ s d. true)
      (λ d. true)
      7
      (some sample_pipeline)
      sample_snapshot
      (queued_work ∷ [])
    ≡ ok sample_pipeline
unfolding may_enqueue logged record_event new_run
may_again = refl

enqueue_run-idempotent_example :
    enqueue_run same_text ticks
      (λ s d. true)
      (λ d. true)
      7
      (some sample_pipeline)
      sample_snapshot
      sample_request
      (queued_work ∷ [])
    ≡ ok (queued_work, queued_work ∷ [])
enqueue_run-idempotent_example =
    enqueue_run-idempotent same_text ticks (λ s d. true) (λ d. true) 7 42 (some sample_pipeline)
      (some sample_pipeline) sample_snapshot sample_snapshot sample_request sample_request []
      (queued_work ∷ []) queued_work first_enqueue refl refl may_again

abbrev reviewed_work : Work
reviewed_work =
    or_work (record_reconciliation_review same_text (λ n. "now") ticks 7 failed_work) failed_work

reviewed_work_lem :
    record_reconciliation_review same_text (λ n. "now") ticks 7 failed_work ≡ ok reviewed_work
unfolding record_reconciliation_review fail_run logged record_event new_run leased_row set_status
    is_terminal run_requires_reconciliation_review
reviewed_work_lem = refl

record_reconciliation_review-resolves_example :
    (run_requires_reconciliation_review failed_work.run ≡ true)
    × (unresolved reviewed_work.run ≡ false)
    × (reviewed_work.run.status ≡ failed_work.run.status)
record_reconciliation_review-resolves_example =
    record_reconciliation_review-resolves same_text (λ n. "now") ticks 7 failed_work
      reviewed_work_lem

abbrev extracting_work : Work
extracting_work =
    or_work (Progress.transition same_text ticks Status.extracting 99 none claimed_work)
      claimed_work

extracting_work_lem :
    Progress.transition same_text ticks Status.extracting 99 none claimed_work ≡ ok extracting_work
unfolding Progress.transition logged record_event new_run leased_row set_status is_terminal
    allowed_transition
extracting_work_lem = refl

abbrev one_day : Retention
one_day = record { pipeline_event_retention_days = 1; pipeline_run_retention_days = 1 }

janitor-blocks_enqueue_example :
    any
      (blocks_enqueue 7 3)
      (janitor 200000000000 one_day [] (5 ∷ []) (failed_work ∷ queued_work ∷ [])).table
    ≡ any (blocks_enqueue 7 3) (failed_work ∷ queued_work ∷ [])
janitor-blocks_enqueue_example =
    janitor-blocks_enqueue 200000000000 one_day [] (5 ∷ []) (failed_work ∷ queued_work ∷ []) 7 3

claim_done :
    claim_run same_text ticks everyone 5 60 99 none (queued_work ∷ [])
    ≡ ok (claimed_work ∷ [], some (11, 99))
unfolding claim_run logged record_event new_run leased_row set_status allowed_transition is_terminal
claim_done = refl

only_queued : earliest (claimable 0 everyone none) (queued_work ∷ []) ≡ some queued_work
unfolding earliest claimable logged record_event new_run
only_queued = refl

earliest_lem_example :
    (any (λ v. v.run.id == queued_work.run.id) (queued_work ∷ []) ≡ true)
    × (claimable 0 everyone none queued_work.run ≡ true)
    × (queued_before (claimable 0 everyone none) queued_work.run.queued_at (queued_work ∷ [])
        ≡ false)
earliest_lem_example = earliest_lem 0 everyone none (queued_work ∷ []) only_queued

start-IsSound : IsSound queued_work
start-IsSound =
    queued_Reach-IsSound same_text ticks 7 sample_pipeline sample_snapshot sample_request none
      queued_work_lem here

claim_run-All_example : All IsSound (claimed_work ∷ [])
claim_run-All_example =
    claim_run-All same_text ticks everyone 5 60 99 none (queued_work ∷ []) (start-IsSound, tt)
      claim_done
