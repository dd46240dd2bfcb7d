-- ===== src/Runs/Samples.antt =====
-- Concrete runs for the tests.
use user_token_management_ap.Prelude.{
  ℕ, String, Bool, true, false, none, some, [], ◌≡◌, refl, ok, Result, err,
}
use user_token_management_ap.Runs.Status.{Status, Stage, allowed_transition, is_terminal}
use user_token_management_ap.Runs.Codes.{TransferErrorCode, known}
use user_token_management_ap.Runs.Row.{Work, info, RunError}
use user_token_management_ap.Runs.Machine.{set_status}
use user_token_management_ap.Runs.Events.{logged, record_event}
use user_token_management_ap.Runs.Enqueue.{Pipeline, Snapshot, Request, new_run, queue_new}
use user_token_management_ap.Runs.Claim.{leased_row, claim_selected, claimable}
use user_token_management_ap.Runs.Lifecycle.{fail_run}

abbrev pub same_text : String → String
same_text s = s

abbrev pub ticks : ℕ → ℕ
ticks n = n

abbrev pub everyone : ℕ → Bool
everyone user = true

abbrev pub sample_pipeline : Pipeline
sample_pipeline = record { id = 3; user_id = 7; legacy_unsupported = false }

abbrev pub sample_snapshot : Snapshot
sample_snapshot = record { source_provider = "csv"; destination_provider = "mss"; json = "{}" }

abbrev pub sample_request : Request
sample_request = record {
  new_id = 11;
  attempt = 1;
  parent_run_id = none;
  idempotency_token = some 42;
}

abbrev pub queued_work : Work
queued_work = record_event "pipeline.run_queued" (some 7) (some 7) "success" (
    logged same_text 1 "Run queued." (some Stage.queued) info none (record {
      run = new_run 0 7 sample_pipeline sample_snapshot sample_request none;
      stored = true;
      events = [];
      audits = [];
    }))

abbrev pub claimed_work : Work
claimed_work =
    logged same_text 3 "Worker claimed the run." (some Stage.authenticate) info none
      (record queued_work {
        run = set_status 2 (leased_row 0 5 60 99 queued_work.run) Status.validating (some 99);
      })

abbrev pub or_work : Result RunError Work → Work → Work
or_work (ok w) d = w
or_work (err e) d = d

abbrev pub failed_work : Work
failed_work =
    or_work
      (fail_run same_text ticks (known TransferErrorCode.publish_uncertain) "" false true none
        (some 99) none claimed_work)
      claimed_work

pub queued_work_lem :
    queue_new same_text ticks 7 sample_pipeline sample_snapshot sample_request none ≡ ok queued_work
unfolding queue_new
queued_work_lem = refl

pub claimed_work_lem :
    claim_selected same_text ticks 5 60 99 queued_work ≡ ok (claimed_work, some 99)
unfolding claim_selected logged record_event new_run leased_row set_status allowed_transition
claimed_work_lem = refl

pub claimable_queued : claimable 0 everyone none queued_work.run ≡ true
unfolding claimable logged record_event new_run
claimable_queued = refl

pub failed_work_lem :
    fail_run same_text ticks
      (known TransferErrorCode.publish_uncertain)
      ""
      false
      true
      none
      (some 99)
      none
      claimed_work
    ≡ ok failed_work
unfolding fail_run logged record_event new_run leased_row set_status is_terminal
failed_work_lem = refl
