-- ===== src/Runs/Claim.antt =====
-- `claim_run` of app/services/pipeline_runs.py. The table of
-- runs is a list of units of work; the row locks of PostgreSQL are the order of the calls.
pub mod Laws
pub mod Fences
pub mod Table
use user_token_management_ap.Prelude.{
  ℕ, ◌+◌, String, Bool, true, false, ◌&&◌, ◌||◌, Option, none, some, is_some, is_none, List, [],
  ◌∷◌, Result, ok, ◌>>=◌, ltb, leb, passed, ◌==◌, if◌then◌else◌, or_else,
}
use user_token_management_ap.Runs.Status.{Status, Stage, is_worker_owned, stage_for_status}
use user_token_management_ap.Runs.Codes.{TransferErrorCode, known}
use user_token_management_ap.Runs.Row.{Run, Work, info, RunError}
use user_token_management_ap.Runs.Machine.{transition}
use user_token_management_ap.Runs.Facts.{is_destination_stage}
use user_token_management_ap.Runs.Events.{append_event}
use user_token_management_ap.Runs.Lease.{seconds}
use user_token_management_ap.Runs.Lifecycle.{is_queued, fail_run, cancel_before_destination_work}

abbrev is_wanted : Option ℕ → ℕ → Bool
is_wanted none id = true
is_wanted (some k) id = id == k

-- the `conditions` of `claim_run`, with the owner's status
unfoldable pub claimable : ℕ → (ℕ → Bool) → Option ℕ → Run → Bool
unfolding is_worker_owned
claimable now active_user run_id run =
    (is_queued run.status && (is_none run.next_attempt_at || passed run.next_attempt_at now)
      || is_worker_owned run.status && passed run.lease_expires_at now)
    && is_wanted run_id run.id
    && active_user run.user_id

-- the assignments that put a run back into the queue
unfoldable pub requeued_row : Run → Run
unfolding stage_for_status
requeued_row run = record run {
  status = Status.queued;
  stage = stage_for_status Status.queued;
  worker_id = none;
  lease_token = none;
  lease_expires_at = none;
}

-- the assignments of a claim, before the transition
unfoldable pub leased_row : ℕ → ℕ → ℕ → ℕ → Run → Run
leased_row now worker lease_seconds token run = record run {
  worker_id = some worker;
  lease_token = some token;
  lease_expires_at = some (now + seconds lease_seconds);
  heartbeat_at = some now;
  next_attempt_at = none;
  started_at = some (or_else run.started_at now);
}

module _ (redact_text : String → String) where
  -- the end of `claim_run` for a run that is to go on: it is leased under the new token
  unfoldable pub lease_run : (ℕ → ℕ) → ℕ → ℕ → ℕ → Work → Result RunError (Work × Option ℕ)
  unfolding leased_row transition append_event
  lease_run clock worker lease_seconds token w = do
    run ←
        transition (clock 2) (leased_row (clock 0) worker lease_seconds token w.run)
          Status.validating (some token)
    w' ←
        append_event redact_text (clock 3) "Worker claimed the run." (some Stage.authenticate) info
          none (record w { run = run })
    ok (w', some token)

  -- and for one whose cancellation was asked for
  unfoldable pub drop_run : (ℕ → ℕ) → Stage → Work → Result RunError (Work × Option ℕ)
  unfolding cancel_before_destination_work
  drop_run clock cancellation_stage w = do
    w' ←
        cancel_before_destination_work redact_text (clock 2) cancellation_stage
          "Run cancelled before destination writes began." w
    ok (w', none)

  unfoldable pub take_run : (ℕ → ℕ) → ℕ → ℕ → ℕ → Stage → Work → Result RunError (Work × Option ℕ)
  unfolding drop_run lease_run
  take_run clock worker lease_seconds token cancellation_stage w =
      if is_some w.run.cancel_requested_at
      then drop_run clock cancellation_stage w
      else lease_run clock worker lease_seconds token w

  -- the branch for an expired lease after destination work began
  unfoldable pub lose_run : (ℕ → ℕ) → Work → Result RunError (Work × Option ℕ)
  unfolding fail_run
  lose_run clock w = do
    w' ←
        fail_run redact_text (λ k. clock (k + 1)) (known TransferErrorCode.worker_lost)
          "The worker lost the lease after destination writes began." false true none none none w
    ok (w', none)

  -- the branch for an expired lease before that
  unfoldable pub recover_run : (ℕ → ℕ) → ℕ → ℕ → ℕ → Work → Result RunError (Work × Option ℕ)
  unfolding requeued_row append_event take_run
  recover_run clock worker lease_seconds token w = do
    w' ←
        append_event redact_text (clock 1) "Stale worker lease recovered; run requeued."
          (some Stage.queued) info none (record w { run = requeued_row w.run })
    take_run clock worker lease_seconds token w.run.stage w'

  -- `claim_run` on the row that its query selected
  unfoldable pub claim_selected : (ℕ → ℕ) → ℕ → ℕ → ℕ → Work → Result RunError (Work × Option ℕ)
  unfolding is_worker_owned is_destination_stage lose_run recover_run take_run
  claim_selected clock worker lease_seconds token w =
      if is_worker_owned w.run.status && is_some w.run.lease_expires_at
      then (if is_destination_stage w.run.stage
          then lose_run clock w
          else recover_run clock worker lease_seconds token w)
      else take_run clock worker lease_seconds token w.run.stage w

-- `order_by(queued_at, id)`
abbrev pub comes_first : Run → Run → Bool
comes_first a b = ltb a.queued_at b.queued_at || a.queued_at == b.queued_at && leb a.id b.id

abbrev pub earlier : Work → Option Work → Work
earlier w none = w
earlier w (some v) = if comes_first w.run v.run then w else v

-- `select(...).order_by(...).limit(1)`
unfoldable pub earliest : (Run → Bool) → List Work → Option Work
earliest p [] = none
earliest p (w ∷ ws) = let rest = earliest p ws in if p w.run then some (earlier w rest) else rest

-- the table after the session's row is written back
unfoldable pub write_back : Work → List Work → List Work
write_back w [] = []
write_back w (v ∷ ws) = if v.run.id == w.run.id then w ∷ ws else v ∷ write_back w ws

abbrev pub claim_result : List Work → Work × Option ℕ → List Work × Option (ℕ × ℕ)
claim_result table (w, none) = (write_back w table, none)
claim_result table (w, some token) = (write_back w table, some (w.run.id, token))

-- `claim_run`: the table after the call, and the claimed run with its token.
unfoldable pub claim_run :
    (String → String)
    → (ℕ → ℕ)
    → (ℕ → Bool)
    → ℕ
    → ℕ
    → ℕ
    → Option ℕ
    → List Work
    → Result RunError (List Work × Option (ℕ × ℕ))
unfolding claimable earliest claim_selected write_back
claim_run redact_text clock active_user worker lease_seconds token run_id table =
    elim (earliest (claimable (clock 0) active_user run_id) table) [
      | none ↦ ok (table, none)
      | some w ↦ do
        claimed ← claim_selected redact_text clock worker lease_seconds token w
        ok (claim_result table claimed)
    ]
