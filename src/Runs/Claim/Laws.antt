-- ===== src/Runs/Claim/Laws.antt =====
-- A claim leases exactly one run that no worker holds, or ends it.
use user_token_management_ap.Prelude.{
  refl, ok-injective, ℕ, ◌+◌, String, Bool, true, false, ◌≡◌, subst, ◌∙◌, ap, Option, none, some,
  is_some, ok, arith, inl, inr, Bool-cases, >>=-eq-ok, passed, ◌⊎◌,
}
use user_token_management_ap.Runs.Status.{
  Status, Stage, is_terminal, is_worker_owned, allowed_transition,
}
use user_token_management_ap.Runs.Codes.{TransferErrorCode, known}
use user_token_management_ap.Runs.Row.{Run, Work, info}
use user_token_management_ap.Runs.Machine.{transition, set_status}
use user_token_management_ap.Runs.Facts.{is_destination_stage}
use user_token_management_ap.Runs.Events.{append_event}
use user_token_management_ap.Runs.Lease.{seconds}
use user_token_management_ap.Runs.Lifecycle.{
  cancel_before_destination_work, fail_run, effective_reconciliation, failed_status,
}
use user_token_management_ap.Runs.Invariant.{
  IsSound, IsWellFormed, Ends, append_event-Ends, append_event_lem,
}
use user_token_management_ap.Runs.Keeps.{cancel_before_destination_work-IsSound, fail_run-IsSound}
use user_token_management_ap.Runs.Claim.{
  lose_run, drop_run, recover_run, lease_run, claimable, requeued_row, leased_row, take_run,
  claim_selected,
}

-- A run that a claim can select is queued, or its worker's lease is past.
pub claimable_lem :
    (now : ℕ) (active_user : ℕ → Bool) (run_id : Option ℕ) (run : Run)
    → claimable now active_user run_id run ≡ true
    → (run.status ≡ Status.queued)
      ⊎ (is_worker_owned run.status ≡ true) × (passed run.lease_expires_at now ≡ true)
unfolding claimable is_worker_owned
claimable_lem now active_user run_id run h = ground arith

-- What a claim leaves: the lease of the new token on a validating run, or a run that has ended.
abbrev pub IsClaimed : ℕ → ℕ → ℕ → Work → Option ℕ → Type 0
IsClaimed now lease_seconds token w none = is_terminal w.run.status ≡ true
IsClaimed now lease_seconds token w (some k) =
    (k ≡ token)
    × (w.run.status ≡ Status.validating)
    × (w.run.lease_token ≡ some token)
    × (w.run.lease_expires_at ≡ some (now + seconds lease_seconds))

leased-Ends :
    (now later worker lease_seconds token : ℕ) (run : Run) {r : Run}
    → run.status ≡ Status.queued
    → IsWellFormed run
    → transition later
        (leased_row now worker lease_seconds token run)
        Status.validating
        (some token)
      ≡ ok r
    → Ends run r Status.validating
      × (r.lease_token ≡ some token)
      × (r.lease_expires_at ≡ some (now + seconds lease_seconds))
unfolding transition set_status leased_row allowed_transition is_terminal is_worker_owned
leased-Ends now later worker lease_seconds token run q s h = ground arith

failed_status-is_terminal : (needs : Bool) → is_terminal (failed_status needs) ≡ true
unfolding failed_status is_terminal
failed_status-is_terminal true = refl
failed_status-is_terminal false = refl

past_lease :
    (run : Run) (now : ℕ)
    → passed run.lease_expires_at now ≡ true
    → is_some run.lease_expires_at ≡ true
past_lease run now h = ground arith

owned_going : (status : Status) → is_worker_owned status ≡ true → is_terminal status ≡ false
unfolding is_worker_owned is_terminal
owned_going status h = ground arith

queued_unowned : (status : Status) → status ≡ Status.queued → is_worker_owned status ≡ false
unfolding is_worker_owned
queued_unowned status h = ground arith

requeued-Ends :
    (run : Run)
    → IsWellFormed run
    → is_terminal run.status ≡ false
    → Ends run (requeued_row run) Status.queued
unfolding requeued_row is_terminal is_worker_owned
requeued-Ends run s h = ground arith

module _ (redact_text : String → String) (clock : ℕ → ℕ) (worker lease_seconds token : ℕ) where
  abbrev Claims : Work × Option ℕ → Type 0
  Claims (w, t) = IsSound w × IsClaimed (clock 0) lease_seconds token w t

  lease_run-IsSound :
      (w : Work) {claim : Work × Option ℕ}
      → lease_run redact_text clock worker lease_seconds token w ≡ ok claim
      → w.run.status ≡ Status.queued
      → IsSound w
      → Claims claim
  unfolding lease_run
  lease_run-IsSound w h q s =
      let (r, moved, rest) =
        >>=-eq-ok
          (transition (clock 2) (leased_row (clock 0) worker lease_seconds token w.run)
            Status.validating (some token))
          _ h in
      let (v, wrote, done) =
        >>=-eq-ok
          (append_event redact_text (clock 3) "Worker claimed the run." (some Stage.authenticate)
            info none (record w { run = r }))
          _ rest in
      let (e, held, until) =
        leased-Ends (clock 0) (clock 2) worker lease_seconds token w.run q s.row moved in
      let (sound, at) =
        append_event-Ends redact_text (clock 3) "Worker claimed the run." (some Stage.authenticate)
          info none w r Status.validating wrote e s in
      let same =
        append_event_lem redact_text (clock 3) "Worker claimed the run." (some Stage.authenticate)
          info none (record w { run = r }) wrote in
      subst Claims (ok-injective done) (
        sound,
        (
          refl,
          at,
          ap (λ x. x.run.lease_token) same ∙ held,
          ap (λ x. x.run.lease_expires_at) same ∙ until,
        ),
      )

  drop_run-IsSound :
      (stage : Stage) (w : Work) {claim : Work × Option ℕ}
      → drop_run redact_text clock stage w ≡ ok claim
      → IsSound w
      → Claims claim
  unfolding drop_run is_terminal
  drop_run-IsSound stage w h s =
      let (v, did, done) =
        >>=-eq-ok
          (cancel_before_destination_work redact_text (clock 2) stage
            "Run cancelled before destination writes began." w)
          _ h in
      let (sound, at) =
        cancel_before_destination_work-IsSound redact_text (clock 2) stage
          "Run cancelled before destination writes began." w did s in
      subst Claims (ok-injective done) (sound, rw at refl)

  take_run-IsSound :
      (stage : Stage) (w : Work) {claim : Work × Option ℕ}
      → take_run redact_text clock worker lease_seconds token stage w ≡ ok claim
      → w.run.status ≡ Status.queued
      → IsSound w
      → Claims claim
  unfolding take_run
  take_run-IsSound stage w h q s = elim (Bool-cases (is_some w.run.cancel_requested_at)) [
    | inl asked ↦ drop_run-IsSound stage w (rw asked at h) s
    | inr free ↦ lease_run-IsSound w (rw free at h) q s
  ]

  lose_run-IsSound :
      (w : Work) {claim : Work × Option ℕ}
      → lose_run redact_text clock w ≡ ok claim
      → IsSound w
      → Claims claim
  unfolding lose_run
  lose_run-IsSound w h s =
      let (v, did, done) =
        >>=-eq-ok
          (fail_run redact_text (λ k. clock (k + 1)) (known TransferErrorCode.worker_lost)
            "The worker lost the lease after destination writes began." false true none none none w)
          _ h in
      let (sound, at) =
        fail_run-IsSound redact_text (λ k. clock (k + 1)) (known TransferErrorCode.worker_lost)
          "The worker lost the lease after destination writes began." false true none none none w
          did s in
      subst Claims (ok-injective done) (
        sound,
        rw at (
            failed_status-is_terminal
              (effective_reconciliation w.run (known TransferErrorCode.worker_lost) true none)),
      )

  recover_run-IsSound :
      (w : Work) {claim : Work × Option ℕ}
      → recover_run redact_text clock worker lease_seconds token w ≡ ok claim
      → is_terminal w.run.status ≡ false
      → IsSound w
      → Claims claim
  unfolding recover_run
  recover_run-IsSound w h going s =
      let (v, wrote, rest) =
        >>=-eq-ok
          (append_event redact_text (clock 1) "Stale worker lease recovered; run requeued."
            (some Stage.queued) info none (record w { run = requeued_row w.run }))
          _ h in
      let (sound, at) =
        append_event-Ends redact_text (clock 1) "Stale worker lease recovered; run requeued."
          (some Stage.queued) info none w (requeued_row w.run) Status.queued wrote
          (requeued-Ends w.run s.row going) s in
      take_run-IsSound w.run.stage v rest at sound

  claim_selected-Claims :
      (active_user : ℕ → Bool) (run_id : Option ℕ) (w : Work) {claim : Work × Option ℕ}
      → claimable (clock 0) active_user run_id w.run ≡ true
      → IsSound w
      → claim_selected redact_text clock worker lease_seconds token w ≡ ok claim
      → Claims claim
  unfolding claim_selected
  claim_selected-Claims active_user run_id w c s h =
      elim (claimable_lem (clock 0) active_user run_id w.run c) [
        | inl waiting ↦
            take_run-IsSound w.run.stage w (rw (queued_unowned w.run.status waiting) at h) waiting s
        | inr (owned, late) ↦ elim (Bool-cases (is_destination_stage w.run.stage)) [
          | inl writing ↦
              lose_run-IsSound w (rw (owned, past_lease w.run (clock 0) late, writing) at h) s
          | inr reading ↦
              recover_run-IsSound w (rw (owned, past_lease w.run (clock 0) late, reading) at h)
                (owned_going w.run.status owned) s
        ]
      ]

  -- A claim of a sound run that it can select leaves a sound session. If it gives a token, that is the
  -- new one, and the run is validating under it, with a lease that lasts from the first reading of
  -- the clock; if it gives none, the run has ended.
  pub claim_selected-IsSound :
      (active_user : ℕ → Bool) (run_id : Option ℕ) (w : Work) {w' : Work} {t : Option ℕ}
      → claimable (clock 0) active_user run_id w.run ≡ true
      → IsSound w
      → claim_selected redact_text clock worker lease_seconds token w ≡ ok (w', t)
      → IsSound w' × IsClaimed (clock 0) lease_seconds token w' t
  claim_selected-IsSound active_user run_id w c s h =
      claim_selected-Claims active_user run_id w c s h
