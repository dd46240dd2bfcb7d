-- ===== src/Runs/Defer/Laws.antt =====
-- A deferral leaves a sound session.
use user_token_management_ap.Prelude.{
  refl, ok-injective, ℕ, String, Bool, true, false, ◌≡◌, subst, Option, none, some, is_some, ok,
  arith, inl, inr, Bool-cases, >>=-eq-ok, leb,
}
use user_token_management_ap.Runs.Status.{Status, Stage, is_terminal, is_worker_owned}
use user_token_management_ap.Runs.Row.{Run, Work, info}
use user_token_management_ap.Runs.Events.{append_event}
use user_token_management_ap.Runs.Lease.{refresh_and_require_lease}
use user_token_management_ap.Runs.Lifecycle.{cancel_before_destination_work}
use user_token_management_ap.Runs.Invariant.{
  IsSound, IsWellFormed, Ends, append_event-Ends, refresh-is_worker_owned,
}
use user_token_management_ap.Runs.Keeps.{cancel_before_destination_work-IsSound}
use user_token_management_ap.Runs.Defer.{
  ComputeAttempt, defer_run_for_databricks_compute, deferred_row, defer_until, open_deadline,
}

unowned_queued : is_worker_owned Status.queued ≡ false
unfolding is_worker_owned
unowned_queued = refl

unowned_cancelled : is_worker_owned Status.cancelled ≡ false
unfolding is_worker_owned
unowned_cancelled = refl

deferred-Ends :
    (now poll deadline : ℕ) (run : Run)
    → IsWellFormed run
    → is_worker_owned run.status ≡ true
    → Ends run (deferred_row now poll deadline run) Status.queued
unfolding deferred_row is_worker_owned is_terminal
deferred-Ends now poll deadline run s o = ground arith

-- What a deferral leaves: when it answers True the run is cancelled or queued, and when it answers
-- False its status is as before.
abbrev pub IsDeferred : Work → Work × Bool → Type 0
IsDeferred w (w', true) = IsSound w' × (is_worker_owned w'.run.status ≡ false)
IsDeferred w (w', false) = IsSound w' × (w'.run.status ≡ w.run.status)

module _ (redact_text : String → String) (clock : ℕ → ℕ) where
  defer_until-IsDeferred :
      (poll : ℕ) (w : Work) (deadline : Option ℕ) {result : Work × Bool}
      → defer_until redact_text clock poll w deadline ≡ ok result
      → is_worker_owned w.run.status ≡ true
      → IsSound w
      → IsDeferred w result
  defer_until-IsDeferred poll w none h o s = subst (IsDeferred w) (ok-injective h) (s, refl)
  defer_until-IsDeferred poll w (some deadline) h o s = elim (Bool-cases (leb deadline (clock 1))) [
    | inl late ↦ subst (IsDeferred w) (ok-injective (rw late at h)) (s, refl)
    | inr early ↦
        let (v, wrote, done) =
          >>=-eq-ok
            (append_event redact_text (clock 2)
              "Waiting for the authorized Databricks compute startup to become SQL ready."
              (some Stage.compute_startup) info none
              (record w { run = deferred_row (clock 1) poll deadline w.run }))
            (λ v. ok (v, true)) (rw early at h) in
        let (sound, at) =
          append_event-Ends redact_text (clock 2)
            "Waiting for the authorized Databricks compute startup to become SQL ready."
            (some Stage.compute_startup) info none w (deferred_row (clock 1) poll deadline w.run)
            Status.queued wrote (deferred-Ends (clock 1) poll deadline w.run s.row o) s in
        subst (IsDeferred w) (ok-injective done) (sound, unowned v.run.status at)
  ]
    where
      unowned : (status : Status) → status ≡ Status.queued → is_worker_owned status ≡ false
      unowned status e = rw e unowned_queued

  -- The deferral of a sound run leaves a sound session. If it answers True no worker owns the run any
  -- more; if it answers False the status is as before.
  pub defer-IsDeferred :
      (token poll : ℕ) (attempts : ℕ → Option ComputeAttempt) (w : Work) {result : Work × Bool}
      → defer_run_for_databricks_compute redact_text clock token poll attempts w ≡ ok result
      → IsSound w
      → IsDeferred w result
  unfolding defer_run_for_databricks_compute
  defer-IsDeferred token poll attempts w h s =
      let (_, lease, rest) = >>=-eq-ok (refresh_and_require_lease (clock 0) token w) _ h in
      elim (Bool-cases (is_some w.run.cancel_requested_at)) [
        | inl asked ↦
            let (v, did, done) =
              >>=-eq-ok
                (cancel_before_destination_work redact_text (clock 2) w.run.stage
                  "Run cancelled while waiting for Databricks compute readiness." w)
                (λ v. ok (v, true)) (rw asked at rest) in
            let (sound, at) =
              cancel_before_destination_work-IsSound redact_text (clock 2) w.run.stage
                "Run cancelled while waiting for Databricks compute readiness." w did s in
            subst (IsDeferred w) (ok-injective done) (sound, rw at unowned_cancelled)
        | inr free ↦
            defer_until-IsDeferred poll w (open_deadline (clock 1) attempts w.run) (rw free at rest)
              (refresh-is_worker_owned (clock 0) token w lease s) s
      ]
