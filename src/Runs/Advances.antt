-- ===== src/Runs/Advances.antt =====
-- The operations of Progress.antt and the heartbeat leave a sound session, in a known status.
use user_token_management_ap.Prelude.{
  refl, ok-injective, str_eq, ℕ, String, true, ◌≡◌, sym, Option, none, some, ok, arith, inl, inr,
  Bool-cases, >>=-eq-ok,
}
use user_token_management_ap.Redaction.{redact_mapping}
use user_token_management_ap.Json.{dict, Fields}
use user_token_management_ap.Runs.Status.{
  Status, Stage, is_terminal, is_worker_owned, allowed_transition,
}
use user_token_management_ap.Runs.Row.{Run, Work, info, warning}
use user_token_management_ap.Runs.Machine
use user_token_management_ap.Runs.Machine.{set_status}
use user_token_management_ap.Runs.Events.{append_and_record}
use user_token_management_ap.Runs.Lease.{heartbeat, refresh_and_require_lease}
use user_token_management_ap.Runs.Progress
use user_token_management_ap.Runs.Progress.{
  review_message, review_level, summary_message, blocked_facts, blocked_marks, append_if_given,
  add_counters, block_run, record_guardrail_review, complete_run, block_compute_readiness,
}
use user_token_management_ap.Runs.Invariant.{
  refresh-is_worker_owned, Ends-IsSound, IsSound, IsWellFormed, append_event-Ends,
  append_and_record-Ends, Ends,
}
use user_token_management_ap.Runs.Endings.{completed_row-Ends, compute_blocked_row-Ends}

module _ (redact_text : String → String) where
  pub complete_run-IsSound :
      (clock : ℕ → ℕ) (token : ℕ) (source destination verification guardrail : Option Fields)
      (w : Work) {w' : Work}
      → complete_run redact_text clock token source destination verification guardrail w ≡ ok w'
      → IsSound w
      → IsSound w' × (w'.run.status ≡ Status.succeeded)
  unfolding complete_run
  complete_run-IsSound clock token source destination verification guardrail w h s =
      let (_, _, wrote) = >>=-eq-ok (refresh_and_require_lease (clock 0) token w) _ h in
      append_and_record-Ends redact_text (clock 2) "Transfer succeeded." (some Stage.verify) info
        "pipeline.run.completed" "success" w _ Status.succeeded wrote
        (completed_row-Ends redact_text (clock 1) token source destination verification guardrail
          w.run)
        s

  pub block_compute_readiness-IsSound :
      (clock : ℕ → ℕ) (token : ℕ) (summary : String) (w : Work) {w' : Work}
      → block_compute_readiness redact_text clock token summary w ≡ ok w'
      → IsSound w
      → IsSound w' × (w'.run.status ≡ Status.blocked)
  unfolding block_compute_readiness
  block_compute_readiness-IsSound clock token summary w h s =
      let (_, _, wrote) = >>=-eq-ok (refresh_and_require_lease (clock 0) token w) _ h in
      append_event-Ends redact_text (clock 2) _ (some Stage.compute_startup) warning none w _
        Status.blocked wrote (compute_blocked_row-Ends redact_text (clock 1) summary token w.run) s

  -- A row transition of an owned run keeps the row well formed.
  transition-Ends :
      (now : ℕ) (run : Run) (status : Status) (token : ℕ) {r : Run}
      → Machine.transition now run status (some token) ≡ ok r
      → is_worker_owned run.status ≡ true
      → IsWellFormed run
      → Ends run r status
  unfolding Machine.transition set_status allowed_transition is_terminal is_worker_owned
  transition-Ends now run status token h owned s = ground arith

  transition-allowed :
      (now : ℕ) (run : Run) (status : Status) (token : ℕ) {r : Run}
      → Machine.transition now run status (some token) ≡ ok r
      → allowed_transition run.status status ≡ true
  unfolding Machine.transition
  transition-allowed now run status token h = ground arith

  -- A `transition` of a sound run that a worker commits is an allowed one, and leaves a sound session
  -- in the new status.
  pub transition-IsSound :
      (clock : ℕ → ℕ) (status : Status) (token : ℕ) (message : Option String) (w : Work) {w' : Work}
      → Progress.transition redact_text clock status token message w ≡ ok w'
      → IsSound w
      → IsSound w' × (allowed_transition w.run.status status ≡ true) × (w'.run.status ≡ status)
  unfolding Progress.transition
  transition-IsSound clock status token message w {w'} h s =
      let (_, lease, moved) = >>=-eq-ok (refresh_and_require_lease (clock 0) token w) _ h in
      let (run, change, wrote) =
        >>=-eq-ok (Machine.transition (clock 1) w.run status (some token))
          (λ run. append_if_given redact_text (clock 2) message (record w { run = run })) moved in
      finish message run wrote
        (transition-Ends (clock 1) w.run status token change
          (refresh-is_worker_owned (clock 0) token w lease s) s.row)
        (transition-allowed (clock 1) w.run status token change)
    where
      finish :
          (message : Option String) (run : Run)
          → append_if_given redact_text (clock 2) message (record w { run = run }) ≡ ok w'
          → Ends w.run run status
          → allowed_transition w.run.status status ≡ true
          → IsSound w' × (allowed_transition w.run.status status ≡ true) × (w'.run.status ≡ status)
      finish none run wrote e a =
          let (sound, at) = Ends-IsSound w run status (cc wrote) e s in (sound, a, at)
      finish (some text) run wrote e a = elim (Bool-cases (str_eq text "")) [
        | inl empty ↦
            let (sound, at) = Ends-IsSound w run status (cc (rw empty at wrote)) e s in
            (sound, a, at)
        | inr given ↦
            let (sound, at) =
              append_event-Ends redact_text (clock 2) text (some run.stage) info none w run status
                (rw given at wrote) e s in
            (sound, a, at)
      ]

  blocked-Ends :
      (now : ℕ) (summary : String) (guardrail : Fields) (token : ℕ) (run r : Run)
      → Machine.transition now
          (blocked_marks redact_text summary guardrail run)
          Status.blocked
          (some token)
        ≡ ok r
      → Ends run (blocked_facts redact_text r) Status.blocked
  unfolding Machine.transition set_status allowed_transition is_terminal is_worker_owned
  blocked-Ends now summary guardrail token run r h = ground arith

  pub block_run-IsSound :
      (clock : ℕ → ℕ) (token : ℕ) (summary : String) (guardrail : Fields) (w : Work) {w' : Work}
      → block_run redact_text clock token summary guardrail w ≡ ok w'
      → IsSound w
      → IsSound w' × (w'.run.status ≡ Status.blocked)
  unfolding block_run
  block_run-IsSound clock token summary guardrail w h s =
      let (_, lease, moved) = >>=-eq-ok (refresh_and_require_lease (clock 0) token w) _ h in
      let (run, change, wrote) =
        >>=-eq-ok
          (Machine.transition (clock 1) (blocked_marks redact_text summary guardrail w.run)
            Status.blocked (some token))
          (λ run.
            append_and_record redact_text (clock 2) (summary_message redact_text summary)
              (some Stage.guardrails) warning "pipeline.run.blocked" "blocked"
              (record w { run = blocked_facts redact_text run }))
          moved in
      append_and_record-Ends redact_text (clock 2) (summary_message redact_text summary)
        (some Stage.guardrails) warning "pipeline.run.blocked" "blocked" w
        (blocked_facts redact_text run) Status.blocked wrote
        (blocked-Ends (clock 1) summary guardrail token w.run run change) s

  pub record_guardrail_review-IsSound :
      (clock : ℕ → ℕ) (token : ℕ) (guardrail : Fields) (w : Work) {w' : Work}
      → record_guardrail_review redact_text clock token guardrail w ≡ ok w'
      → IsSound w
      → IsSound w' × (w'.run.status ≡ w.run.status)
  unfolding record_guardrail_review
  record_guardrail_review-IsSound clock token guardrail w h s =
      let (_, lease, wrote) = >>=-eq-ok (refresh_and_require_lease (clock 0) token w) _ h in
      append_event-Ends redact_text (clock 1)
        (review_message (redact_mapping redact_text guardrail)) (some Stage.guardrails)
        (review_level (redact_mapping redact_text guardrail)) none w
        (record w.run { guardrail = some (dict (redact_mapping redact_text guardrail)) })
        w.run.status wrote (record { row = ground arith; status_is = refl; counter = refl }) s

pub add_counters-IsSound :
    (clock : ℕ → ℕ) (token : ℕ) (source_rows : Option ℕ) (source_bytes : ℕ) (loaded_rows : Option ℕ)
    (loaded_bytes : ℕ) (w : Work) {w' : Work}
    → add_counters clock token source_rows source_bytes loaded_rows loaded_bytes w ≡ ok w'
    → IsSound w
    → IsSound w' × (w'.run.status ≡ w.run.status)
unfolding add_counters
add_counters-IsSound clock token source_rows source_bytes loaded_rows loaded_bytes w h s =
    let (_, lease, done) = >>=-eq-ok (refresh_and_require_lease (clock 0) token w) _ h in
    Ends-IsSound w _ w.run.status (sym (ok-injective done))
      (record { row = ground arith; status_is = refl; counter = refl }) s

pub heartbeat-IsSound :
    (clock : ℕ → ℕ) (token lease_seconds : ℕ) (w : Work) {w' : Work}
    → heartbeat clock token lease_seconds w ≡ ok w'
    → IsSound w
    → IsSound w' × (w'.run.status ≡ w.run.status)
unfolding heartbeat
heartbeat-IsSound clock token lease_seconds w h s =
    let (_, lease, done) = >>=-eq-ok (refresh_and_require_lease (clock 0) token w) _ h in
    let owned = refresh-is_worker_owned (clock 0) token w lease s in
    Ends-IsSound w _ w.run.status (sym (ok-injective done))
      (record { row = ground arith; status_is = refl; counter = refl }) s
