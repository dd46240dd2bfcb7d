-- ===== src/Publications/Honest.antt =====
-- What a recovery can say of a publication that was submitted: it was done, or it is not known.
use user_token_management_ap.Prelude.{
  ℕ, String, Bool, true, false, ◌≡◌, refl, Option, some, is_some, List, [], ◌∷◌, any, Result, ok,
  err, ◌==◌, holds, if◌then◌else◌, arith, ap, ◌∙◌, inl, inr, ◌⊎◌, Result-cases, Option-cases,
  Bool-cases,
}
use user_token_management_ap.Identity.{find}
use user_token_management_ap.Sessions.Alive.{find-passes}
use user_token_management_ap.Sessions.Rows.{find-map-kept}
use user_token_management_ap.Publications.{
  PublicationState, preparing, staging, publishing, committed, uncertain, cleanup_pending,
  cleanup_required, complete, unchanged, DatabricksPublication,
}
use user_token_management_ap.Publications.Recovery.{clean, reconcile, operate, recover}
use user_token_management_ap.Publications.Takeover.{
  connector_error, other_error, is_submitted_state, is_owned, on_owned, defer_recovery, confirm,
  finish, unavailable_state, CallError, Answers, handle_error, same_generation, failed_state,
}

abbrev pub is_unchanged_state : PublicationState → Bool
is_unchanged_state preparing = false
is_unchanged_state staging = false
is_unchanged_state publishing = false
is_unchanged_state committed = false
is_unchanged_state uncertain = false
is_unchanged_state cleanup_pending = false
is_unchanged_state cleanup_required = false
is_unchanged_state complete = false
is_unchanged_state unchanged = true

-- The run's record is this one, and the recovery with this token holds it.
unfoldable pub IsHeld : ℕ → ℕ → DatabricksPublication → List DatabricksPublication → Type 0
IsHeld run_id token p table =
    (find (λ q. q.run_id == run_id) table ≡ some p) × (holds p.recovery_token token ≡ true)

-- The run's record is not called unchanged. Either the connector found the commit and the record has it
-- confirmed, or the record still has this target and is confirmed no more than it was.
unfoldable pub IsHonest :
    ℕ → Result CallError Bool → Option String → Option ℕ → List DatabricksPublication → Type 0
IsHonest run_id found key confirmed table =
    (q : DatabricksPublication) × (find (λ r. r.run_id == run_id) table ≡ some q)
    × (is_unchanged_state q.state ≡ false)
    × (((found ≡ ok true) × (is_some q.confirmed_at ≡ true))
        ⊎ ((q.active_target_key ≡ key) × (q.confirmed_at ≡ confirmed)))

pub on_owned-find :
    (run_id token : ℕ) (f : DatabricksPublication → DatabricksPublication)
    (p : DatabricksPublication) (table : List DatabricksPublication)
    → ((q : DatabricksPublication) → (f q).run_id ≡ q.run_id)
    → IsHeld run_id token p table
    → find (λ q. q.run_id == run_id) (on_owned run_id token f table) ≡ some (f p)
unfolding on_owned IsHeld
on_owned-find run_id token f p table keep (found, held) =
    let mine = find-passes (λ (q : DatabricksPublication). q.run_id == run_id) table found in
    let owned : is_owned run_id token p ≡ true = ground (arith, mine, held) in
    find-map-kept (λ (q : DatabricksPublication). q.run_id == run_id)
      (λ q. if is_owned run_id token q then f q else q) table (λ q. ground (arith, keep q)) found
    ∙ ap (λ b. some (if b then f p else p)) owned

-- A write on the held record that keeps the target and the confirmation is honest.
held-IsHonest :
    (answer : Result CallError Bool) (run_id token : ℕ)
    (f : DatabricksPublication → DatabricksPublication) (p : DatabricksPublication)
    (table : List DatabricksPublication)
    → ((q : DatabricksPublication) → (f q).run_id ≡ q.run_id)
    → is_unchanged_state (f p).state ≡ false
    → ((f p).active_target_key ≡ p.active_target_key) × ((f p).confirmed_at ≡ p.confirmed_at)
    → IsHeld run_id token p table
    → IsHonest run_id answer p.active_target_key p.confirmed_at (on_owned run_id token f table)
unfolding IsHonest
held-IsHonest answer run_id token f p table keep named same held =
    (f p, on_owned-find run_id token f p table keep held, named, inr same)

pub held-any :
    (run_id token : ℕ) (p : DatabricksPublication) (table : List DatabricksPublication)
    → IsHeld run_id token p table
    → any (is_owned run_id token) table ≡ true
unfolding IsHeld find
held-any run_id token p [] held = cc (held.0)
held-any run_id token p (x ∷ xs) (found, held) = ground (arith, held-any run_id token p xs)

handle_error-run :
    (now : ℕ) (state : PublicationState) (e : CallError) (p : DatabricksPublication)
    → ((handle_error now state e p).run_id ≡ p.run_id)
      × ((handle_error now state e p).state ≡ failed_state state)
      × ((handle_error now state e p).confirmed_at ≡ p.confirmed_at)
      × ((handle_error now state e p).active_target_key ≡ p.active_target_key)
unfolding handle_error defer_recovery
handle_error-run now state (connector_error failure) p = (refl, refl, refl, refl)
handle_error-run now state other_error p = (refl, refl, refl, refl)

failed-named : (state : PublicationState) → is_unchanged_state (failed_state state) ≡ false
failed-named state = ground arith

handled-IsHonest :
    (answer : Result CallError Bool) (now run_id token : ℕ) (state : PublicationState)
    (e : CallError) (p : DatabricksPublication) (table : List DatabricksPublication)
    → IsHeld run_id token p table
    → IsHonest run_id answer p.active_target_key p.confirmed_at
        (on_owned run_id token (handle_error now state e) table)
handled-IsHonest answer now run_id token state e p table held =
    held-IsHonest answer run_id token (handle_error now state e) p table
      (λ q. (handle_error-run now state e q).0)
      (ap is_unchanged_state (handle_error-run now state e p).1 ∙ failed-named state)
      ((handle_error-run now state e p).3, (handle_error-run now state e p).2) held

pub confirm-IsHeld :
    (now submission_id run_id token : ℕ) (p : DatabricksPublication)
    (table : List DatabricksPublication)
    → IsHeld run_id token p table
    → IsHeld run_id token
        (confirm now submission_id p)
        (on_owned run_id token (confirm now submission_id) table)
unfolding confirm IsHeld
confirm-IsHeld now submission_id run_id token p table held =
    (on_owned-find run_id token (confirm now submission_id) p table (λ q. refl) held, held.1)

-- the recovery alone, while no other session writes
abbrev pub quiet : ℕ → List DatabricksPublication → List DatabricksPublication
quiet k table = table

submitted-named :
    (state : PublicationState) → is_submitted_state state ≡ true → is_unchanged_state state ≡ false
submitted-named state h = ground arith

unavailable-named : (p : DatabricksPublication) → is_unchanged_state (unavailable_state p) ≡ false
unavailable-named p = ground arith

module _ (clock : ℕ → ℕ) (run_id token : ℕ) where
  -- The cleanup after a confirmed commit.
  clean-IsHonest :
      (submission_id : ℕ) (cleaned : Result CallError (Unit {0})) (key : Option String)
      (confirmed : Option ℕ) (p : DatabricksPublication) (table : List DatabricksPublication)
      → IsHeld run_id token (confirm (clock 3) submission_id p) table
      → IsHonest run_id
          (ok true)
          key
          confirmed
          (clean quiet clock run_id token cleanup_pending cleaned table)
  unfolding clean confirm finish IsHonest
  clean-IsHonest submission_id (err e) key confirmed p table held =
      let q = confirm (clock 3) submission_id p in
      let (run, state, done, _) = handle_error-run (clock 4) cleanup_pending e q in
      (
        handle_error (clock 4) cleanup_pending e q,
        on_owned-find run_id token (handle_error (clock 4) cleanup_pending e) q table
            (λ r. (handle_error-run (clock 4) cleanup_pending e r).0) held,
        ap is_unchanged_state state,
        inl (refl, ap is_some done),
      )
  clean-IsHonest submission_id (ok u) key confirmed p table held =
      let q = confirm (clock 3) submission_id p in
      (
        finish (clock 4) q,
        on_owned-find run_id token (finish (clock 4)) q table (λ r. refl) held,
        refl,
        inl (refl, refl),
      )

  reconcile-IsHonest :
      (state : PublicationState) (submission_id : ℕ) (found : Result CallError Bool)
      (cleaned : Result CallError (Unit {0})) (p : DatabricksPublication)
      (table : List DatabricksPublication)
      → IsHeld run_id token p table
      → IsHonest run_id found p.active_target_key p.confirmed_at
          (reconcile quiet clock run_id token state submission_id found cleaned table)
  unfolding reconcile defer_recovery
  reconcile-IsHonest state submission_id (err e) cleaned p table held =
      handled-IsHonest (err e) (clock 3) run_id token state e p table held
  reconcile-IsHonest state submission_id (ok false) cleaned p table held =
      held-IsHonest (ok false) run_id token _ p table (λ q. refl) refl (refl, refl) held
  reconcile-IsHonest state submission_id (ok true) cleaned p table held =
      rw (held-any run_id token p table held) (
        clean-IsHonest submission_id cleaned p.active_target_key p.confirmed_at p
          (on_owned run_id token (confirm (clock 3) submission_id) table)
          (confirm-IsHeld (clock 3) submission_id run_id token p table held))

  operate-IsHonest :
      (answers : Answers) (p : DatabricksPublication) (table : List DatabricksPublication)
      → is_submitted_state p.state ≡ true
      → IsHeld run_id token p table
      → IsHonest run_id answers.reconciled p.active_target_key p.confirmed_at
          (operate quiet clock run_id token p.state p.submission_id answers table)
  unfolding operate
  operate-IsHonest answers p table submitted held = elim (Result-cases answers.opening) [
    | inl (u, opened) ↦
        rw (operate, opened, submitted)
          (reconcile-IsHonest p.state p.submission_id answers.reconciled answers.cleaned p table
            held)
    | inr (e, failed) ↦
        rw (operate, failed)
          (handled-IsHonest answers.reconciled (clock 3) run_id token p.state e p table held)
  ]

  -- A recovery of a publication that was submitted and is not confirmed, whatever the credentials and
  -- the connector answer: its record is never called unchanged. Either the connector has found the
  -- commit and the record has it confirmed, or the record keeps its target and its confirmation is as
  -- before. The recovery holds the record, and no other session writes meanwhile.
  pub recover-IsHonest :
      (answers : Answers) (p : DatabricksPublication) (table : List DatabricksPublication)
      → is_submitted_state p.state ≡ true
      → IsHeld run_id token p table
      → IsHonest run_id answers.reconciled p.active_target_key p.confirmed_at
          (recover quiet clock run_id token answers p table)
  unfolding recover defer_recovery
  recover-IsHonest answers p table submitted held = elim (Bool-cases answers.owner_active) [
    | inr gone ↦
        rw (recover, gone)
          (held-IsHonest answers.reconciled run_id token _ p table (λ q. refl)
            (submitted-named p.state submitted) (refl, refl) held)
    | inl there ↦ elim (Option-cases answers.generation) [
      | inl locked ↦
          rw (recover, there, locked)
            (held-IsHonest answers.reconciled run_id token _ p table (λ q. refl)
              (unavailable-named p) (refl, refl) held)
      | inr (generation, known) ↦
          elim (Bool-cases (same_generation generation p.connection_generation)) [
            | inl same ↦
                rw (recover, there, known, same) (operate-IsHonest answers p table submitted held)
            | inr stale ↦
                rw (recover, there, known, stale)
                  (held-IsHonest answers.reconciled run_id token _ p table (λ q. refl)
                    (unavailable-named p) (refl, refl) held)
          ]
    ]
  ]
