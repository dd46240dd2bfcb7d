-- ===== src/Runs/Reviewed.antt =====
-- What `record_reconciliation_review` of app/services/pipeline_runs.py leaves of a run.
use user_token_management_ap.Prelude.{
  ℕ, String, true, ◌≡◌, refl, List, [], ◌∷◌, ◌++◌, ok, some, none, arith, inl, inr, ap, sym, ◌∙◌,
  subst, Bool-cases, >>=-eq-ok,
}
use user_token_management_ap.Json.{load, fields_of, put, text, dict}
use user_token_management_ap.Redaction.{redact_mapping}
use user_token_management_ap.Runs.Status.{Stage}
use user_token_management_ap.Runs.Row.{Run, RunEvent, Work, info}
use user_token_management_ap.Runs.Review.{run_requires_reconciliation_review}
use user_token_management_ap.Runs.Events.{logged, next_sequence}
use user_token_management_ap.Runs.Lease.{owned_run}
use user_token_management_ap.Runs.Lifecycle.{record_reconciliation_review}
use user_token_management_ap.Runs.Invariant.{IsSound, append_event_lem, logged-IsSound}

-- the new row with the columns of the old one that a review writes
abbrev pub restored : Run → Run → Run
restored old new = record new {
  reconciliation_reviewed_at = old.reconciliation_reviewed_at;
  verification = old.verification;
  next_event_sequence = old.next_event_sequence;
}

-- All that the second session changes of the first is the review's stamp, the verification document and
-- the event counter; it may have further events, after those of the first.
pub record IsKept (w w' : Work) : Type 0 where
  pub row : restored w.run w'.run ≡ w.run
  pub stored : w'.stored ≡ w.stored
  pub audits : w'.audits ≡ w.audits
  pub events : (more : List RunEvent) × (w'.events ≡ w.events ++ more)

append_nil : {A : Type 0} (xs : List A) → xs ≡ xs ++ []
append_nil [] = refl
append_nil (x ∷ xs) = ap (λ ys. x ∷ ys) (append_nil xs)

append_assoc : {A : Type 0} (xs ys zs : List A) → (xs ++ ys) ++ zs ≡ xs ++ (ys ++ zs)
append_assoc [] ys zs = refl
append_assoc (x ∷ xs) ys zs = ap (λ us. x ∷ us) (append_assoc xs ys zs)

pub IsKept-refl : (w : Work) → IsKept w w
IsKept-refl w = record {
  row = refl;
  stored = refl;
  audits = refl;
  events = ([], append_nil w.events);
}

pub IsKept-trans : {u v w : Work} → IsKept u v → IsKept v w → IsKept u w
IsKept-trans {u} {v} {w} a b =
    let (more, first) = a.events in
    let (rest, second) = b.events in
    record {
      row = ap (restored u.run) b.row ∙ a.row;
      stored = b.stored ∙ a.stored;
      audits = b.audits ∙ a.audits;
      events =
          (more ++ rest, second ∙ ap (λ es. es ++ rest) first ∙ append_assoc u.events more rest);
    }

module _ (redact_text : String → String) (stamp : ℕ → String) (clock : ℕ → ℕ) where
  -- the session in which a review appends its event
  abbrev reviewed : Work → Work
  reviewed w = record w {
    run = record w.run {
      reconciliation_reviewed_at = some (clock 0);
      verification = some (
          dict (
            redact_mapping redact_text (
              put "reconciliation_reviewed_at" (text (stamp (clock 0)))
                (fields_of (load w.run.verification)))));
    };
  }

  pub record_reconciliation_review_lem :
      (user : ℕ) (w : Work) {w' : Work}
      → record_reconciliation_review redact_text stamp clock user w ≡ ok w'
      → (run_requires_reconciliation_review w.run ≡ true)
        × (w'
            ≡ logged redact_text
                (clock 1)
                "Operator recorded reconciliation review."
                (some Stage.reconcile)
                info
                none
                (reviewed w))
  unfolding record_reconciliation_review
  record_reconciliation_review_lem user w h =
      let (_, _, required) = >>=-eq-ok (owned_run user w) _ h in
      elim (Bool-cases (run_requires_reconciliation_review w.run)) [
        | inl needed ↦ (
          needed,
          append_event_lem redact_text (clock 1) "Operator recorded reconciliation review."
              (some Stage.reconcile) info none (reviewed w) (rw needed at required),
        )
        | inr no_need ↦ cc (rw no_need at required)
      ]

  reviewed-IsSound : (w : Work) → IsSound w → IsSound (reviewed w)
  reviewed-IsSound w s = record { row = ground arith; log = s.log }

  pub record_reconciliation_review-IsSound :
      (user : ℕ) (w : Work) {w' : Work}
      → record_reconciliation_review redact_text stamp clock user w ≡ ok w'
      → IsSound w
      → IsSound w'
  record_reconciliation_review-IsSound user w h s =
      subst IsSound (sym (record_reconciliation_review_lem user w h).1) (
        logged-IsSound redact_text (clock 1) "Operator recorded reconciliation review."
          (some Stage.reconcile) info none (reviewed w) (reviewed-IsSound w s))

  pub record_reconciliation_review-IsKept :
      (user : ℕ) (w : Work) {w' : Work}
      → record_reconciliation_review redact_text stamp clock user w ≡ ok w'
      → IsKept w w'
  unfolding logged next_sequence
  record_reconciliation_review-IsKept user w h =
      subst (IsKept w) (sym (record_reconciliation_review_lem user w h).1)
        (record { row = refl; stored = refl; audits = refl; events = (_, refl) })
