-- ===== src/Publications/Ends.antt =====
-- How a recovery ends that was confirmed, or that another recovery has taken over.
use user_token_management_ap.Prelude.{
  ℕ, String, Bool, true, false, ◌≡◌, refl, Option, none, some, List, [], ◌∷◌, any, Result, ok, err,
  ◌==◌, arith, inl, inr, ◌⊎◌, Result-cases, Bool-cases,
}
use user_token_management_ap.Identity.{find}
use user_token_management_ap.Runs.Status.{Status}
use user_token_management_ap.Publications.{
  cleanup_required, PublicationState, complete, DatabricksPublication,
}
use user_token_management_ap.Publications.Recovery.{clean, reconcile, operate, recover}
use user_token_management_ap.Publications.Takeover.{
  defer_recovery, unavailable_state, is_recoverable, is_submitted_state, is_owned, on_owned,
  confirm, finish, CallError, Answers, same_generation,
}
use user_token_management_ap.Publications.Honest.{
  IsHeld, quiet, on_owned-find, held-any, confirm-IsHeld,
}

lost-on_owned :
    (run_id token : ℕ) (f : DatabricksPublication → DatabricksPublication)
    (table : List DatabricksPublication)
    → any (is_owned run_id token) table ≡ false
    → on_owned run_id token f table ≡ table
unfolding on_owned
lost-on_owned run_id token f [] lost = refl
lost-on_owned run_id token f (p ∷ ps) lost = ground (arith, lost-on_owned run_id token f ps)

module _ (clock : ℕ → ℕ) (run_id token : ℕ) where
  -- A recovery of a submitted publication by an active owner, over the connection of the write, whose
  -- commit is found and whose staging is cleaned, completes the record: the commit is confirmed, the
  -- target and the recovery are given free. The recovery holds the record, and no other session writes.
  pub recover-completes :
      (answers : Answers) (p : DatabricksPublication) (table : List DatabricksPublication)
      (generation : Option String) (opened cleaned : Unit {0})
      → is_submitted_state p.state ≡ true
      → IsHeld run_id token p table
      → answers.owner_active ≡ true
      → answers.generation ≡ some generation
      → same_generation generation p.connection_generation ≡ true
      → answers.opening ≡ ok opened
      → answers.reconciled ≡ ok true
      → answers.cleaned ≡ ok cleaned
      → (q : DatabricksPublication) × (find
            (λ r. r.run_id == run_id)
            (recover quiet clock run_id token answers p table)
          ≡ some q)
        × (q.state ≡ complete)
        × (q.confirmed_at ≡ some (clock 3))
        × (q.active_target_key ≡ none)
        × (q.recovery_token ≡ none)
  unfolding recover operate reconcile clean confirm finish
  recover-completes answers p table generation opened cleaned submitted held there known same
        open_ok committed_ok clean_ok =
      let f = confirm (clock 3) p.submission_id in
      let held' = confirm-IsHeld (clock 3) p.submission_id run_id token p table held in
      (
        finish (clock 4) (f p),
        rw
            (
              there,
              recover,
              known,
              same,
              operate,
              open_ok,
              submitted,
              committed_ok,
              reconcile,
              held-any run_id token p table held,
              clean_ok,
              clean,
            )
            (on_owned-find run_id token (finish (clock 4)) (f p) (on_owned run_id token f table)
              (λ q. refl) held'),
        refl,
        refl,
        refl,
        refl,
      )

  -- A recovery by an active owner whose credentials cannot be read leaves a record without a confirmed
  -- commit in a state that no recovery takes up at any later time, while the record keeps its target.
  pub recover-strands :
      (answers : Answers) (p : DatabricksPublication) (table : List DatabricksPublication)
      (later : ℕ) (status : Status) (lease_expires_at : Option ℕ)
      → IsHeld run_id token p table
      → answers.owner_active ≡ true
      → answers.generation ≡ none
      → p.confirmed_at ≡ none
      → (q : DatabricksPublication) × (find
            (λ r. r.run_id == run_id)
            (recover quiet clock run_id token answers p table)
          ≡ some q)
        × (q.state ≡ cleanup_required)
        × (q.active_target_key ≡ p.active_target_key)
        × (is_recoverable later status lease_expires_at q ≡ false)
  unfolding recover defer_recovery is_recoverable
  recover-strands answers p table later status lease_expires_at held there locked open_still =
      let state : unavailable_state p ≡ cleanup_required = rw open_still refl in
      (
        defer_recovery (clock 2) "credentials_unavailable"
            "The saved Databricks credentials are unavailable for staging recovery." 300
            (some (unavailable_state p)) p,
        rw (recover, there, locked) (on_owned-find run_id token _ p table (λ q. refl) held),
        state,
        refl,
        rw state refl,
      )

  module _ (others : ℕ → List DatabricksPublication → List DatabricksPublication) where
    clean-lost :
        (state : PublicationState) (cleaned : Result CallError (Unit {0}))
        (table : List DatabricksPublication)
        → any (is_owned run_id token) (others 4 table) ≡ false
        → clean others clock run_id token state cleaned table ≡ others 4 table
    unfolding clean
    clean-lost state (err e) table lost = lost-on_owned run_id token _ (others 4 table) lost
    clean-lost state (ok u) table lost = lost-on_owned run_id token _ (others 4 table) lost

    reconcile-lost :
        (state : PublicationState) (submission_id : ℕ) (found : Result CallError Bool)
        (cleaned : Result CallError (Unit {0})) (table : List DatabricksPublication)
        → any (is_owned run_id token) (others 3 table) ≡ false
        → reconcile others clock run_id token state submission_id found cleaned table
          ≡ others 3 table
    unfolding reconcile
    reconcile-lost state submission_id (err e) cleaned table lost =
        lost-on_owned run_id token _ (others 3 table) lost
    reconcile-lost state submission_id (ok false) cleaned table lost =
        lost-on_owned run_id token _ (others 3 table) lost
    reconcile-lost state submission_id (ok true) cleaned table lost = rw lost refl

    -- Once other sessions have taken the record from a recovery while it talks to the connector, the
    -- recovery leaves the table as those sessions left it, whatever the connector answers.
    pub operate-lost :
        (state : PublicationState) (submission_id : ℕ) (answers : Answers)
        (table : List DatabricksPublication)
        → any (is_owned run_id token) (others 3 table) ≡ false
        → any (is_owned run_id token) (others 4 table) ≡ false
        → (operate others clock run_id token state submission_id answers table ≡ others 3 table)
          ⊎ (operate others clock run_id token state submission_id answers table ≡ others 4 table)
    unfolding operate
    operate-lost state submission_id answers table lost lost' =
        elim (Result-cases answers.opening) [
          | inr (e, failed) ↦
              inl (rw (operate, failed) (lost-on_owned run_id token _ (others 3 table) lost))
          | inl (u, opened) ↦ elim (Bool-cases (is_submitted_state state)) [
            | inl submitted ↦ inl (
                rw (operate, opened, submitted)
                  (reconcile-lost state submission_id answers.reconciled answers.cleaned table
                    lost))
            | inr not_yet ↦
                inr (rw (operate, opened, not_yet) (clean-lost state answers.cleaned table lost'))
          ]
        ]
