-- ===== src/Publications/Recovery.antt =====
-- `process_pending_publication_recovery`: a publication that its worker left behind is reconciled and
-- its staging cleaned. `candidate` is the run that the query selects, of the rows that
-- `is_recoverable` admits the one that changed least recently. `others k` is what other sessions commit
-- before the session k of the recovery, and `clock k` the time that session reads.
use user_token_management_ap.Prelude.{
  ℕ, Bool, true, false, not, ◌&&◌, Option, none, some, List, any, Result, ok, err, ◌==◌, holds,
  length, select, if◌then◌else◌,
}
use user_token_management_ap.Identity.{find}
use user_token_management_ap.Publications.{
  PublicationState, uncertain, cleanup_pending, DatabricksPublication,
}
use user_token_management_ap.Publications.Takeover.{
  is_submitted_state, is_free, claim_recovery, defer_recovery, is_owned, on_owned,
  unavailable_state, confirm, finish, CallError, Answers, same_generation, handle_error,
}

module _ (others : ℕ → List DatabricksPublication → List DatabricksPublication) (clock : ℕ → ℕ)
    (run_id token : ℕ) where
  -- the cleanup of the staging and the end of the record
  unfoldable pub clean :
      PublicationState
      → Result CallError (Unit {0})
      → List DatabricksPublication
      → List DatabricksPublication
  unfolding finish on_owned handle_error
  clean state (err e) table =
      on_owned run_id token (handle_error (clock 4) state e) (others 4 table)
  clean state (ok u) table = on_owned run_id token (finish (clock 4)) (others 4 table)

  -- the reconciliation of a publication that was submitted
  unfoldable pub reconcile :
      PublicationState
      → ℕ
      → Result CallError Bool
      → Result CallError (Unit {0})
      → List DatabricksPublication
      → List DatabricksPublication
  unfolding clean confirm on_owned defer_recovery handle_error
  reconcile state submission_id (err e) cleaned table =
      on_owned run_id token (handle_error (clock 3) state e) (others 3 table)
  reconcile state submission_id (ok false) cleaned table =
      on_owned run_id token
        (defer_recovery (clock 3) "publish_unconfirmed"
          "No exact Databricks commit marker was found; the result remains uncertain." 300
          (some uncertain))
        (others 3 table)
  reconcile state submission_id (ok true) cleaned table =
      let current = others 3 table in
      if any (is_owned run_id token) current
      then clean cleanup_pending cleaned
          (on_owned run_id token (confirm (clock 3) submission_id) current)
      else current

  -- the part between `try` and `except`, for the operation that was read
  unfoldable pub operate :
      PublicationState → ℕ → Answers → List DatabricksPublication → List DatabricksPublication
  unfolding clean reconcile on_owned handle_error
  operate state submission_id answers table = elim answers.opening [
    | err e ↦ on_owned run_id token (handle_error (clock 3) state e) (others 3 table)
    | ok u ↦
        if is_submitted_state state
        then reconcile state submission_id answers.reconciled answers.cleaned table
        else clean state answers.cleaned table
  ]

  -- the checks of the owner, the credentials and their generation
  unfoldable pub recover :
      Answers → DatabricksPublication → List DatabricksPublication → List DatabricksPublication
  unfolding on_owned defer_recovery operate
  recover answers p table =
      if not answers.owner_active
      then on_owned run_id token
          (defer_recovery (clock 2) "owner_unavailable"
            "The connection owner is unavailable for Databricks recovery." 300 none)
          table
      else elim answers.generation [
        | none ↦
            on_owned run_id token
              (λ q.
                defer_recovery (clock 2) "credentials_unavailable"
                  "The saved Databricks credentials are unavailable for staging recovery." 300
                  (some (unavailable_state q)) q)
              table
        | some generation ↦
            if same_generation generation p.connection_generation
            then operate p.state p.submission_id answers table
            else on_owned run_id token
                (λ q.
                  defer_recovery (clock 2) "credentials_stale"
                    "The Databricks connection changed; confirm the current identity before recovery."
                    3600 (some (unavailable_state q)) q)
                table
      ]

  unfoldable pub recover_owned :
      Answers
      → Option DatabricksPublication
      → List DatabricksPublication
      → List DatabricksPublication
  unfolding recover
  recover_owned answers none table = table
  recover_owned answers (some p) table =
      if holds p.recovery_token token then recover answers p table else table

-- the second session, on the record that the first one claimed
unfoldable pub recover_claimed :
    (ℕ → List DatabricksPublication → List DatabricksPublication)
    → (ℕ → ℕ)
    → ℕ
    → ℕ
    → Answers
    → List DatabricksPublication
    → List DatabricksPublication
unfolding find recover_owned
recover_claimed others clock run_id token answers table =
    recover_owned others clock run_id token answers (find (λ p. p.run_id == run_id) table) table

-- `process_pending_publication_recovery`: the table, and whether there was something to recover. `token`
-- is the random token of this recovery.
unfoldable pub process_pending_publication_recovery :
    (ℕ → List DatabricksPublication → List DatabricksPublication)
    → (ℕ → ℕ)
    → ℕ
    → Answers
    → Option ℕ
    → List DatabricksPublication
    → List DatabricksPublication × Bool
unfolding claim_recovery recover_claimed
process_pending_publication_recovery others clock token answers none table = (table, false)
process_pending_publication_recovery others clock token answers (some run_id) table =
    if length (select (λ p. p.run_id == run_id && is_free (clock 0) p) table) == 1
    then (
      recover_claimed others clock run_id token answers
          (others 1 (claim_recovery (clock 0) token run_id table)),
      true,
    )
    else (table, false)
