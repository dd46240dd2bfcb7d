-- ===== src/Runs/Retry.antt =====
-- What `enqueue_run` does after failures and reviews, and with idempotency tokens.
use user_token_management_ap.Prelude.{
  is_some, refl, ok-injective, ℕ, String, Bool, true, false, ◌≡◌, subst, sym, ◌∙◌, ap, Option, none,
  some, ok, err, arith, inl, inr, Option-cases, >>=-eq-ok, List, [], ◌∷◌, ◌++◌,
}
use user_token_management_ap.Json.{get, fields_of, load}
use user_token_management_ap.Runs.Codes.{FailureCode, DataImpact}
use user_token_management_ap.Runs.Row.{Run, Work, value_error}
use user_token_management_ap.Runs.Review.{
  unresolved, reconciliation_reviewed, run_requires_reconciliation_review,
}
use user_token_management_ap.Runs.Events.{append_event, logged, next_sequence, record_event}
use user_token_management_ap.Runs.Reviewed.{record_reconciliation_review_lem}
use user_token_management_ap.Runs.Lifecycle.{
  fail_run, effective_reconciliation, record_reconciliation_review,
}
use user_token_management_ap.Runs.Safety.{fail_run-IsBlocking, any-append_mem, IsBlocking}
use user_token_management_ap.Runs.Enqueue.{
  Pipeline, Snapshot, Request, may_enqueue, blocks_enqueue, is_safety_candidate, is_run_of,
  enqueue_run, place, queue_new, new_run, find_run, has_token, reviewed_parent, existing,
}

module _ (redact_text : String → String) (clock : ℕ → ℕ) (route_allowed : String → String → Bool)
    (writer_enabled : String → Bool) where
  -- An unresolved run of the pipeline among the table's runs stops every enqueue of the pipeline.
  enqueue_run-blocked :
      (user : ℕ) (pipeline : Pipeline) (snapshot : Snapshot) (request : Request)
      (before rest : List Work) (w : Work)
      → pipeline.user_id ≡ user
      → blocks_enqueue user pipeline.id w ≡ true
      → enqueue_run redact_text clock route_allowed writer_enabled user
          (some pipeline)
          snapshot
          request
          (before ++ w ∷ rest)
        ≡ err value_error
  unfolding enqueue_run may_enqueue
  enqueue_run-blocked user pipeline snapshot request before rest w owner h =
      ground (arith, any-append_mem (blocks_enqueue user pipeline.id) before rest w h)

  blocks_of :
      (user pipeline : ℕ) (w w' : Work)
      → IsBlocking w.run w'.run
      → w.run.user_id ≡ user
      → w.run.pipeline_definition_id ≡ some pipeline
      → blocks_enqueue user pipeline w' ≡ true
  unfolding blocks_enqueue is_safety_candidate is_run_of
  blocks_of user pipeline w w' b u p = ground arith

  -- A run of the user's pipeline that `fail_run` ends, without verification facts, with a
  -- reconciliation to do, and whose earlier facts held no review stamp, makes every later enqueue of
  -- the pipeline raise while it stands in the table as the failure left it.
  pub fail_run-blocks-enqueue_run :
      (readings : ℕ → ℕ) (code : FailureCode) (summary : String) (retryable needs : Bool)
      (impact : Option DataImpact) (token : Option ℕ) (w w' : Work) (pipeline : Pipeline)
      (snapshot : Snapshot) (request : Request) (before rest : List Work)
      → fail_run redact_text readings code summary retryable needs impact token none w ≡ ok w'
      → effective_reconciliation w.run code needs impact ≡ true
      → get "reconciliation_reviewed_at" (fields_of (load w.run.verification)) ≡ none
      → w.run.user_id ≡ pipeline.user_id
      → w.run.pipeline_definition_id ≡ some pipeline.id
      → enqueue_run redact_text clock route_allowed writer_enabled pipeline.user_id
          (some pipeline)
          snapshot
          request
          (before ++ w' ∷ rest)
        ≡ err value_error
  fail_run-blocks-enqueue_run readings code summary retryable needs impact token w w' pipeline
        snapshot request before rest h e u owner of_pipeline =
      enqueue_run-blocked pipeline.user_id pipeline snapshot request before rest w' refl (
        blocks_of pipeline.user_id pipeline.id w w'
          (fail_run-IsBlocking redact_text readings code summary retryable needs impact token w h e
            u)
          owner of_pipeline)

  append-find :
      (p : Run → Bool) (table : List Work) (w : Work)
      → find_run p table ≡ none
      → p w.run ≡ true
      → find_run p (table ++ w ∷ []) ≡ some w
  unfolding find_run
  append-find p [] w h k = rw k
  append-find p (v ∷ table) w h k = ground (arith, append-find p table w)

  -- The run that a request queues carries the request's token and user.
  queue_new-run :
      (user : ℕ) (pipeline : Pipeline) (snapshot : Snapshot) (request : Request)
      (parent : Option Run) {w : Work}
      → queue_new redact_text clock user pipeline snapshot request parent ≡ ok w
      → w.run ≡ next_sequence (new_run (clock 0) user pipeline snapshot request parent)
  unfolding queue_new append_event record_event logged
  queue_new-run user pipeline snapshot request parent h = ap (λ v. v.run) (sym (ok-injective h))

  existing_lem :
      (user k : ℕ) (token : Option ℕ) (table : List Work)
      → token ≡ some k
      → existing user token table ≡ find_run (has_token user k) table
  existing_lem user k token table t = rw t

  place-none :
      (user k : ℕ) (pipeline : Pipeline) (snapshot : Snapshot) (request : Request)
      (table : List Work) {result : Work × List Work}
      → place redact_text clock user pipeline snapshot request table none ≡ ok result
      → request.idempotency_token ≡ some k
      → find_run (has_token user k) table ≡ none
      → find_run (has_token user k) result.1 ≡ some result.0
  unfolding place next_sequence new_run
  place-none user k pipeline snapshot request table h t absent =
      let parent : Option Run = reviewed_parent user pipeline.id table in
      let (v, queued, done) =
        >>=-eq-ok (queue_new redact_text clock user pipeline snapshot request parent)
          (λ w. ok (w, table ++ w ∷ [])) h in
      subst (λ r. find_run (has_token user k) r.1 ≡ some r.0) (ok-injective done)
        (append-find (has_token user k) table v absent
          (rw (queue_new-run user pipeline snapshot request parent queued, t) (ground arith)))

  known_token :
      (user k : ℕ) (pipeline : Option Pipeline) (snapshot : Snapshot) (request : Request)
      (table : List Work) (w : Work) {p : Pipeline}
      → may_enqueue route_allowed writer_enabled user pipeline snapshot table ≡ ok p
      → request.idempotency_token ≡ some k
      → find_run (has_token user k) table ≡ some w
      → enqueue_run redact_text clock route_allowed writer_enabled user pipeline snapshot request
          table
        ≡ ok (w, table)
  unfolding enqueue_run place
  known_token user k pipeline snapshot request table w may t found = rw (may, t, found)

  first_request :
      (user k : ℕ) (pipeline : Option Pipeline) (snapshot : Snapshot) (request : Request)
      (table : List Work) {result : Work × List Work}
      → enqueue_run redact_text clock route_allowed writer_enabled user pipeline snapshot request
          table
        ≡ ok result
      → request.idempotency_token ≡ some k
      → find_run (has_token user k) result.1 ≡ some result.0
  unfolding enqueue_run
  first_request user k pipeline snapshot request table h t =
      let (p, _, rest) =
        >>=-eq-ok (may_enqueue route_allowed writer_enabled user pipeline snapshot table) _ h in
      elim (Option-cases (find_run (has_token user k) table)) [
        | inl absent ↦
            place-none user k p snapshot request table
              (rw (existing_lem user k request.idempotency_token table t ∙ absent) at rest) t absent
        | inr (v, found) ↦
            subst (λ r. find_run (has_token user k) r.1 ≡ some r.0)
              (ok-injective (
                unfold place in
                (rw (existing_lem user k request.idempotency_token table t ∙ found) at rest)))
              found
      ]

  -- A request with the idempotency token of an earlier one of the user, made on the table that the
  -- earlier one left, returns the same run and leaves the table alone, whatever else it asks for, if
  -- it passes the checks of `enqueue_run`.
  pub enqueue_run-idempotent :
      (user k : ℕ) (pipeline pipeline' : Option Pipeline) (snapshot snapshot' : Snapshot)
      (request request' : Request) (table table' : List Work) (w : Work) {p : Pipeline}
      → enqueue_run redact_text clock route_allowed writer_enabled user pipeline snapshot request
          table
        ≡ ok (w, table')
      → request.idempotency_token ≡ some k
      → request'.idempotency_token ≡ some k
      → may_enqueue route_allowed writer_enabled user pipeline' snapshot' table' ≡ ok p
      → enqueue_run redact_text clock route_allowed writer_enabled user pipeline' snapshot' request'
          table'
        ≡ ok (w, table')
  enqueue_run-idempotent user k pipeline pipeline' snapshot snapshot' request request' table table'
        w h t t' may =
      known_token user k pipeline' snapshot' request' table' w may t'
        (first_request user k pipeline snapshot request table h t)

reviewed_resolves :
    (run : Run) → is_some run.reconciliation_reviewed_at ≡ true → unresolved run ≡ false
unfolding unresolved reconciliation_reviewed
reviewed_resolves run h = ground arith

-- The review of a reconciliation is only recorded for a run that requires one; after it the run is
-- unresolved no more, and its status is as before.
pub record_reconciliation_review-resolves :
    (redact_text : String → String) (stamp : ℕ → String) (clock : ℕ → ℕ) (user : ℕ) (w : Work)
    {w' : Work}
    → record_reconciliation_review redact_text stamp clock user w ≡ ok w'
    → (run_requires_reconciliation_review w.run ≡ true)
      × (unresolved w'.run ≡ false)
      × (w'.run.status ≡ w.run.status)
unfolding logged next_sequence
record_reconciliation_review-resolves redact_text stamp clock user w {w'} h =
    let (needed, same) = record_reconciliation_review_lem redact_text stamp clock user w h in
    (
      needed,
      reviewed_resolves w'.run (ap (λ v. is_some v.run.reconciliation_reviewed_at) same),
      ap (λ v. v.run.status) same,
    )
