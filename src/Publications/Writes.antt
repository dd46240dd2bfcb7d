-- ===== src/Publications/Writes.antt =====
-- Sequences of the events of any runs, and the run that is turned away at the fence.
use user_token_management_ap.Prelude.{
  ℕ, String, true, false, not, ◌&&◌, ◌||◌, ◌≡◌, refl, Option, none, some, List, [], ◌∷◌, ◌++◌, ok,
  err, ◌==◌, str_eq, raise_if, arith, eq_iff, ap, sym, ◌∙◌, subst, inl, inr, ◌⊎◌, Bool-cases,
  >>=-eq-ok, ok-injective,
}
use user_token_management_ap.Identity.{find}
use user_token_management_ap.Sessions.Alive.{find-passes}
use user_token_management_ap.Publications.{
  DatabricksPublication, worker_lost, destination_conflict, credentials_stale, integrity_error,
  admits, put_record,
}
use user_token_management_ap.Publications.Event.{Event}
use user_token_management_ap.Publications.Record.{
  Locator, RunLease, Caller, holds_lease, target_key, new_record, apply_event, prepare, advance,
  on_event, record_publication_event,
}
use user_token_management_ap.Publications.Fence.{
  IsFencing, is_releasing, apply_event-same, apply_event-active, put-other, put-own, append-find,
  rival-any,
}

prepare-IsFencing :
    (run_id : ℕ) (key : String) (row : DatabricksPublication) (o : Option DatabricksPublication)
    (table : List DatabricksPublication) {table' : List DatabricksPublication}
    → IsFencing run_id key table
    → prepare row o table ≡ ok table'
    → IsFencing run_id key table'
unfolding prepare IsFencing
prepare-IsFencing run_id key row (some existing) table f h = cc
prepare-IsFencing run_id key row none table (p, found, held, own) h =
    let same : table ++ row ∷ [] ≡ _ = ground (arith, h) in
    subst (λ t. IsFencing run_id key t) same (p, append-find run_id row table found, held, own)

advance-ok :
    (now : ℕ) (key : String) (caller : Caller) (event : Event) (existing : DatabricksPublication)
    (table : List DatabricksPublication) {table' : List DatabricksPublication}
    → advance now key caller event (some existing) table ≡ ok table'
    → (changed : DatabricksPublication) × (str_eq existing.target_key key ≡ true)
      × (apply_event now key caller.run_id event existing ≡ ok changed)
      × (put_record changed table ≡ table')
unfolding advance
advance-ok now key caller event existing table h =
    let (_, same, h1) =
      >>=-eq-ok (raise_if (not (str_eq existing.target_key key)) worker_lost) _ h in
    let (_, _, h2) =
      >>=-eq-ok
        (raise_if
          (not (existing.user_id == caller.user_id)
            || not (str_eq existing.connection_generation caller.connection_generation))
          credentials_stale)
        _ h1 in
    let (changed, done, h3) = >>=-eq-ok (apply_event now key caller.run_id event existing) _ h2 in
    let (_, _, h4) = >>=-eq-ok (raise_if (not (admits changed table)) integrity_error) _ h3 in
    (changed, ground (arith, same), done, ok-injective h4)

found-advance-IsFencing :
    (run_id : ℕ) (key k : String) (now : ℕ) (caller : Caller) (event : Event)
    (existing : DatabricksPublication) (table : List DatabricksPublication)
    {table' : List DatabricksPublication}
    → IsFencing run_id key table
    → ((caller.run_id == run_id) && is_releasing event) ≡ false
    → find (λ q. q.run_id == caller.run_id) table ≡ some existing
    → advance now k caller event (some existing) table ≡ ok table'
    → IsFencing run_id key table'
unfolding IsFencing
found-advance-IsFencing run_id key k now caller event existing table (p, found, held, own) keeps
      mine h =
    let (changed, same, done, put) = advance-ok now k caller event existing table h in
    let (id, target) = apply_event-same now k caller.run_id event existing done in
    let his : existing.run_id ≡ caller.run_id =
      ground (
        arith,
        find-passes (λ (q : DatabricksPublication). q.run_id == caller.run_id) table mine,
      ) in
    elim (Bool-cases (caller.run_id == run_id)) [
      | inl own_run ↦
          let run : caller.run_id ≡ run_id = ground (arith, own_run) in
          let mine' = subst (λ n. find (λ q. q.run_id == n) table ≡ some existing) run mine in
          let it : existing ≡ p = cc (mine', found) in
          let k_is : k ≡ key = ground (arith, eq_iff existing.target_key k, same, own, it) in
          let row =
            put-own changed table (
              subst (λ n. find (λ q. q.run_id == n) table ≡ some existing) (sym (id ∙ his)) mine) in
          (
            changed,
            ap (find (λ q. q.run_id == run_id)) (sym put)
                ∙ subst (λ n. find (λ q. q.run_id == n) (put_record changed table) ≡ some changed)
                    (id ∙ his ∙ run) row,
            apply_event-active now key caller.run_id event existing (ground (arith, keeps, own_run))
                (ap (λ (r : DatabricksPublication). r.active_target_key) it ∙ held)
                (subst (λ s. apply_event now s caller.run_id event existing ≡ ok changed) k_is
                  done),
            target ∙ ap (λ (r : DatabricksPublication). r.target_key) it ∙ own,
          )
      | inr other ↦ (
        p,
        ap (find (λ q. q.run_id == run_id)) (sym put)
            ∙ put-other run_id changed table (ap (λ n. n == run_id) (id ∙ his) ∙ other)
            ∙ found,
        held,
        own,
      )
    ]

advance-IsFencing :
    (run_id : ℕ) (key k : String) (now : ℕ) (caller : Caller) (event : Event)
    (o : Option DatabricksPublication) (table : List DatabricksPublication)
    {table' : List DatabricksPublication}
    → IsFencing run_id key table
    → ((caller.run_id == run_id) && is_releasing event) ≡ false
    → find (λ q. q.run_id == caller.run_id) table ≡ o
    → advance now k caller event o table ≡ ok table'
    → IsFencing run_id key table'
unfolding advance
advance-IsFencing run_id key k now caller event none table f keeps mine h = cc
advance-IsFencing run_id key k now caller event (some existing) table f keeps mine h =
    found-advance-IsFencing run_id key k now caller event existing table f keeps mine h

on_event-cases :
    (locator_json : Locator → String) (now : ℕ) (key : String) (caller : Caller) (event : Event)
    (table : List DatabricksPublication)
    → ((row : DatabricksPublication) × (on_event locator_json now key caller event table
          ≡ prepare row (find (λ p. p.run_id == caller.run_id) table) table))
      ⊎ (on_event locator_json now key caller event table
          ≡ advance now key caller event (find (λ p. p.run_id == caller.run_id) table) table)
unfolding on_event
on_event-cases j now key c (Event.prepare_started write_mode staging_name) t =
    inl (new_record j key c write_mode staging_name, refl)
on_event-cases j now key c Event.staging_ready t = inr refl
on_event-cases j now key c Event.publish_submitted t = inr refl
on_event-cases j now key c Event.committed t = inr refl
on_event-cases j now key c Event.cleanup_pending t = inr refl
on_event-cases j now key c Event.cleanup_confirmed t = inr refl
on_event-cases j now key c Event.abort_confirmed t = inr refl
on_event-cases j now key c (Event.batch_written rows bytes_written) t = inr refl
on_event-cases j now key c (Event.publish_uncertain error) t = inr refl
on_event-cases j now key c (Event.abort_uncertain error) t = inr refl
on_event-cases j now key c Event.unsupported t = inr refl

module _ (digest : List String → String) (casefold : String → String)
    (locator_json : Locator → String) where
  -- One event that commits, of any run, that does not release this run's record.
  pub data Writes (run_id : ℕ) (table table' : List DatabricksPublication) : Type 0 where
    writes :
        (now : ℕ) (run : Option RunLease) (caller : Caller) (event : Event)
        → ((caller.run_id == run_id) && is_releasing event) ≡ false
        → record_publication_event digest casefold locator_json now run caller event table
          ≡ ok table'
        → Writes run_id table table'

  pub data WritesAll (run_id : ℕ) (table : List DatabricksPublication)
      : List DatabricksPublication → Type 0 where
    nothing : WritesAll run_id table table
    more :
        {mid last : List DatabricksPublication}
        → WritesAll run_id table mid
        → Writes run_id mid last
        → WritesAll run_id table last

  Writes-IsFencing :
      (run_id : ℕ) (key : String) {table table' : List DatabricksPublication}
      → IsFencing run_id key table
      → Writes run_id table table'
      → IsFencing run_id key table'
  unfolding record_publication_event
  Writes-IsFencing run_id key {table} f (writes now run caller event keeps h) =
      let k = target_key digest casefold caller.locator in
      let (_, _, h1) = >>=-eq-ok (raise_if (not (holds_lease caller run)) worker_lost) _ h in
      elim (on_event-cases locator_json now k caller event table) [
        | inl (row, same) ↦
            prepare-IsFencing run_id key row (find (λ p. p.run_id == caller.run_id) table) table f
              (sym same ∙ h1)
        | inr same ↦
            advance-IsFencing run_id key k now caller event
              (find (λ p. p.run_id == caller.run_id) table) table f keeps refl (sym same ∙ h1)
      ]

  WritesAll-IsFencing :
      (run_id : ℕ) (key : String) {table table' : List DatabricksPublication}
      → IsFencing run_id key table
      → WritesAll run_id table table'
      → IsFencing run_id key table'
  WritesAll-IsFencing run_id key f nothing = f
  WritesAll-IsFencing run_id key f (more ws w) =
      Writes-IsFencing run_id key (WritesAll-IsFencing run_id key f ws) w

  -- From a table on which a run's record holds the key of its target, whatever events of any runs commit,
  -- save the ones that release that record: another run that holds its lease and has no record yet is
  -- turned away with a conflict when it prepares a write to that target.
  pub WritesAll-fences :
      (run_id : ℕ) {table table' : List DatabricksPublication} (now : ℕ) (run : Option RunLease)
      (caller : Caller) (write_mode staging_name : String)
      → IsFencing run_id (target_key digest casefold caller.locator) table
      → WritesAll run_id table table'
      → holds_lease caller run ≡ true
      → (run_id == caller.run_id) ≡ false
      → find (λ p. p.run_id == caller.run_id) table' ≡ none
      → record_publication_event digest casefold locator_json now run caller
          (Event.prepare_started write_mode staging_name)
          table'
        ≡ err destination_conflict
  unfolding record_publication_event on_event prepare new_record IsFencing
  WritesAll-fences run_id {table' = table'} now run caller write_mode staging_name f ws lease apart
        new =
      let key = target_key digest casefold caller.locator in
      let (p, found, held, own) = WritesAll-IsFencing run_id key f ws in
      rw (lease, new, rival-any run_id caller.run_id key table' found held apart) refl
