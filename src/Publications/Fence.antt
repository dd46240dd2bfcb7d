-- ===== src/Publications/Fence.antt =====
-- The fence: while a record holds the key of its target, no other run begins to publish there.
use user_token_management_ap.Prelude.{
  ℕ, String, Bool, true, false, ◌≡◌, refl, some, List, [], ◌∷◌, ◌++◌, any, ok, ◌==◌, arith, eq_iff,
}
use user_token_management_ap.Identity.{find}
use user_token_management_ap.Publications.{DatabricksPublication, is_rival, put_record}
use user_token_management_ap.Publications.Event.{Event}
use user_token_management_ap.Publications.Record.{apply_event}

-- The run's record holds the key of its target.
unfoldable pub IsFencing : ℕ → String → List DatabricksPublication → Type 0
IsFencing run_id key table =
    (p : DatabricksPublication) × (find (λ q. q.run_id == run_id) table ≡ some p)
    × (p.active_target_key ≡ some key)
    × (p.target_key ≡ key)

-- the events after which the target is free again
abbrev pub is_releasing : Event → Bool
is_releasing (Event.prepare_started write_mode staging_name) = false
is_releasing Event.staging_ready = false
is_releasing Event.publish_submitted = false
is_releasing Event.committed = true
is_releasing Event.cleanup_pending = false
is_releasing Event.cleanup_confirmed = true
is_releasing Event.abort_confirmed = true
is_releasing (Event.batch_written rows bytes_written) = false
is_releasing (Event.publish_uncertain error) = false
is_releasing (Event.abort_uncertain error) = false
is_releasing Event.unsupported = false

-- An event keeps the identity of its record.
pub apply_event-same :
    (now : ℕ) (key : String) (run_id : ℕ) (event : Event) (r : DatabricksPublication)
    {changed : DatabricksPublication}
    → apply_event now key run_id event r ≡ ok changed
    → (changed.run_id ≡ r.run_id) × (changed.target_key ≡ r.target_key)
unfolding apply_event
apply_event-same now key run_id event r h = (ground arith, ground arith)

-- Every event but the releasing ones leaves the record with its key.
pub apply_event-active :
    (now : ℕ) (key : String) (run_id : ℕ) (event : Event) (r : DatabricksPublication)
    {changed : DatabricksPublication}
    → is_releasing event ≡ false
    → r.active_target_key ≡ some key
    → apply_event now key run_id event r ≡ ok changed
    → changed.active_target_key ≡ some key
unfolding apply_event
apply_event-active now key run_id event r keeps held h = ground arith

pub put-other :
    (run_id : ℕ) (row : DatabricksPublication) (table : List DatabricksPublication)
    → (row.run_id == run_id) ≡ false
    → find (λ q. q.run_id == run_id) (put_record row table) ≡ find (λ q. q.run_id == run_id) table
unfolding find put_record
put-other run_id row [] other = refl
put-other run_id row (p ∷ ps) other = ground (arith, put-other run_id row ps other)

pub put-own :
    (row : DatabricksPublication) (table : List DatabricksPublication) {p : DatabricksPublication}
    → find (λ q. q.run_id == row.run_id) table ≡ some p
    → find (λ q. q.run_id == row.run_id) (put_record row table) ≡ some row
unfolding find put_record
put-own row [] h = cc h
put-own row (x ∷ xs) {p} h = ground (arith, put-own row xs {p = p})

pub append-find :
    (run_id : ℕ) (row : DatabricksPublication) (table : List DatabricksPublication)
    {p : DatabricksPublication}
    → find (λ q. q.run_id == run_id) table ≡ some p
    → find (λ q. q.run_id == run_id) (table ++ row ∷ []) ≡ some p
unfolding find
append-find run_id row [] h = cc h
append-find run_id row (x ∷ xs) {p} h = ground (arith, append-find run_id row xs {p = p})

pub rival-any :
    (run_id other : ℕ) (key : String) (table : List DatabricksPublication)
    {p : DatabricksPublication}
    → find (λ q. q.run_id == run_id) table ≡ some p
    → p.active_target_key ≡ some key
    → (run_id == other) ≡ false
    → any (is_rival other key) table ≡ true
unfolding find
rival-any run_id other key [] h held apart = cc h
rival-any run_id other key (x ∷ xs) {p} h held apart =
    ground (arith, rival-any run_id other key xs {p = p}, eq_iff key key)
