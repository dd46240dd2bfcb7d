-- ===== src/Publications/Record.antt =====
-- `record_publication_event`: the state of a publication before and after each side effect of its write.
use user_token_management_ap.Prelude.{
  ℕ, max, String, Bool, false, not, ◌&&◌, ◌||◌, Option, none, some, is_none, is_some, List, [], ◌∷◌,
  ◌++◌, Result, ok, err, ◌>>=◌, ◌>>◌, raise_if, ◌==◌, holds, str_eq, if◌then◌else◌, clip,
}
use user_token_management_ap.Identity.{find}
use user_token_management_ap.Publications.{
  preparing, staging, publishing, committed, uncertain, cleanup_pending, complete, unchanged,
  DatabricksPublication, PublicationError, worker_lost, destination_conflict, credentials_stale,
  publish_uncertain, value_error, integrity_error, admits, put_record,
}
use user_token_management_ap.Publications.Event.{Event, ConnectorFailure}

-- the target of a write, as far as the record keeps it
pub record Locator : Type 0 where
  pub workspace_id : String
  pub catalog : String
  pub schema_name : String
  pub table : String

-- the columns of the run that the lease check reads
pub record RunLease : Type 0 where
  pub user_id : ℕ
  pub lease_token : Option ℕ

-- the arguments that every event has
pub record Caller : Type 0 where
  pub run_id : ℕ
  pub lease_token : ℕ
  pub user_id : ℕ
  pub locator : Locator
  pub connection_generation : String

-- `_require_run_lease`, on the row of the run if there is one
abbrev pub holds_lease : Caller → Option RunLease → Bool
holds_lease caller none = false
holds_lease caller (some run) =
    run.user_id == caller.user_id && holds run.lease_token caller.lease_token

-- `_target_key`, for the digest of the identity and `str.casefold`
unfoldable pub target_key : (List String → String) → (String → String) → Locator → String
target_key digest casefold locator = digest (
    locator.workspace_id
    ∷ casefold locator.catalog
    ∷ casefold locator.schema_name
    ∷ casefold locator.table
    ∷ [])

abbrev pub code_or : String → Option ConnectorFailure → String
code_or fallback none = fallback
code_or fallback (some error) = clip 64 error.code

abbrev pub summary_or : String → Option ConnectorFailure → String
summary_or fallback none = fallback
summary_or fallback (some error) = clip 240 error.summary

unfoldable pub new_record :
    (Locator → String) → String → Caller → String → String → DatabricksPublication
new_record locator_json key caller write_mode staging_name = record {
  run_id = caller.run_id;
  user_id = caller.user_id;
  workspace_id = caller.locator.workspace_id;
  connection_generation = caller.connection_generation;
  target_key = key;
  active_target_key = some key;
  target_locator_json = locator_json caller.locator;
  write_mode = clip 24 write_mode;
  staging_name = clip 520 staging_name;
  state = preparing;
  submission_id = caller.run_id;
  staged_rows = 0;
  staged_bytes = 0;
  submitted_at = none;
  confirmed_at = none;
  cleanup_updated_at = none;
  recovery_token = none;
  recovery_expires_at = none;
  last_error_code = none;
  last_error_summary = "";
}

-- the branches on the event, on a record that passed the checks
unfoldable pub apply_event :
    ℕ → String → ℕ → Event → DatabricksPublication → Result PublicationError DatabricksPublication
apply_event now key run_id (Event.prepare_started write_mode staging_name) r = err worker_lost
apply_event now key run_id Event.staging_ready r = ok (record r { state = staging })
apply_event now key run_id (Event.batch_written rows bytes_written) r = ok (record r {
  staged_rows = max r.staged_rows rows;
  staged_bytes = max r.staged_bytes bytes_written;
})
apply_event now key run_id Event.publish_submitted r =
    ok (record r { state = publishing; submission_id = run_id; submitted_at = some now })
apply_event now key run_id Event.committed r =
    ok (record r { state = committed; active_target_key = none; confirmed_at = some now })
apply_event now key run_id (Event.publish_uncertain error) r = ok (record r {
  state = uncertain;
  active_target_key = some key;
  last_error_code = some (code_or "publish_uncertain" error);
  last_error_summary =
      summary_or "The Databricks publication outcome could not be confirmed." error;
})
apply_event now key run_id Event.cleanup_pending r = ok (record r {
  state = cleanup_pending;
  active_target_key = if is_none r.confirmed_at then some key else r.active_target_key;
  cleanup_updated_at = some now;
})
apply_event now key run_id Event.cleanup_confirmed r = ok (record r {
  state = if is_some r.confirmed_at then complete else unchanged;
  active_target_key = none;
  cleanup_updated_at = some now;
  recovery_token = none;
  recovery_expires_at = none;
})
apply_event now key run_id Event.abort_confirmed r =
    if is_some r.submitted_at
    then err publish_uncertain
    else ok
        (record r { state = unchanged; active_target_key = none; cleanup_updated_at = some now })
apply_event now key run_id (Event.abort_uncertain error) r = ok (record r {
  state = if is_some r.submitted_at then uncertain else cleanup_pending;
  active_target_key = some key;
  cleanup_updated_at = some now;
  last_error_code = some (code_or "cleanup_uncertain" error);
  last_error_summary = summary_or "Databricks staging cleanup could not be confirmed." error;
})
apply_event now key run_id Event.unsupported r = err value_error

-- the insertion of a new record
unfoldable pub prepare :
    DatabricksPublication
    → Option DatabricksPublication
    → List DatabricksPublication
    → Result PublicationError (List DatabricksPublication)
prepare row (some existing) table = err worker_lost
prepare row none table =
    if admits row table then ok (table ++ row ∷ []) else err destination_conflict

-- the checks of an event on the record of the run, and its writes
unfoldable pub advance :
    ℕ
    → String
    → Caller
    → Event
    → Option DatabricksPublication
    → List DatabricksPublication
    → Result PublicationError (List DatabricksPublication)
unfolding apply_event put_record
advance now key caller event none table = err worker_lost
advance now key caller event (some existing) table = do
  raise_if (not (str_eq existing.target_key key)) worker_lost
  raise_if
      (not (existing.user_id == caller.user_id)
        || not (str_eq existing.connection_generation caller.connection_generation))
      credentials_stale
  changed ← apply_event now key caller.run_id event existing
  raise_if (not (admits changed table)) integrity_error
  ok (put_record changed table)

unfoldable pub on_event :
    (Locator → String)
    → ℕ
    → String
    → Caller
    → Event
    → List DatabricksPublication
    → Result PublicationError (List DatabricksPublication)
unfolding find new_record prepare advance
on_event locator_json now key caller (Event.prepare_started write_mode staging_name) table =
    prepare (new_record locator_json key caller write_mode staging_name)
      (find (λ p. p.run_id == caller.run_id) table) table
on_event locator_json now key caller event table =
    advance now key caller event (find (λ p. p.run_id == caller.run_id) table) table

-- `record_publication_event`: the table that it commits. `run` is the run's row at the call.
unfoldable pub record_publication_event :
    (List String → String)
    → (String → String)
    → (Locator → String)
    → ℕ
    → Option RunLease
    → Caller
    → Event
    → List DatabricksPublication
    → Result PublicationError (List DatabricksPublication)
unfolding target_key on_event
record_publication_event digest casefold locator_json now run caller event table = do
  raise_if (not (holds_lease caller run)) worker_lost
  on_event locator_json now (target_key digest casefold caller.locator) caller event table
