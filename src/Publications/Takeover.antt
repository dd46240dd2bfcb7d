-- ===== src/Publications/Takeover.antt =====
-- The record of a publication that a recovery takes up: the query, the claim, and the writes that each
-- outcome makes on it.
use user_token_management_ap.Prelude.{
  ℕ, ◌+◌, max, String, Bool, true, false, ◌&&◌, ◌||◌, Option, none, some, is_none, is_some, List,
  map, Result, ◌==◌, str_eq, holds, passed, if◌then◌else◌, clip,
}
use user_token_management_ap.Runs.Lease.{seconds}
use user_token_management_ap.Runs.Status.{Status, is_terminal}
use user_token_management_ap.Publications.{
  PublicationState, preparing, staging, publishing, committed, uncertain, cleanup_pending,
  cleanup_required, complete, unchanged, DatabricksPublication,
}
use user_token_management_ap.Publications.Event.{ConnectorFailure}

-- the states that the query names
abbrev pub is_pending_state : PublicationState → Bool
is_pending_state preparing = true
is_pending_state staging = true
is_pending_state publishing = true
is_pending_state committed = true
is_pending_state uncertain = true
is_pending_state cleanup_pending = true
is_pending_state cleanup_required = false
is_pending_state complete = false
is_pending_state unchanged = false

-- `operation["state"] in {"publishing", "uncertain"}`
abbrev pub is_submitted_state : PublicationState → Bool
is_submitted_state preparing = false
is_submitted_state staging = false
is_submitted_state publishing = true
is_submitted_state committed = false
is_submitted_state uncertain = true
is_submitted_state cleanup_pending = false
is_submitted_state cleanup_required = false
is_submitted_state complete = false
is_submitted_state unchanged = false

-- no recovery holds the record
abbrev pub is_free : ℕ → DatabricksPublication → Bool
is_free now p = is_none p.recovery_expires_at || passed p.recovery_expires_at now

-- the condition of the query, on a record and the status and lease of its run
unfoldable pub is_recoverable : ℕ → Status → Option ℕ → DatabricksPublication → Bool
is_recoverable now status lease_expires_at p =
    is_pending_state p.state
    && is_free now p
    && (is_terminal status || is_none lease_expires_at || passed lease_expires_at now)

unfoldable pub claim_recovery : ℕ → ℕ → ℕ → List DatabricksPublication → List DatabricksPublication
claim_recovery now token run_id table =
    map
      (λ p.
        if p.run_id == run_id && is_free now p
        then record p { recovery_token = some token; recovery_expires_at = some (now + seconds 60) }
        else p)
      table

-- `_defer_recovery`, with a state where one is given
abbrev pub or_state : Option PublicationState → PublicationState → PublicationState
or_state none state = state
or_state (some new) state = new

unfoldable pub defer_recovery :
    ℕ
    → String
    → String
    → ℕ
    → Option PublicationState
    → DatabricksPublication
    → DatabricksPublication
defer_recovery now error_code summary delay_seconds state p = record p {
  state = or_state state p.state;
  last_error_code = some (clip 64 error_code);
  last_error_summary = clip 240 summary;
  cleanup_updated_at = some now;
  recovery_token = none;
  recovery_expires_at = some (now + seconds (max 1 delay_seconds));
}

-- the record of the run, while it still carries the token
abbrev pub is_owned : ℕ → ℕ → DatabricksPublication → Bool
is_owned run_id token p = p.run_id == run_id && holds p.recovery_token token

unfoldable pub on_owned :
    ℕ
    → ℕ
    → (DatabricksPublication → DatabricksPublication)
    → List DatabricksPublication
    → List DatabricksPublication
on_owned run_id token change table =
    map (λ p. if is_owned run_id token p then change p else p) table

-- the state of a record whose owner can no longer be asked
abbrev pub unavailable_state : DatabricksPublication → PublicationState
unavailable_state p = if is_none p.confirmed_at then cleanup_required else cleanup_pending

-- a commit that the connector confirmed
unfoldable pub confirm : ℕ → ℕ → DatabricksPublication → DatabricksPublication
confirm now submission_id p = record p {
  state = cleanup_pending;
  active_target_key = none;
  confirmed_at = some now;
  submission_id = submission_id;
}

unfoldable pub finish : ℕ → DatabricksPublication → DatabricksPublication
finish now p = record p {
  state = if is_some p.confirmed_at then complete else unchanged;
  active_target_key = none;
  cleanup_updated_at = some now;
  recovery_token = none;
  recovery_expires_at = none;
  last_error_code = none;
  last_error_summary = "";
}

-- An exception of a call to the connector: a `ConnectorError`, or any other.
pub data CallError : Type 0 where
  connector_error : ConnectorFailure → CallError
  other_error : CallError

-- what the credentials and the connector answer
pub record Answers : Type 0 where
  pub owner_active : Bool
  -- the connection's generation, if the credentials could be decrypted
  pub generation : Option (Option String)
  -- the locator and the connector, then whether the commit was found, then the cleanup
  pub opening : Result CallError (Unit {0})
  pub reconciled : Result CallError Bool
  pub cleaned : Result CallError (Unit {0})

abbrev pub same_generation : Option String → String → Bool
same_generation none current = false
same_generation (some generation) current = str_eq generation current

-- the state of a record whose recovery failed, by the state in which it was taken up
abbrev pub failed_state : PublicationState → PublicationState
failed_state state = if is_submitted_state state then uncertain else cleanup_pending

-- the two handlers
unfoldable pub handle_error :
    ℕ → PublicationState → CallError → DatabricksPublication → DatabricksPublication
unfolding defer_recovery
handle_error now state (connector_error failure) p =
    defer_recovery now failure.code failure.summary 300 (some (failed_state state)) p
handle_error now state other_error p =
    defer_recovery now "recovery_unavailable"
      "Databricks recovery could not be confirmed; the publication record remains available for retry."
      300 (some (failed_state state)) p
