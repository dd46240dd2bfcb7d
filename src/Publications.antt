-- ===== src/Publications.antt =====
-- app/services/databricks_publication.py: the durable record of a publication and its fence around the
-- target table. The children hold the events of a write and the recovery. Parameters: the digest of a
-- target, the text of a locator, and what the connector answers. An error leaves the table as it was.
pub mod Event
pub mod Record
pub mod Takeover
pub mod Recovery
pub mod Fence
pub mod Writes
pub mod Honest
pub mod Ends
mod Tests
use user_token_management_ap.Prelude.{
  ℕ, String, Bool, true, false, not, ◌&&◌, Option, none, some, List, [], ◌∷◌, map, any, ◌==◌,
  str_eq, if◌then◌else◌,
}

pub data PublicationState : Type 0 where
  preparing staging publishing committed uncertain cleanup_pending cleanup_required :
      PublicationState
  complete unchanged : PublicationState

-- `DatabricksPublication`, without the times of its row
pub record DatabricksPublication : Type 0 where
  pub run_id : ℕ
  pub user_id : ℕ
  pub workspace_id : String
  pub connection_generation : String
  pub target_key : String
  pub active_target_key : Option String
  pub target_locator_json : String
  pub write_mode : String
  pub staging_name : String
  pub state : PublicationState
  pub submission_id : ℕ
  pub staged_rows : ℕ
  pub staged_bytes : ℕ
  pub submitted_at : Option ℕ
  pub confirmed_at : Option ℕ
  pub cleanup_updated_at : Option ℕ
  pub recovery_token : Option ℕ
  pub recovery_expires_at : Option ℕ
  pub last_error_code : Option String
  pub last_error_summary : String

pub data PublicationError : Type 0 where
  -- `ConnectorError` by its code, `ValueError`, and the database's own refusal of a second key
  worker_lost destination_conflict credentials_stale publish_uncertain : PublicationError
  value_error integrity_error : PublicationError

abbrev pub has_key : String → Option String → Bool
has_key key none = false
has_key key (some k) = str_eq k key

-- another run's record that holds this active key
abbrev pub is_rival : ℕ → String → DatabricksPublication → Bool
is_rival run_id key p = not (p.run_id == run_id) && has_key key p.active_target_key

-- whether the unique column admits this row beside those of other runs
abbrev pub admits : DatabricksPublication → List DatabricksPublication → Bool
admits row table = elim row.active_target_key [
  | none ↦ true
  | some key ↦ not (any (is_rival row.run_id key) table)
]

unfoldable pub put_record :
    DatabricksPublication → List DatabricksPublication → List DatabricksPublication
put_record row table = map (λ p. if p.run_id == row.run_id then row else p) table
