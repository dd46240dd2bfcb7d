-- ===== src/Publications/Event.antt =====
-- The events that a Databricks write reports to app/services/databricks_publication.py.
use user_token_management_ap.Prelude.{ℕ, String, Option}

-- the error of a connector, as far as a record keeps it
pub record ConnectorFailure : Type 0 where
  pub code : String
  pub summary : String

-- the values of `event`, with the arguments that their branches read
pub data Event : Type 0 where
  prepare_started : (write_mode staging_name : String) → Event
  staging_ready publish_submitted committed cleanup_pending cleanup_confirmed abort_confirmed :
      Event
  batch_written : (rows bytes_written : ℕ) → Event
  publish_uncertain abort_uncertain : (error : Option ConnectorFailure) → Event
  -- any other text
  unsupported : Event
