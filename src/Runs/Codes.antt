-- ===== src/Runs/Codes.antt =====
-- `TransferErrorCode` of app/connectors/errors.py and `DataImpact` of app/domain/feedback.py.
use user_token_management_ap.Prelude.{String}

pub data TransferErrorCode : Type 0 where
  credentials_missing credentials_stale authentication_failed : TransferErrorCode
  permission_denied endpoint_blocked tls_failed connection_timeout : TransferErrorCode
  provider_unavailable rate_limited source_not_found : TransferErrorCode
  destination_not_found schema_drift sensitive_data_guardrail_blocked : TransferErrorCode
  unsupported_type source_limit_exceeded spool_limit_exceeded : TransferErrorCode
  run_timeout destination_conflict compute_not_ready : TransferErrorCode
  metadata_incomplete partial_write publish_uncertain : TransferErrorCode
  verification_failed cancelled_by_user worker_lost internal_error : TransferErrorCode

-- `TransferErrorCode | str`: a code of this version, or a text that is none of them.
pub data FailureCode : Type 0 where
  known : TransferErrorCode → FailureCode
  unknown : String → FailureCode

pub data DataImpact : Type 0 where
  not_applicable unchanged rolled_back changed uncertain verified : DataImpact

unfoldable pub error_text : TransferErrorCode → String
error_text credentials_missing = "credentials_missing"
error_text credentials_stale = "credentials_stale"
error_text authentication_failed = "authentication_failed"
error_text permission_denied = "permission_denied"
error_text endpoint_blocked = "endpoint_blocked"
error_text tls_failed = "tls_failed"
error_text connection_timeout = "connection_timeout"
error_text provider_unavailable = "provider_unavailable"
error_text rate_limited = "rate_limited"
error_text source_not_found = "source_not_found"
error_text destination_not_found = "destination_not_found"
error_text schema_drift = "schema_drift"
error_text sensitive_data_guardrail_blocked = "sensitive_data_guardrail_blocked"
error_text unsupported_type = "unsupported_type"
error_text source_limit_exceeded = "source_limit_exceeded"
error_text spool_limit_exceeded = "spool_limit_exceeded"
error_text run_timeout = "run_timeout"
error_text destination_conflict = "destination_conflict"
error_text compute_not_ready = "compute_not_ready"
error_text metadata_incomplete = "metadata_incomplete"
error_text partial_write = "partial_write"
error_text publish_uncertain = "publish_uncertain"
error_text verification_failed = "verification_failed"
error_text cancelled_by_user = "cancelled_by_user"
error_text worker_lost = "worker_lost"
error_text internal_error = "internal_error"

unfoldable pub code_text : FailureCode → String
unfolding error_text
code_text (known c) = error_text c
code_text (unknown s) = s

unfoldable pub impact_text : DataImpact → String
impact_text not_applicable = "not_applicable"
impact_text unchanged = "unchanged"
impact_text rolled_back = "rolled_back"
impact_text changed = "changed"
impact_text uncertain = "uncertain"
impact_text verified = "verified"

pub DataImpact-discrete : Discrete DataImpact
DataImpact-discrete = hlevel
