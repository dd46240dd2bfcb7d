-- ===== src/Redaction.antt =====
-- app/connectors/redaction.py: which keys name secrets, and the walk over nested payloads.
-- The substitutions of `redact_text` are regular expressions; they are the parameter `redact_text`
-- of the definitions that call it. Keys are folded as ASCII text.
pub mod Keys
pub mod Laws
mod Tests
pub use Keys.{secret_key}
use user_token_management_ap.Prelude.{String, Bool, true, false, if◌then◌else◌}
use user_token_management_ap.Json.{
  Value, Items, Fields, null, boolean, int, negative, float, text, array, object, nil, cons, end,
  field, put,
}

abbrev pub sentinel_replacement : Value
sentinel_replacement = text "[redacted]"

-- The dict is rebuilt entry by entry, with the keys in their order; the keys of a dict are distinct.
unfoldable mutual
  pub redact_value : (String → String) → Value → Value
  redact_value redact_text null = null
  redact_value redact_text (boolean b) = boolean b
  redact_value redact_text (int n) = int n
  redact_value redact_text (negative n) = negative n
  redact_value redact_text (float z s) = float z s
  redact_value redact_text (text s) = text (redact_text s)
  redact_value redact_text (array vs) = array (redact_items redact_text vs)
  redact_value redact_text (object fs) = object (redact_mapping redact_text fs)

  pub redact_items : (String → String) → Items → Items
  redact_items redact_text nil = nil
  redact_items redact_text (cons v vs) =
      cons (redact_value redact_text v) (redact_items redact_text vs)

  pub redact_mapping : (String → String) → Fields → Fields
  redact_mapping redact_text end = end
  redact_mapping redact_text (field k v fs) =
      field k (if secret_key k then sentinel_replacement else redact_value redact_text v)
        (redact_mapping redact_text fs)
