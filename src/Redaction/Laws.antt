-- ===== src/Redaction/Laws.antt =====
-- What a redacted payload holds under each key.
use user_token_management_ap.Prelude.{
  String, ◌≡◌, refl, Option, none, some, true, false, str_eq, eq_iff, arith, if◌then◌else◌, Bool,
  ◌&&◌,
}
use user_token_management_ap.Json.{
  Fields, Value, Items, null, boolean, int, negative, float, text, array, object, nil, cons, end,
  field, get,
}
use user_token_management_ap.Redaction.{
  secret_key, sentinel_replacement, redact_mapping, redact_value, redact_items,
}

abbrev pub redacted_entry : (String → String) → String → Option Value → Option Value
redacted_entry redact_text k none = none
redacted_entry redact_text k (some v) =
    some (if secret_key k then sentinel_replacement else redact_value redact_text v)

-- Looking up a key in a redacted mapping gives nothing where the payload has no such key, the
-- sentinel where the key names a secret, and the redacted value otherwise.
pub get-redact_mapping :
    (redact_text : String → String) (k : String) (payload : Fields)
    → get k (redact_mapping redact_text payload) ≡ redacted_entry redact_text k (get k payload)
unfolding get redact_mapping
get-redact_mapping redact_text k end = refl
get-redact_mapping redact_text k (field j v fs) =
    ground (arith, eq_iff j k, get-redact_mapping redact_text k fs)

abbrev is_sentinel : Value → Bool
is_sentinel (text s) = str_eq s "[redacted]"
is_sentinel v = false

-- Whether every entry under a secret key, at any depth, is the sentinel.
mutual
  pub clean_value : Value → Bool
  clean_value (array vs) = clean_items vs
  clean_value (object fs) = clean_fields fs
  clean_value v = true

  pub clean_items : Items → Bool
  clean_items nil = true
  clean_items (cons v vs) = clean_value v && clean_items vs

  pub clean_fields : Fields → Bool
  clean_fields end = true
  clean_fields (field k v fs) =
      (if secret_key k then is_sentinel v else clean_value v) && clean_fields fs

mutual
  unfolding redact_value redact_items redact_mapping clean_value clean_items clean_fields

  redact_value-clean : (r : String → String) (v : Value) → clean_value (redact_value r v) ≡ true
  redact_value-clean r null = refl
  redact_value-clean r (boolean b) = refl
  redact_value-clean r (int n) = refl
  redact_value-clean r (negative n) = refl
  redact_value-clean r (float z s) = refl
  redact_value-clean r (text s) = refl
  redact_value-clean r (array vs) = redact_items-clean r vs
  redact_value-clean r (object fs) = redact_fields-clean r fs

  redact_items-clean : (r : String → String) (vs : Items) → clean_items (redact_items r vs) ≡ true
  redact_items-clean r nil = refl
  redact_items-clean r (cons v vs) = ground (arith, redact_value-clean r v, redact_items-clean r vs)

  redact_fields-clean :
      (r : String → String) (fs : Fields) → clean_fields (redact_mapping r fs) ≡ true
  redact_fields-clean r end = refl
  redact_fields-clean r (field k v fs) =
      ground (arith, redact_value-clean r v, redact_fields-clean r fs)

-- Redaction leaves no value under a secret key, however deep the key stands in the payload.
pub redact_mapping-clean :
    (redact_text : String → String) (payload : Fields)
    → clean_fields (redact_mapping redact_text payload) ≡ true
redact_mapping-clean redact_text payload = redact_fields-clean redact_text payload
