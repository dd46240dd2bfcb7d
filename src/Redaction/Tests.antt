-- ===== src/Redaction/Tests.antt =====
-- The theorems about redaction on a concrete payload.
use user_token_management_ap.Prelude.{true, ◌≡◌}
use user_token_management_ap.Json.{Fields, text, array, object, nil, cons, end, field}
use user_token_management_ap.Redaction.{redact_mapping}
use user_token_management_ap.Redaction.Laws.{clean_fields, redact_mapping-clean}

abbrev payload : Fields
payload =
    field "stage" (text "load")
      (field "items" (array (cons (object (field "Access-Token" (text "t0p") end)) nil)) end)

redact_mapping-clean_example : clean_fields (redact_mapping (λ s. s) payload) ≡ true
redact_mapping-clean_example = redact_mapping-clean (λ s. s) payload
