-- ===== src/Runs/Review.antt =====
-- Whether a run's destination is uncertain, and whether an operator has reviewed it:
-- `_run_requires_reconciliation_review` and `_reconciliation_reviewed` of
-- app/services/pipeline_runs.py.
use user_token_management_ap.Prelude.{Bool, true, false, not, ◌&&◌, ◌||◌, Option, some, is_some}
use user_token_management_ap.Json.{Value, Fields, Document, text, dict, get, load, fields_of, flag}
use user_token_management_ap.Redaction.Keys.{codes, fold_codes, same_codes}
use user_token_management_ap.Runs.Status.{Status}
use user_token_management_ap.Runs.Codes.{DataImpact}
use user_token_management_ap.Runs.Row.{Run}

-- `status in {FAILED, CANCELLED}`
unfoldable pub is_stopped : Status → Bool
is_stopped Status.failed = true
is_stopped Status.cancelled = true
is_stopped _ = false

abbrev pub needs_reconciliation_status : Status → Bool
needs_reconciliation_status Status.failed_needs_reconciliation = true
needs_reconciliation_status _ = false

abbrev pub is_uncertain : Option DataImpact → Bool
is_uncertain (some DataImpact.uncertain) = true
is_uncertain _ = false

-- `str(value or "").casefold() == "uncertain"`: only a text can fold to that word.
unfoldable pub says_uncertain : Option Value → Bool
unfolding same_codes
says_uncertain (some (text s)) = same_codes (fold_codes (codes s)) (codes "uncertain")
says_uncertain _ = false

-- `known_safety_keys.intersection(facts)`
unfoldable pub has_safety_key : Fields → Bool
unfolding get
has_safety_key facts =
    is_some (get "data_impact" facts)
    || is_some (get "reconciliation_required" facts)
    || is_some (get "last_safe_stage" facts)

abbrev pub facts_need_review : Run → Document → Bool
facts_need_review run (dict facts) =
    is_uncertain run.data_impact
    || says_uncertain (get "data_impact" facts)
    || flag (get "reconciliation_required" facts)
    || is_stopped run.status && not (has_safety_key facts)
facts_need_review run _ = is_stopped run.status

unfoldable pub run_requires_reconciliation_review : Run → Bool
unfolding is_stopped says_uncertain has_safety_key get
run_requires_reconciliation_review run =
    needs_reconciliation_status run.status
    || run.reconciliation_required
    || facts_need_review run (load run.verification)

unfoldable pub reconciliation_reviewed : Run → Bool
unfolding get
reconciliation_reviewed run =
    is_some run.reconciliation_reviewed_at
    || flag (get "reconciliation_reviewed_at" (fields_of (load run.verification)))

-- the run blocks a retry of its pipeline
unfoldable pub unresolved : Run → Bool
unfolding run_requires_reconciliation_review reconciliation_reviewed
unresolved run = run_requires_reconciliation_review run && not (reconciliation_reviewed run)
