-- ===== src/Publications/Tests.antt =====
-- The theorems about publications on concrete tables.
use user_token_management_ap.Prelude.{
  false, ℕ, String, true, ◌≡◌, refl, none, some, List, [], ◌∷◌, Result, ok, err, ◌==◌,
}
use user_token_management_ap.Identity.{find}
use user_token_management_ap.Identity.Samples.{ticks}
use user_token_management_ap.Runs.Status.{failed}
use user_token_management_ap.Publications.{
  cleanup_required, uncertain, complete, DatabricksPublication, PublicationError,
  destination_conflict,
}
use user_token_management_ap.Publications.Event.{Event}
use user_token_management_ap.Publications.Record.{
  Locator, Caller, new_record, target_key, record_publication_event,
}
use user_token_management_ap.Publications.Recovery.{recover}
use user_token_management_ap.Publications.Takeover.{is_recoverable, Answers, other_error}
use user_token_management_ap.Publications.Fence.{IsFencing}
use user_token_management_ap.Publications.Writes.{nothing, more, writes, WritesAll-fences}
use user_token_management_ap.Publications.Honest.{IsHeld, IsHonest, quiet, recover-IsHonest}
use user_token_management_ap.Publications.Ends.{recover-strands, recover-completes}

abbrev digest : List String → String
digest [] = ""
digest (part ∷ parts) = part

abbrev fold : String → String
fold s = s

abbrev locator_text : Locator → String
locator_text locator = "{}"

abbrev sales : Locator
sales = record { workspace_id = "w1"; catalog = "main"; schema_name = "s"; table = "t" }

abbrev worker : Caller
worker = record {
  run_id = 1;
  lease_token = 11;
  user_id = 7;
  locator = sales;
  connection_generation = "g1";
}

abbrev rival : Caller
rival = record worker { run_id = 2; lease_token = 22 }

abbrev prepared : List DatabricksPublication
prepared = new_record locator_text "w1" worker "append" "staging" ∷ []

abbrev submitted_row : DatabricksPublication
submitted_row = record (new_record locator_text "w1" worker "append" "staging") {
  state = uncertain;
  submitted_at = some 5;
  recovery_token = some 33;
  recovery_expires_at = some 90;
}

abbrev table_or : Result PublicationError (List DatabricksPublication) → List DatabricksPublication
table_or (ok table) = table
table_or (err e) = []

abbrev staged : List DatabricksPublication
staged = table_or (
    record_publication_event digest fold locator_text 4
      (some (record { user_id = 7; lease_token = some 11 })) worker Event.staging_ready prepared)

staged_lem :
    record_publication_event digest fold locator_text 4
      (some (record { user_id = 7; lease_token = some 11 }))
      worker
      Event.staging_ready
      prepared
    ≡ ok staged
unfolding record_publication_event
staged_lem = refl

fencing_lem : IsFencing 1 (target_key digest fold sales) prepared
unfolding IsFencing target_key find new_record
fencing_lem = (new_record locator_text "w1" worker "append" "staging", refl, refl, refl)

absent_lem : find (λ p. p.run_id == 2) staged ≡ none
unfolding find record_publication_event
absent_lem = refl

WritesAll-fences_example :
    record_publication_event digest fold locator_text 6
      (some (record { user_id = 7; lease_token = some 22 }))
      rival
      (Event.prepare_started "append" "other")
      staged
    ≡ err destination_conflict
WritesAll-fences_example =
    WritesAll-fences digest fold locator_text 1 {table = prepared} {table' = staged} 6
      (some (record { user_id = 7; lease_token = some 22 })) rival "append" "other" fencing_lem
      (more nothing (
        writes 4 (some (record { user_id = 7; lease_token = some 11 })) worker Event.staging_ready
          refl staged_lem))
      refl refl absent_lem

held_lem : IsHeld 1 33 submitted_row (submitted_row ∷ [])
unfolding IsHeld find new_record
held_lem = (refl, refl)

abbrev failing : Answers
failing = record {
  owner_active = true;
  generation = some (some "g1");
  opening = ok tt;
  reconciled = err other_error;
  cleaned = ok tt;
}

abbrev confirming : Answers
confirming = record failing { reconciled = ok true }

recover-IsHonest_example :
    IsHonest 1
      (err other_error)
      submitted_row.active_target_key
      submitted_row.confirmed_at
      (recover quiet ticks 1 33 failing submitted_row (submitted_row ∷ []))
recover-IsHonest_example =
    recover-IsHonest ticks 1 33 failing submitted_row (submitted_row ∷ []) refl held_lem

recover-completes_example :
    (q : DatabricksPublication) × (find
        (λ r. r.run_id == 1)
        (recover quiet ticks 1 33 confirming submitted_row (submitted_row ∷ []))
      ≡ some q)
    × (q.state ≡ complete)
    × (q.confirmed_at ≡ some 13)
    × (q.active_target_key ≡ none)
    × (q.recovery_token ≡ none)
unfolding new_record
recover-completes_example =
    recover-completes ticks 1 33 confirming submitted_row (submitted_row ∷ []) (some "g1") tt tt
      refl held_lem refl refl refl refl refl refl

-- another recovery takes the record
abbrev taken : ℕ → List DatabricksPublication → List DatabricksPublication
taken k table = record submitted_row { recovery_token = some 44 } ∷ []

abbrev unreadable : Answers
unreadable = record failing { generation = none }

recover-strands_example :
    (q : DatabricksPublication) × (find
        (λ r. r.run_id == 1)
        (recover quiet ticks 1 33 unreadable submitted_row (submitted_row ∷ []))
      ≡ some q)
    × (q.state ≡ cleanup_required)
    × (q.active_target_key ≡ submitted_row.active_target_key)
    × (is_recoverable 999 failed none q ≡ false)
unfolding new_record
recover-strands_example =
    recover-strands ticks 1 33 unreadable submitted_row (submitted_row ∷ []) 999 failed none
      held_lem refl refl refl
