-- ===== src/Runs/Events.antt =====
-- The event log of a run and the audit log: `append_event` and `events_after` of
-- app/services/pipeline_runs.py, `record_event` of app/services/audit.py.
use user_token_management_ap.Prelude.{
  ℕ, ◌+◌, String, not, Option, none, some, List, [], ◌∷◌, ◌++◌, Result, ok, ◌>>=◌, ◌>>◌, raise_if,
  or_else, clip, select, ltb,
}
use user_token_management_ap.Json.{Fields, end, field}
use user_token_management_ap.Redaction.{redact_mapping}
use user_token_management_ap.Runs.Status.{Stage}
use user_token_management_ap.Runs.Row.{Run, Work, RunEvent, Level, RunError, run_conflict}

-- `json.dumps(redact_mapping(detail)) if detail else ""`
abbrev stored_detail : (String → String) → Option Fields → Option Fields
stored_detail redact_text none = none
stored_detail redact_text (some end) = none
stored_detail redact_text (some (field k v fs)) = some (redact_mapping redact_text (field k v fs))

-- the row's counter moves on by one
unfoldable pub next_sequence : Run → Run
next_sequence run = record run { next_event_sequence = run.next_event_sequence + 1 }

module _ (redact_text : String → String) where
  -- the session after the event is added, with the counter of the row moved on
  unfoldable pub logged : ℕ → String → Option Stage → Level → Option Fields → Work → Work
  unfolding next_sequence
  logged now message stage level detail w = record w {
    run = next_sequence w.run;
    events =
        w.events
        ++ record {
          run_id = w.run.id;
          sequence = w.run.next_event_sequence + 1;
          occurred_at = now;
          level = level;
          stage = or_else stage w.run.stage;
          message = clip 500 (redact_text message);
          detail = stored_detail redact_text detail;
        }
          ∷ [];
  }

  -- `append_event`
  unfoldable pub append_event :
      ℕ → String → Option Stage → Level → Option Fields → Work → Result RunError Work
  unfolding logged
  append_event now message stage level detail w = do
    raise_if (not w.stored) run_conflict
    ok (logged now message stage level detail w)

-- `events_after`: the events past a sequence number, in order.
unfoldable pub events_after : ℕ → Work → List RunEvent
events_after after_sequence w = select (λ e. ltb after_sequence e.sequence) w.events

-- `record_event`, without the detail document
unfoldable pub record_event : String → Option ℕ → Option ℕ → String → Work → Work
record_event event_type actor target outcome w = record w {
  audits =
      w.audits
      ++ record {
        event_type = event_type;
        actor_user_id = actor;
        target_user_id = target;
        outcome = outcome;
      }
        ∷ [];
}

module _ (redact_text : String → String) where
  -- the two calls with which an ending operation reports: an event, then an audit row about the owner
  unfoldable pub append_and_record :
      ℕ → String → Option Stage → Level → String → String → Work → Result RunError Work
  unfolding append_event record_event
  append_and_record now message stage level event_type outcome w = do
    w' ← append_event redact_text now message stage level none w
    ok (record_event event_type none (some w.run.user_id) outcome w')
