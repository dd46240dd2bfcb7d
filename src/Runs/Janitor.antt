-- ===== src/Runs/Janitor.antt =====
-- `janitor` of app/services/pipeline_runs.py on the tables of runs, events, publications and cached
-- catalogs. Its sweep of the spool folder is file handling and is left out.
pub mod Laws
use user_token_management_ap.Prelude.{
  ℕ, ◌+◌, ◌*◌, ◌-◌, String, Bool, true, false, not, ◌&&◌, ◌||◌, Option, some, is_some, List, [],
  ◌∷◌, ◌++◌, map, ltb, ◌==◌, any, select, length, ahead, str_eq, if◌then◌else◌,
}
use user_token_management_ap.Runs.Status.{is_terminal}
use user_token_management_ap.Runs.Row.{Run, RunEvent, Work}
use user_token_management_ap.Runs.Review.{unresolved}

-- `DatabricksPublication`, as far as the janitor reads it
pub record Publication : Type 0 where
  pub run_id : ℕ
  pub state : String
  pub active_target_key : Option String

pub record Retention : Type 0 where
  pub pipeline_event_retention_days : ℕ
  pub pipeline_run_retention_days : ℕ

-- `timedelta(days=n)`, in microseconds
abbrev pub days : ℕ → ℕ
days n = n * 86400000000

-- `finished_at is not None and finished_at < now - timedelta(days=n)`
abbrev pub older : Option ℕ → ℕ → ℕ → Bool
older Option.none n now = false
older (some t) n now = ltb (t + days n) now

unfoldable pub is_open_publication : Publication → Bool
is_open_publication p =
    not (str_eq p.state "complete" || str_eq p.state "unchanged") || is_some p.active_target_key

-- `protected_publication_run_ids`
unfoldable pub protected_by_publication : List Publication → ℕ → Bool
unfolding is_open_publication
protected_by_publication publications run_id =
    any (λ p. is_open_publication p && p.run_id == run_id) publications

abbrev pub holds_evidence : Run → Bool
holds_evidence run = is_terminal run.status && unresolved run

-- `protected_event_run_ids`
unfoldable pub protects_events : List Publication → List Work → ℕ → Bool
unfolding is_terminal unresolved protected_by_publication
protects_events publications table run_id =
    any (λ w. holds_evidence w.run && w.run.id == run_id) table
    || protected_by_publication publications run_id

-- the events that stay
unfoldable pub keeps_event : ℕ → Retention → List Publication → List Work → RunEvent → Bool
unfolding protects_events
keeps_event now settings publications table e =
    not (ltb (e.occurred_at + days settings.pipeline_event_retention_days) now)
    || protects_events publications table e.run_id

unfoldable pub purge_events : ℕ → Retention → List Publication → List Work → Work → Work
unfolding keeps_event
purge_events now settings publications table w = record w {
  events = select (keeps_event now settings publications table) w.events;
}

-- the runs that stay
unfoldable pub keeps_run : ℕ → Retention → List Publication → Work → Bool
unfolding is_terminal protected_by_publication unresolved
keeps_run now settings publications w =
    not
      (is_terminal w.run.status && older w.run.finished_at settings.pipeline_run_retention_days now)
    || protected_by_publication publications w.run.id
    || unresolved w.run

-- the sum of the events of a table
unfoldable pub count_events : List Work → ℕ
count_events [] = 0
count_events (w ∷ ws) = length w.events + count_events ws

pub record Swept : Type 0 where
  pub table : List Work
  pub cache : List ℕ
  pub events : ℕ
  pub runs : ℕ
  pub catalog_cache : ℕ

-- `janitor`; the cached catalogs are their `expires_at`.
unfoldable pub janitor : ℕ → Retention → List Publication → List ℕ → List Work → Swept
unfolding purge_events keeps_run count_events
janitor now settings publications cache table =
    let purged = map (purge_events now settings publications table) table in
    let kept = select (keeps_run now settings publications) purged in
    let fresh = select (λ expires_at. not (ltb expires_at now)) cache in
    record {
      table = kept;
      cache = fresh;
      events = count_events table - count_events purged;
      runs = length purged - length kept;
      catalog_cache = length cache - length fresh;
    }
