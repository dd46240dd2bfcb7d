-- ===== src/Runs/Invariant.antt =====
-- What holds of every run between two operations: the lease columns follow the status, and the
-- event log is in the order of its numbers.
use user_token_management_ap.Prelude.{
  ℕ, ◌+◌, ◌<◌, ◌≤◌, String, true, false, ◌≡◌, refl, Option, some, is_some, List, [], ◌∷◌, ◌++◌, ok,
  >>=-eq-ok, none, arith, subst, sym, ap, ◌∙◌, Bool-cases, inl, inr, passed,
}
use user_token_management_ap.Json.{Fields}
use user_token_management_ap.Runs.Status.{Status, Stage, is_worker_owned, is_terminal}
use user_token_management_ap.Runs.Row.{Run, Work, RunEvent, Level}
use user_token_management_ap.Runs.Machine.{set_status}
use user_token_management_ap.Runs.Events.{append_event, append_and_record, logged, record_event}
use user_token_management_ap.Runs.Lease.{refresh_and_require_lease}

-- A run has a lease, an expiry and a worker exactly while a worker owns it, and an end exactly when
-- it is terminal.
pub record IsWellFormed (run : Run) : Type 0 where
  pub leased : is_some run.lease_token ≡ is_worker_owned run.status
  pub expiring : is_some run.lease_expires_at ≡ is_worker_owned run.status
  pub worked : is_some run.worker_id ≡ is_worker_owned run.status
  pub finished : is_some run.finished_at ≡ is_terminal run.status

-- The numbers of the events rise from above `lo` and stay within `hi`.
abbrev pub IsOrdered : ℕ → List RunEvent → ℕ → Type 0
IsOrdered lo [] hi = lo ≤ hi
IsOrdered lo (e ∷ es) hi = (lo < e.sequence) × IsOrdered e.sequence es hi

pub record IsSound (w : Work) : Type 0 where
  pub row : IsWellFormed w.run
  pub log : IsOrdered 0 w.events w.run.next_event_sequence

pub IsOrdered-append :
    (lo : ℕ) (es : List RunEvent) (hi : ℕ) (e : RunEvent)
    → IsOrdered lo es hi
    → e.sequence ≡ hi + 1
    → IsOrdered lo (es ++ e ∷ []) (hi + 1)
IsOrdered-append lo [] hi e h q = (omega arith, omega arith)
IsOrdered-append lo (x ∷ es) hi e h q = (h.0, IsOrdered-append x.sequence es hi e h.1 q)

module _ (redact_text : String → String) (now : ℕ) (message : String) (stage : Option Stage)
    (level : Level) (detail : Option Fields) where
  -- An append that succeeds leaves the logged session.
  pub append_event_lem :
      (w : Work) {w' : Work}
      → append_event redact_text now message stage level detail w ≡ ok w'
      → w' ≡ logged redact_text now message stage level detail w
  unfolding append_event
  append_event_lem w h = elim (Bool-cases w.stored) [
    | inl there ↦ cc (rw there at h)
    | inr gone ↦ cc (rw gone at h)
  ]

  pub logged-IsSound :
      (w : Work) → IsSound w → IsSound (logged redact_text now message stage level detail w)
  unfolding logged
  logged-IsSound w s = record {
    row = record {
      leased = s.row.leased;
      expiring = s.row.expiring;
      worked = s.row.worked;
      finished = s.row.finished;
    };
    log = IsOrdered-append 0 w.events w.run.next_event_sequence _ s.log refl;
  }

  pub append_event-IsSound :
      (w : Work) {w' : Work}
      → append_event redact_text now message stage level detail w ≡ ok w'
      → IsSound w
      → IsSound w'
  append_event-IsSound w h s = subst IsSound (sym (append_event_lem w h)) (logged-IsSound w s)

  pub append_event-status :
      (w : Work) {w' : Work}
      → append_event redact_text now message stage level detail w ≡ ok w'
      → w'.run.status ≡ w.run.status
  unfolding logged
  append_event-status w h = ap (λ v. v.run.status) (append_event_lem w h)

pub set_status-IsWellFormed :
    (now : ℕ) (run : Run) (status : Status) (token : Option ℕ)
    → is_terminal status ≡ true
    → IsWellFormed (set_status now run status token)
unfolding set_status is_terminal is_worker_owned
set_status-IsWellFormed now run status token h = ground arith

-- A well-formed row in the given status, with the event counter of the run that it replaces.
pub record Ends (run r : Run) (status : Status) : Type 0 where
  pub row : IsWellFormed r
  pub status_is : r.status ≡ status
  pub counter : r.next_event_sequence ≡ run.next_event_sequence

pub Ends-IsSound :
    (w : Work) (r : Run) (status : Status) {w' : Work}
    → w' ≡ record w { run = r }
    → Ends w.run r status
    → IsSound w
    → IsSound w' × (w'.run.status ≡ status)
Ends-IsSound w r status {w'} same e s = (
  subst IsSound (sym same)
      (record { row = e.row; log = subst (IsOrdered 0 w.events) (sym e.counter) s.log }),
  ap (λ v. v.run.status) same ∙ e.status_is,
)

-- An operation that writes such a row and then one event.
pub append_event-Ends :
    (redact_text : String → String) (now : ℕ) (message : String) (stage : Option Stage)
    (level : Level) (detail : Option Fields) (w : Work) (r : Run) (status : Status) {w' : Work}
    → append_event redact_text now message stage level detail (record w { run = r }) ≡ ok w'
    → Ends w.run r status
    → IsSound w
    → IsSound w' × (w'.run.status ≡ status)
append_event-Ends redact_text now message stage level detail w r status h e s = (
  append_event-IsSound redact_text now message stage level detail (record w { run = r }) h
      (record { row = e.row; log = subst (IsOrdered 0 w.events) (sym e.counter) s.log }),
  append_event-status redact_text now message stage level detail (record w { run = r }) h
      ∙ e.status_is,
)

record_event-IsSound :
    (kind : String) (actor target : Option ℕ) (outcome : String) (w : Work)
    → IsSound w
    → IsSound (record_event kind actor target outcome w)
unfolding record_event
record_event-IsSound kind actor target outcome w s = record { row = s.row; log = s.log }

record_event-status :
    (kind : String) (actor target : Option ℕ) (outcome : String) (w : Work)
    → (record_event kind actor target outcome w).run.status ≡ w.run.status
unfolding record_event
record_event-status kind actor target outcome w = refl

-- The same for an operation that also writes an audit row.
pub append_and_record-Ends :
    (redact_text : String → String) (now : ℕ) (message : String) (stage : Option Stage)
    (level : Level) (kind outcome : String) (w : Work) (r : Run) (status : Status) {w' : Work}
    → append_and_record redact_text now message stage level kind outcome (record w { run = r })
      ≡ ok w'
    → Ends w.run r status
    → IsSound w
    → IsSound w' × (w'.run.status ≡ status)
unfolding append_and_record
append_and_record-Ends redact_text now message stage level kind outcome w r status {w'} h e s =
    let (v, wrote, done) =
      >>=-eq-ok (append_event redact_text now message stage level none (record w { run = r }))
        (λ v. ok (record_event kind none (some r.user_id) outcome v)) h in
    let (sound, at) =
      append_event-Ends redact_text now message stage level none w r status wrote e s in
    let same : record_event kind none (some r.user_id) outcome v ≡ w' = cc done in
    (
      subst IsSound same (record_event-IsSound kind none (some r.user_id) outcome v sound),
      subst (λ x. x.run.status ≡ status) same
          (record_event-status kind none (some r.user_id) outcome v ∙ at),
    )

-- What a passed lease check says.
pub refresh_and_require_lease_lem :
    (now token : ℕ) (w : Work) {u : Unit {0}}
    → refresh_and_require_lease now token w ≡ ok u
    → (w.stored ≡ true)
      × (w.run.lease_token ≡ some token)
      × (passed w.run.lease_expires_at now ≡ false)
unfolding refresh_and_require_lease
refresh_and_require_lease_lem now token w h = ground arith

-- A worker can hold the lease of no run but one that a worker owns.
pub lease-is_worker_owned :
    (run : Run) (token : ℕ)
    → IsWellFormed run
    → run.lease_token ≡ some token
    → is_worker_owned run.status ≡ true
lease-is_worker_owned run token s h = ground arith

-- A worker that passes the lease check holds a run that a worker owns.
pub refresh-is_worker_owned :
    (now token : ℕ) (w : Work) {u : Unit {0}}
    → refresh_and_require_lease now token w ≡ ok u
    → IsSound w
    → is_worker_owned w.run.status ≡ true
refresh-is_worker_owned now token w h s =
    lease-is_worker_owned w.run token s.row (refresh_and_require_lease_lem now token w h).1
