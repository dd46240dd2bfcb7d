-- ===== src/Runs/Reach.antt =====
-- The life of a run: the operations of app/services/pipeline_runs.py on it, by its workers, its owner
-- and the claims of the queue, in any sequence and at any readings of the clock.
use user_token_management_ap.Prelude.{ℕ, String, ◌≡◌, Option, ok}
use user_token_management_ap.Runs.Row.{Run, Work}
use user_token_management_ap.Runs.Enqueue.{queue_new, Pipeline, Snapshot, Request}
use user_token_management_ap.Runs.Invariant.{IsSound}
use user_token_management_ap.Runs.Step.{Step, Step-IsSound, queue_new-IsSound}

pub data Reach (redact_text : String → String) (w : Work) : Work → Type 0 where
  here : Reach redact_text w w
  next : {v u : Work} → Reach redact_text w v → Step redact_text v u → Reach redact_text w u

-- Whatever operations commit on a sound run, in whatever order, the run stays sound: its lease columns
-- follow its status and its events keep the order of their numbers.
pub Reach-IsSound :
    (redact_text : String → String) {w w' : Work} → IsSound w → Reach redact_text w w' → IsSound w'
Reach-IsSound redact_text s here = s
Reach-IsSound redact_text s (next r st) =
    Step-IsSound redact_text st (Reach-IsSound redact_text s r)

-- Whatever operations of its workers, its owner and the queue commit on a run since it was queued, one
-- after the other, in whatever order and at any readings of the clock: the run has a lease token, an expiry and a worker
-- exactly while a worker owns it, an end exactly when it is terminal, and its events stand in the
-- order of their numbers.
pub queued_Reach-IsSound :
    (redact_text : String → String) (clock : ℕ → ℕ) (user : ℕ) (pipeline : Pipeline)
    (snapshot : Snapshot) (request : Request) (parent : Option Run) {w w' : Work}
    → queue_new redact_text clock user pipeline snapshot request parent ≡ ok w
    → Reach redact_text w w'
    → IsSound w'
queued_Reach-IsSound redact_text clock user pipeline snapshot request parent h r =
    Reach-IsSound redact_text
      (queue_new-IsSound redact_text clock user pipeline snapshot request parent h).0 r
