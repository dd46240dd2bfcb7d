-- ===== src/Runs.antt =====
-- The lifecycle of pipeline runs: app/services/pipeline_state.py and app/services/pipeline_runs.py,
-- with the rows of app/models.py. `Status`, `Codes` and `Row` have the data, `Machine` the two state
-- machines, `Facts` and `Review` the decisions about the destination, `Events` the event log, `Lease`,
-- `Lifecycle`, `Progress`, `Claim`, `Defer`, `Enqueue` and `Janitor` the operations.
pub mod Status
pub mod Codes
pub mod Row
pub mod Machine
pub mod Facts
pub mod Review
pub mod Events
pub mod Lease
pub mod Lifecycle
pub mod Progress
pub mod Claim
pub mod Defer
pub mod Enqueue
pub mod Invariant
pub mod Endings
pub mod Keeps
pub mod Advances
pub mod Reviewed
pub mod Step
pub mod Ended
pub mod Safety
pub mod Retry
pub mod Reach
pub mod Janitor
mod Samples
mod Tests
