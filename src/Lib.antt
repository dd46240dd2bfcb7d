-- ===== src/Lib.antt =====
-- A verification library for the data mover with its accounts, pipelines and runs: the part of it that
-- decides what happens to a pipeline run, to an outgoing message and to a request.
--
-- The program is a web application with a worker. The web side queues runs (`enqueue_run`) and asks for
-- their end (`request_cancel`); the worker claims a run under a lease (`claim_run`), renews the lease
-- while it moves data, and ends the run; both write to the run's row, its event log and the audit log in
-- one database session. A failure that leaves the destination uncertain must be reviewed before the
-- pipeline runs again, and a retention job must not remove what that decision rests on. Every payload
-- that is stored passes through a redaction. Mail goes through an outbox table that delivery workers
-- claim in the same way, and the login pages count requests in fixed windows. Accounts come from an
-- invitation or an approved registration; a sign-in opens a session whose refresh token is exchanged at
-- each use, and a new password, chosen or reset by a one-time token, ends the sessions before it. A run
-- that writes to Databricks keeps a record of its publication, which fences the target table and from
-- which a later recovery finds out what became of the write. The columns of a file are
-- profiled as it is uploaded; the casts chosen for columns, and the decimals of a destination that exists,
-- are checked before.
--
-- Files, with the code that they model:
--   Prelude           names and small helpers that every file shares
--   Json              what app code reads from a JSON column; Json/Laws has lookups after writes
--   Redaction         app/connectors/redaction.py; Redaction/Keys has `_secret_key`
--   Runs/Status       `PipelineRunStatus` of app/models.py, the tables of app/services/pipeline_state.py
--   Runs/Codes        app/connectors/errors.py `TransferErrorCode`, app/domain/feedback.py `DataImpact`
--   Runs/Row          `PipelineRun`, `PipelineRunEvent` and `AuditEvent` of app/models.py
--   Runs/Machine      `PipelineRunStateMachine`, and in Runs/Machine/Pure the one on plain values
--   Runs/Facts, Runs/Review   the decisions of app/services/pipeline_runs.py about the destination
--   Runs/Events, Lease, Lifecycle, Progress, Claim, Defer, Enqueue, Janitor (all under Runs)   the
--                     operations of app/services/pipeline_runs.py, one function for each
--   Runs/Invariant, Endings, Keeps, Advances, Reviewed, Step, Ended, Reach   soundness of a run and its
--                     preservation
--   Runs/Claim/Laws, Claim/Fences, Claim/Table, Defer/Laws, Janitor/Laws   what these leave
--   Runs/Safety, Retry   what a failure or a review means for the next enqueue
--   Mail              app/services/mailer.py with the rows of `EmailOutbox` and `EmailDeliveryState`
--   Identity          the rows of app/models.py that accounts share, and app/services/auth_common.py
--   Sessions          app/services/sessions.py: `create_session` and `revoke_session`; the children Login and
--                     Federated have sign-in, Rotate has `rotate_session`
--   Sessions/Rows, Lockout, Accept, Lapsed   the row of a user in the table, and what sign-in does with it
--   Sessions/Alive, Spent, Second, Replay   what the first and the second use of a token lead to
--   Profile           app/services/accounts.py; Profile/Cutoff has what a new password ends
--   Resets            app/services/password_reset.py
--   Enrollment        app/services/invitations.py and app/services/registration.py, in a child each;
--                     Addresses and Steps (under Enrollment) have the invariants of the users
--   Publications      app/services/databricks_publication.py: Record has the events of a write, Takeover and
--                     Recovery have the recovery of a publication that was left behind
--   Publications/Fence, Writes   the fence around a target, over the events of all runs
--   Publications/Honest, Ends    how a recovery ends
--   RateLimit         app/services/rate_limit.py with the rows of `RateLimitBucket`
--   Columns/Overrides, Selections   `parse_column_type_override_values` of app/domain/column_types.py
--   Columns/Decimals, Lossless      app/connectors/decimal_validation.py
--   Csv, Csv/Profile  app/domain/csv_inference.py; Csv/Counts has what a profile accounts for
--   Tests and Samples in each folder: the theorems at concrete rows
--
-- Conventions. Identifiers, tokens and worker names are numbers, times are microseconds, and
-- successive readings of the clock are an argument. A session is the record `Work`: one run, whether its
-- row still exists, its events and its audit rows. An operation returns the session that it commits, or
-- the error that it raises; a table is a list in which the database would find each row by its key, and
-- row locks are the order of the calls. Where a theorem is about a sequence of operations on a run, each
-- of them is alone from its read to its commit; of these, the source takes no row lock in
-- `request_cancel`, `record_reconciliation_review` and the lease check, so operations that overlap
-- there are outside those theorems. A JSON column holds its parsed document. No definition runs on
-- fuel but the printing of a number, which has one unit for each digit and more.
--
-- Parameters: `redact_text` (regular expressions), the digests of keys and tokens (HMAC), the policies on
-- routes, writers and passwords, the hash of a password, the normal form of an address, whether an
-- owner is active, the printing of a time, the answers of the mail transport and of the Databricks
-- connector, `json.loads`, the type of a CSV cell, the decimal shape of a type, the successor of a
-- refresh token, access tokens, whether the database returns the values of an update, `str.strip` and `str.casefold`, and what other sessions commit between
-- the sessions of one operation. That digests differ where tokens do, and that a column is unique, are
-- hypotheses where a theorem needs them.
--
-- Not modelled: log lines, the detail documents of audit rows, the sweep of the spool folder, the
-- SMTP client, the connectors, the web interface, and the transfer engine. The order in which the recovery
-- takes up records is left out, and so is the refusal by the database of a second row with the address
-- or the digest of another, beyond what the code itself checks.
pub mod Prelude
pub mod Json
pub mod Redaction
pub mod Runs
pub mod RateLimit
pub mod Mail
pub mod Identity
pub mod Sessions
pub mod Profile
pub mod Resets
pub mod Enrollment
pub mod Publications
pub mod Columns
pub mod Csv
