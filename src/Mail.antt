-- ===== src/Mail.antt =====
-- The email outbox of app/services/mailer.py: the rows of `EmailOutbox` with their
-- `EmailDeliveryState`, the claims of a delivery worker, and an operator's retry. The transport's
-- answer, and what other sessions commit while it runs, are arguments; times are microseconds.
pub mod Batch
pub mod Laws
pub mod Metrics
mod Tests
use user_token_management_ap.Prelude.{
  ℕ, ◌+◌, ◌-◌, ◌*◌, ◌^◌, min, String, Bool, true, false, not, ◌&&◌, ◌||◌, Option, none, some,
  is_some, is_none, or_else, List, [], ◌∷◌, ◌++◌, map, Result, ok, err, ◌>>=◌, ltb, leb, ◌==◌,
  holds, length, take, select, clip, if◌then◌else◌,
}
use user_token_management_ap.Runs.Lease.{seconds}

pub record Message : Type 0 where
  pub id : ℕ
  pub recipient : String
  pub subject : String
  pub body_text : String
  pub created_at : ℕ
  pub sent_at : Option ℕ
  pub failed_at : Option ℕ
  pub attempts : ℕ
  pub last_error : String
  pub next_attempt_at : ℕ
  pub claim_token : Option ℕ
  pub claimed_at : Option ℕ

pub record MailSettings : Type 0 where
  pub email_claim_timeout_seconds : ℕ
  pub email_max_attempts : ℕ
  pub email_retry_base_seconds : ℕ
  pub email_retry_max_seconds : ℕ
  pub email_redact_sent_bodies : Bool

-- What a send does: it returns, it raises an error that the delivery catches, with its text, or it
-- raises another one.
pub data SendOutcome : Type 0 where
  accepted : SendOutcome
  refused : String → SendOutcome
  crashed : SendOutcome

pub data MailError : Type 0 where
  message_missing uncaught : MailError

-- `queue_email`; the column default of `created_at` counts as the same reading of the clock.
unfoldable pub queue_email : ℕ → ℕ → String → String → String → List Message → List Message
queue_email now new_id recipient subject body_text table =
    table
    ++ record {
      id = new_id;
      recipient = recipient;
      subject = subject;
      body_text = body_text;
      created_at = now;
      sent_at = none;
      failed_at = none;
      attempts = 0;
      last_error = "";
      next_attempt_at = now;
      claim_token = none;
      claimed_at = none;
    }
      ∷ []

abbrev pub is_stale : MailSettings → ℕ → Option ℕ → Bool
is_stale settings now none = false
is_stale settings now (some t) = leb (t + seconds settings.email_claim_timeout_seconds) now

abbrev pub is_waiting : Message → Bool
is_waiting m = is_none m.sent_at && is_none m.failed_at

-- the `where` of `_claim_pending`
unfoldable pub is_due : MailSettings → ℕ → Message → Bool
is_due settings now m =
    is_waiting m
    && leb m.next_attempt_at now
    && (is_none m.claim_token || is_stale settings now m.claimed_at)

-- `order_by`, for a sort key and then the identifier
abbrev sorts_first : (Message → ℕ) → Message → Message → Bool
sorts_first key a b = ltb (key a) (key b) || key a == key b && leb a.id b.id

unfoldable pub insert : (Message → ℕ) → Message → List Message → List Message
insert key m [] = m ∷ []
insert key m (x ∷ xs) = if sorts_first key m x then m ∷ x ∷ xs else x ∷ insert key m xs

unfoldable pub sort : (Message → ℕ) → List Message → List Message
unfolding insert
sort key [] = []
sort key (m ∷ ms) = insert key m (sort key ms)

-- the claims, with a new token for each
unfoldable pub name_claims : (ℕ → ℕ) → ℕ → List Message → List (ℕ × ℕ)
name_claims new_token k [] = []
name_claims new_token k (m ∷ ms) = (m.id, new_token k) ∷ name_claims new_token (k + 1) ms

unfoldable pub claim_of : ℕ → List (ℕ × ℕ) → Option ℕ
claim_of id [] = none
claim_of id (c ∷ cs) = let rest = claim_of id cs in if c.0 == id then some c.1 else rest

abbrev claim_row : ℕ → Message → Option ℕ → Message
claim_row now m none = m
claim_row now m (some token) = record m { claim_token = some token; claimed_at = some now }

-- the assignments of the loop, on the rows of the query
unfoldable pub mark : MailSettings → ℕ → List (ℕ × ℕ) → Message → Message
unfolding is_due claim_of
mark settings now claims m =
    if is_due settings now m then claim_row now m (claim_of m.id claims) else m

-- `_claim_pending`
unfoldable pub claim_pending :
    MailSettings → ℕ → (ℕ → ℕ) → ℕ → List Message → List Message × List (ℕ × ℕ)
unfolding is_due sort name_claims mark
claim_pending settings now new_token limit table =
    let states = take limit (sort (λ m. m.next_attempt_at) (select (is_due settings now) table)) in
    let claims = name_claims new_token 0 states in (map (mark settings now claims) table, claims)

unfoldable pub find_message : (Message → Bool) → List Message → Option Message
find_message p [] = none
find_message p (m ∷ ms) = if p m then some m else find_message p ms

unfoldable pub put_message : Message → List Message → List Message
put_message m [] = []
put_message m (x ∷ xs) = if x.id == m.id then m ∷ xs else x ∷ put_message m xs

-- the `where` of the query in `_deliver_claim`
abbrev pub is_claim : ℕ → ℕ → Message → Bool
is_claim id token m = m.id == id && is_waiting m && holds m.claim_token token

-- `state.claim_token != claim_token or message.sent_at or message.failed_at`
unfoldable pub is_lost : ℕ → Message → Bool
is_lost token m = not (holds m.claim_token token) || is_some m.sent_at || is_some m.failed_at

-- seconds until the next attempt
unfoldable pub retry_delay : MailSettings → ℕ → ℕ
retry_delay settings attempt =
    min (settings.email_retry_base_seconds * 2 ^ (attempt - 1)) settings.email_retry_max_seconds

unfoldable pub failed_message : MailSettings → ℕ → ℕ → String → Message → Message
unfolding retry_delay
failed_message settings now attempt text m =
    if leb settings.email_max_attempts attempt
    then record m {
      last_error = clip 2000 text;
      failed_at = some now;
      claim_token = none;
      claimed_at = none;
    }
    else record m {
      last_error = clip 2000 text;
      next_attempt_at = now + seconds (retry_delay settings attempt);
      claim_token = none;
      claimed_at = none;
    }

unfoldable pub sent_message : MailSettings → ℕ → Message → Message
sent_message settings now m = record m {
  sent_at = some now;
  last_error = "";
  body_text =
      if settings.email_redact_sent_bodies then "[redacted after delivery]" else m.body_text;
  claim_token = none;
  claimed_at = none;
}

-- The rest of `_deliver_claim`, on the row that was read again after the send, with the text of the
-- error if the send raised one: the table, and whether the message was delivered and whether it was
-- dead-lettered.
unfoldable pub settle :
    MailSettings → ℕ → ℕ → ℕ → Option String → Message → List Message → List Message × Bool × Bool
unfolding is_lost failed_message sent_message put_message
settle settings now token attempt (some text) m table =
    if is_lost token m then (table, false, false) else (
      put_message (failed_message settings now attempt text m) table,
      false,
      leb settings.email_max_attempts attempt,
    )
settle settings now token attempt none m table =
    if is_lost token m
    then (table, false, false)
    else (put_message (sent_message settings now m) table, true, false)

-- the refresh of a row, which raises if it is gone, and the rest of the call
unfoldable pub refresh_and_settle :
    MailSettings
    → ℕ
    → ℕ
    → ℕ
    → ℕ
    → Option String
    → List Message
    → Result MailError (List Message × Bool × Bool)
unfolding find_message settle
refresh_and_settle settings now id token attempt error table =
    elim (find_message (λ m. m.id == id) table) [
      | none ↦ err message_missing
      | some m ↦ ok (settle settings now token attempt error m table)
    ]

unfoldable pub finish :
    MailSettings
    → ℕ
    → ℕ
    → ℕ
    → ℕ
    → SendOutcome
    → List Message
    → Result MailError (List Message × Bool × Bool)
unfolding refresh_and_settle
finish settings now id token attempt crashed table = err uncaught
finish settings now id token attempt (refused text) table =
    refresh_and_settle settings now id token attempt (some text) table
finish settings now id token attempt accepted table =
    refresh_and_settle settings now id token attempt none table

-- the attempt is counted and committed before the send
unfoldable pub begin : Message → Message
begin m = record m { attempts = m.attempts + 1 }

-- `_deliver_claim`; `during` is what other sessions commit while the message is sent.
unfoldable pub deliver_claim :
    MailSettings
    → ℕ
    → ℕ × ℕ
    → SendOutcome
    → (List Message → List Message)
    → List Message
    → Result MailError (List Message × Bool × Bool)
unfolding find_message put_message begin finish
deliver_claim settings now (id, token) outcome during table =
    elim (find_message (is_claim id token) table) [
      | none ↦ ok (table, false, false)
      | some m ↦
          finish settings now id token (m.attempts + 1) outcome
            (during (put_message (begin m) table))
    ]
