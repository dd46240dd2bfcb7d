-- ===== src/Mail/Batch.antt =====
-- `deliver_pending_with_metrics`, `deliver_pending` and `retry_failed` of app/services/mailer.py.
use user_token_management_ap.Prelude.{
  ℕ, ◌+◌, ◌-◌, Bool, true, false, ◌&&◌, Option, none, some, is_some, is_none, or_else, List, [],
  ◌∷◌, map, Result, ok, ◌>>=◌, ◌==◌, any, length, take, select, if◌then◌else◌,
}
use user_token_management_ap.Mail.{
  Message, MailSettings, SendOutcome, MailError, claim_pending, deliver_claim, sort,
}

pub record DeliveryMetrics : Type 0 where
  pub claimed : ℕ
  pub delivered : ℕ
  pub deferred : ℕ
  pub dead_lettered : ℕ

-- One send of a batch: when it is settled, what it does, and what other sessions commit meanwhile.
pub record Send : Type 0 where
  pub settled_at : ℕ
  pub outcome : SendOutcome
  pub during : List Message → List Message

abbrev pub int : Bool → ℕ
int true = 1
int false = 0

-- the loop over the claims: the table, `delivered` and `dead_lettered`
unfoldable pub deliver_all :
    MailSettings
    → (ℕ × ℕ → Send)
    → List (ℕ × ℕ)
    → List Message
    → Result MailError (List Message × ℕ × ℕ)
unfolding deliver_claim
deliver_all settings send [] table = ok (table, 0, 0)
deliver_all settings send (c ∷ cs) table =
    deliver_claim settings (send c).settled_at c (send c).outcome (send c).during table >>= λ done.
    deliver_all settings send cs done.0 >>= λ rest.
    ok (rest.0, int done.1 + rest.1, int done.2 + rest.2)

abbrev pub metrics_of : ℕ → ℕ → ℕ → DeliveryMetrics
metrics_of claimed delivered dead_lettered = record {
  claimed = claimed;
  delivered = delivered;
  deferred = claimed - delivered - dead_lettered;
  dead_lettered = dead_lettered;
}

-- `deliver_pending_with_metrics`
unfoldable pub deliver_pending_with_metrics :
    MailSettings
    → ℕ
    → (ℕ → ℕ)
    → (ℕ × ℕ → Send)
    → ℕ
    → List Message
    → Result MailError (List Message × DeliveryMetrics)
unfolding claim_pending deliver_all
deliver_pending_with_metrics settings now new_token send limit table =
    let (claimed, claims) = claim_pending settings now new_token limit table in
    deliver_all settings send claims claimed >>= λ done.
    ok (done.0, metrics_of (length claims) done.1 done.2)

-- `deliver_pending`
unfoldable pub deliver_pending :
    MailSettings
    → ℕ
    → (ℕ → ℕ)
    → (ℕ × ℕ → Send)
    → ℕ
    → List Message
    → Result MailError (List Message × ℕ)
unfolding deliver_pending_with_metrics
deliver_pending settings now new_token send limit table =
    deliver_pending_with_metrics settings now new_token send limit table >>= λ done.
    ok (done.0, done.1.delivered)

abbrev is_wanted : Option ℕ → ℕ → Bool
is_wanted none id = true
is_wanted (some k) id = id == k

-- the `where` of `retry_failed`
unfoldable pub is_dead : Option ℕ → Message → Bool
is_dead message_id m = is_some m.failed_at && is_none m.sent_at && is_wanted message_id m.id

unfoldable pub requeued : ℕ → Message → Message
requeued now m = record m {
  failed_at = none;
  last_error = "";
  attempts = 0;
  next_attempt_at = now;
  claim_token = none;
  claimed_at = none;
}

-- `retry_failed`: the table, and how many messages wait again.
unfoldable pub retry_failed : ℕ → Option ℕ → ℕ → List Message → List Message × ℕ
unfolding is_dead requeued sort
retry_failed now message_id limit table =
    let messages =
      take limit (sort (λ m. or_else m.failed_at 0) (select (is_dead message_id) table)) in
    (
      map
          (λ m.
            if is_dead message_id m && any (λ x. x.id == m.id) messages then requeued now m else m)
          table,
      length messages,
    )
