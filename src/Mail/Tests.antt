-- ===== src/Mail/Tests.antt =====
-- The theorems about the outbox on concrete messages.
use user_token_management_ap.Prelude.{
  clip, arith, ℕ, ◌+◌, ◌≤◌, true, false, none, some, List, [], ◌∷◌, ◌==◌, if◌then◌else◌, ◌≡◌, refl,
  ok,
}
use user_token_management_ap.Mail.{Message, MailSettings, accepted, refused, mark, is_due, claim_of}
use user_token_management_ap.Mail.Batch.{Send, DeliveryMetrics, deliver_pending_with_metrics}
use user_token_management_ap.Mail.Laws.{all_settled, deliver_pending-all_settled, mark-excludes}
use user_token_management_ap.Mail.Metrics.{deliver_pending-accounts}

abbrev settings : MailSettings
settings = record {
  email_claim_timeout_seconds = 300;
  email_max_attempts = 2;
  email_retry_base_seconds = 30;
  email_retry_max_seconds = 600;
  email_redact_sent_bodies = true;
}

abbrev waiting : ℕ → Message
waiting id = record {
  id = id;
  recipient = "a@example.org";
  subject = "Reset";
  body_text = "link";
  created_at = 0;
  sent_at = none;
  failed_at = none;
  attempts = 1;
  last_error = "";
  next_attempt_at = 0;
  claim_token = none;
  claimed_at = none;
}

abbrev claimed : ℕ → ℕ → Message
claimed id token = record (waiting id) { claim_token = some token; claimed_at = some 10 }

abbrev dead : ℕ → Message
dead id = record (waiting id) { attempts = 2; last_error = "no route"; failed_at = some 12 }

abbrev sent : ℕ → Message
sent id = record (waiting id) {
  attempts = 2;
  body_text = "[redacted after delivery]";
  sent_at = some 12;
}

abbrev undisturbed : List Message → List Message
undisturbed table = table

-- the first claim's message is accepted, and the others are refused
abbrev send : ℕ × ℕ → Send
send (id, token) = record {
  settled_at = 12;
  outcome = if id == 1 then accepted else refused "no route";
  during = undisturbed;
}

abbrev batch : List Message × DeliveryMetrics
batch = (
  sent 1 ∷ dead 2 ∷ waiting 3 ∷ [],
  record { claimed = 2; delivered = 1; deferred = 0; dead_lettered = 1 },
)

batch_lem :
    deliver_pending_with_metrics settings 10
      (λ k. 70 + k)
      send
      2
      (waiting 1 ∷ waiting 2 ∷ waiting 3 ∷ [])
    ≡ ok batch
unfolding deliver_pending_with_metrics clip
batch_lem = refl

settled_before : all_settled (waiting 1 ∷ waiting 2 ∷ waiting 3 ∷ []) ≡ true
unfolding all_settled
settled_before = refl

undisturbed_settled :
    (c : ℕ × ℕ) (t : List Message) → all_settled t ≡ true → all_settled ((send c).during t) ≡ true
undisturbed_settled c t h = h

deliver_pending-all_settled_example : all_settled (sent 1 ∷ dead 2 ∷ waiting 3 ∷ []) ≡ true
deliver_pending-all_settled_example =
    deliver_pending-all_settled settings 10 (λ k. 70 + k) send 2
      (waiting 1 ∷ waiting 2 ∷ waiting 3 ∷ []) undisturbed_settled batch_lem settled_before

deliver_pending-accounts_example :
    (batch.1.claimed ≡ batch.1.delivered + batch.1.deferred + batch.1.dead_lettered)
    × (batch.1.claimed ≤ 2)
deliver_pending-accounts_example =
    deliver_pending-accounts settings 10 (λ k. 70 + k) send 2
      (waiting 1 ∷ waiting 2 ∷ waiting 3 ∷ []) batch_lem

due_lem : is_due settings 10 (waiting 1) ≡ true
unfolding is_due
due_lem = refl

claim_lem : claim_of 1 ((1, 70) ∷ []) ≡ some 70
unfolding claim_of
claim_lem = refl

mark-excludes_example : is_due settings 20 (mark settings 10 ((1, 70) ∷ []) (waiting 1)) ≡ false
mark-excludes_example =
    mark-excludes settings 10 20 ((1, 70) ∷ []) (waiting 1) due_lem claim_lem (omega arith)

dead_settled : all_settled (dead 2 ∷ sent 1 ∷ []) ≡ true
unfolding all_settled
dead_settled = refl
