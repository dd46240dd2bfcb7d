-- ===== src/Mail/Laws.antt =====
-- What the outbox keeps: how a message's delivery columns hang together, that a lost claim changes
-- nothing, and what the metrics of a batch add up to.
use user_token_management_ap.Prelude.{
  subst, ℕ, ◌+◌, ◌<◌, String, Bool, true, false, not, ◌&&◌, ◌||◌, ◌≡◌, refl, Option, none, some,
  is_some, is_none, List, [], ◌∷◌, map, ok, >>=-eq-ok, ◌==◌, take, select, if◌then◌else◌, arith,
  Option-cases, inl, inr, ok-injective,
}
use user_token_management_ap.Runs.Lease.{seconds}
use user_token_management_ap.Mail.{
  Message, MailSettings, SendOutcome, is_due, mark, claim_of, claim_pending, name_claims,
  find_message, put_message, is_claim, is_lost, failed_message, sent_message, settle,
  refresh_and_settle, finish, begin, deliver_claim, sort, accepted, refused, crashed,
}
use user_token_management_ap.Mail.Batch.{
  DeliveryMetrics, Send, deliver_all, deliver_pending_with_metrics, requeued, retry_failed,
}

-- A message that is claimed has the time of the claim, and a message that was sent or given up is not
-- claimed and not both.
unfoldable pub is_settled : Message → Bool
is_settled m =
    (if is_some m.claim_token then is_some m.claimed_at else is_none m.claimed_at)
    && not (is_some m.sent_at && is_some m.failed_at)
    && not ((is_some m.sent_at || is_some m.failed_at) && is_some m.claim_token)

-- The same for a whole outbox.
unfoldable pub all_settled : List Message → Bool
unfolding is_settled
all_settled [] = true
all_settled (m ∷ ms) = is_settled m && all_settled ms

map-all_settled :
    (f : Message → Message) (ms : List Message)
    → ((m : Message) → is_settled m ≡ true → is_settled (f m) ≡ true)
    → all_settled ms ≡ true
    → all_settled (map f ms) ≡ true
unfolding all_settled
map-all_settled f [] h s = refl
map-all_settled f (m ∷ ms) h s = ground (arith, map-all_settled f ms h, h m)

put_message-all_settled :
    (m : Message) (ms : List Message)
    → is_settled m ≡ true
    → all_settled ms ≡ true
    → all_settled (put_message m ms) ≡ true
unfolding all_settled put_message
put_message-all_settled m [] h s = refl
put_message-all_settled m (x ∷ xs) h s = ground (arith, put_message-all_settled m xs h)

find_message-is_settled :
    (p : Message → Bool) (ms : List Message) {m : Message}
    → find_message p ms ≡ some m
    → all_settled ms ≡ true
    → (is_settled m ≡ true) × (p m ≡ true)
unfolding all_settled find_message
find_message-is_settled p [] h s = cc h
find_message-is_settled p (x ∷ xs) {m} h s = ground (arith, find_message-is_settled p xs {m = m})

mark-is_settled :
    (settings : MailSettings) (now : ℕ) (claims : List (ℕ × ℕ)) (m : Message)
    → is_settled m ≡ true
    → is_settled (mark settings now claims m) ≡ true
unfolding is_settled mark is_due
mark-is_settled settings now claims m h = ground arith

requeued-is_settled :
    (now : ℕ) (m : Message) → is_settled m ≡ true → is_settled (requeued now m) ≡ true
unfolding is_settled requeued
requeued-is_settled now m h = ground arith

-- An operator's retry of dead-lettered messages keeps the outbox settled.
pub retry_failed-all_settled :
    (now : ℕ) (message_id : Option ℕ) (limit : ℕ) (table : List Message)
    → all_settled table ≡ true
    → all_settled (retry_failed now message_id limit table).0 ≡ true
unfolding retry_failed
retry_failed-all_settled now message_id limit table s =
    map-all_settled _ table (λ m h. ground (arith, requeued-is_settled now m, h)) s

settle-all_settled :
    (settings : MailSettings) (now token attempt : ℕ) (error : Option String) (m : Message)
    (table : List Message)
    → is_settled m ≡ true
    → all_settled table ≡ true
    → all_settled (settle settings now token attempt error m table).0 ≡ true
unfolding settle is_settled failed_message sent_message is_lost
settle-all_settled settings now token attempt none m table h s =
    ground (arith, put_message-all_settled (sent_message settings now m) table)
settle-all_settled settings now token attempt (some text) m table h s =
    ground (arith, put_message-all_settled (failed_message settings now attempt text m) table)

-- A due message that a call has claimed is due for no other call before the claim times out.
pub mark-excludes :
    (settings : MailSettings) (now later : ℕ) (claims : List (ℕ × ℕ)) (m : Message) {token : ℕ}
    → is_due settings now m ≡ true
    → claim_of m.id claims ≡ some token
    → later < now + seconds settings.email_claim_timeout_seconds
    → is_due settings later (mark settings now claims m) ≡ false
unfolding mark is_due
mark-excludes settings now later claims m d c l = ground arith

module _ (settings : MailSettings) where
  refresh-all_settled :
      (now id token attempt : ℕ) (error : Option String) (table : List Message)
      {done : List Message × Bool × Bool}
      → refresh_and_settle settings now id token attempt error table ≡ ok done
      → all_settled table ≡ true
      → all_settled done.0 ≡ true
  unfolding refresh_and_settle
  refresh-all_settled now id token attempt error table h s =
      elim (Option-cases (find_message (λ m. m.id == id) table)) [
        | inl gone ↦ cc (rw (gone, refresh_and_settle) at h)
        | inr (m, found) ↦
            subst (λ d. all_settled d.0 ≡ true) (ok-injective (rw (found, refresh_and_settle) at h))
              (settle-all_settled settings now token attempt error m table
                (find_message-is_settled (λ x. x.id == id) table found s).0 s)
      ]

  finish-all_settled :
      (now id token attempt : ℕ) (outcome : SendOutcome) (table : List Message)
      {done : List Message × Bool × Bool}
      → finish settings now id token attempt outcome table ≡ ok done
      → all_settled table ≡ true
      → all_settled done.0 ≡ true
  unfolding finish
  finish-all_settled now id token attempt crashed table h s = cc h
  finish-all_settled now id token attempt (refused text) table h s =
      refresh-all_settled now id token attempt (some text) table h s
  finish-all_settled now id token attempt accepted table h s =
      refresh-all_settled now id token attempt none table h s

  begin-is_settled : (m : Message) → is_settled m ≡ true → is_settled (begin m) ≡ true
  unfolding begin is_settled
  begin-is_settled m h = h

  -- One delivery keeps the outbox settled, if what other sessions commit meanwhile does.
  pub deliver_claim-all_settled :
      (now : ℕ) (c : ℕ × ℕ) (outcome : SendOutcome) (during : List Message → List Message)
      (table : List Message) {done : List Message × Bool × Bool}
      → ((t : List Message) → all_settled t ≡ true → all_settled (during t) ≡ true)
      → deliver_claim settings now c outcome during table ≡ ok done
      → all_settled table ≡ true
      → all_settled done.0 ≡ true
  unfolding deliver_claim
  deliver_claim-all_settled now (id, token) outcome during table keep h s =
      elim (Option-cases (find_message (is_claim id token) table)) [
        | inl gone ↦
            subst (λ d. all_settled d.0 ≡ true) (ok-injective (rw (gone, deliver_claim) at h)) s
        | inr (m, found) ↦
            finish-all_settled now id token (m.attempts + 1) outcome
              (during (put_message (begin m) table)) (rw (found, deliver_claim) at h)
              (keep (put_message (begin m) table) (
                put_message-all_settled (begin m) table
                  (begin-is_settled m (find_message-is_settled (is_claim id token) table found s).0)
                  s))
      ]

  deliver_all-all_settled :
      (send : ℕ × ℕ → Send) (claims : List (ℕ × ℕ)) (table : List Message)
      {done : List Message × ℕ × ℕ}
      → ((c : ℕ × ℕ) (t : List Message)
          → all_settled t ≡ true
          → all_settled ((send c).during t) ≡ true)
      → deliver_all settings send claims table ≡ ok done
      → all_settled table ≡ true
      → all_settled done.0 ≡ true
  unfolding deliver_all
  deliver_all-all_settled send [] table keep h s =
      subst (λ d. all_settled d.0 ≡ true) (ok-injective h) s
  deliver_all-all_settled send (c ∷ cs) table keep h s =
      let (one, first, more) =
        >>=-eq-ok
          (deliver_claim settings (send c).settled_at c (send c).outcome (send c).during table) _
          h in
      let (rest, others, last) = >>=-eq-ok (deliver_all settings send cs one.0) _ more in
      subst (λ d. all_settled d.0 ≡ true) (ok-injective last)
        (deliver_all-all_settled send cs one.0 keep others (
          deliver_claim-all_settled (send c).settled_at c (send c).outcome (send c).during table
            (keep c) first s))

  -- A whole batch, the claims and the deliveries, keeps the outbox settled, whatever the transport
  -- answers, if what other sessions commit during the sends does.
  pub deliver_pending-all_settled :
      (now : ℕ) (new_token : ℕ → ℕ) (send : ℕ × ℕ → Send) (limit : ℕ) (table : List Message)
      {done : List Message × DeliveryMetrics}
      → ((c : ℕ × ℕ) (t : List Message)
          → all_settled t ≡ true
          → all_settled ((send c).during t) ≡ true)
      → deliver_pending_with_metrics settings now new_token send limit table ≡ ok done
      → all_settled table ≡ true
      → all_settled done.0 ≡ true
  unfolding deliver_pending_with_metrics claim_pending
  deliver_pending-all_settled now new_token send limit table keep h s =
      let claims =
        name_claims new_token 0
          (take limit (sort (λ m. m.next_attempt_at) (select (is_due settings now) table))) in
      let (rest, others, last) =
        >>=-eq-ok (deliver_all settings send claims (map (mark settings now claims) table)) _ h in
      subst (λ d. all_settled d.0 ≡ true) (ok-injective last)
        (deliver_all-all_settled send claims (map (mark settings now claims) table) keep others (
          map-all_settled (mark settings now claims) table (mark-is_settled settings now claims) s))
