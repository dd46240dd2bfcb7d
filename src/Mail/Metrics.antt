-- ===== src/Mail/Metrics.antt =====
-- What the metrics of a delivery batch add up to.
use user_token_management_ap.Prelude.{
  ℕ, ◌+◌, ◌≤◌, String, Bool, ◌≡◌, refl, Option, none, some, List, [], ◌∷◌, map, ok, >>=-eq-ok, ◌==◌,
  length, take, select, arith, Option-cases, inl, inr, ok-injective, subst,
}
use user_token_management_ap.Mail.{
  Message, MailSettings, SendOutcome, is_due, mark, claim_pending, name_claims, find_message,
  put_message, is_claim, settle, refresh_and_settle, finish, begin, deliver_claim, sort, accepted,
  refused, crashed,
}
use user_token_management_ap.Mail.Batch.{
  Send, int, deliver_all, deliver_pending_with_metrics, DeliveryMetrics,
}

length-take : {A : Type 0} (n : ℕ) (xs : List A) → length (take n xs) ≤ n
length-take n [] = omega arith
length-take ℕ.zero (x ∷ xs) = omega arith
length-take (ℕ.suc n) (x ∷ xs) = let rest = length-take n xs in omega (arith, rest)

length-name_claims :
    (new_token : ℕ → ℕ) (k : ℕ) (ms : List Message)
    → length (name_claims new_token k ms) ≡ length ms
unfolding name_claims
length-name_claims new_token k [] = refl
length-name_claims new_token k (m ∷ ms) =
    let rest = length-name_claims new_token (k + 1) ms in omega (arith, rest)

-- A delivery counts at most once: as delivered, or as dead-lettered.
abbrev CountsOnce : List Message × Bool × Bool → Type 0
CountsOnce done = int done.1 + int done.2 ≤ 1

module _ (settings : MailSettings) where
  settle-CountsOnce :
      (now token attempt : ℕ) (error : Option String) (m : Message) (table : List Message)
      → CountsOnce (settle settings now token attempt error m table)
  unfolding settle
  settle-CountsOnce now token attempt none m table = ground arith
  settle-CountsOnce now token attempt (some text) m table = ground arith

  refresh-CountsOnce :
      (now id token attempt : ℕ) (error : Option String) (table : List Message)
      {done : List Message × Bool × Bool}
      → refresh_and_settle settings now id token attempt error table ≡ ok done
      → CountsOnce done
  unfolding refresh_and_settle
  refresh-CountsOnce now id token attempt error table h =
      elim (Option-cases (find_message (λ m. m.id == id) table)) [
        | inl gone ↦ cc (rw (gone, refresh_and_settle) at h)
        | inr (m, found) ↦
            subst CountsOnce (ok-injective (rw (found, refresh_and_settle) at h))
              (settle-CountsOnce now token attempt error m table)
      ]

  finish-CountsOnce :
      (now id token attempt : ℕ) (outcome : SendOutcome) (table : List Message)
      {done : List Message × Bool × Bool}
      → finish settings now id token attempt outcome table ≡ ok done
      → CountsOnce done
  unfolding finish
  finish-CountsOnce now id token attempt crashed table h = cc h
  finish-CountsOnce now id token attempt (refused text) table h =
      refresh-CountsOnce now id token attempt (some text) table h
  finish-CountsOnce now id token attempt accepted table h =
      refresh-CountsOnce now id token attempt none table h

  deliver_claim-CountsOnce :
      (now : ℕ) (c : ℕ × ℕ) (outcome : SendOutcome) (during : List Message → List Message)
      (table : List Message) {done : List Message × Bool × Bool}
      → deliver_claim settings now c outcome during table ≡ ok done
      → CountsOnce done
  unfolding deliver_claim
  deliver_claim-CountsOnce now (id, token) outcome during table h =
      elim (Option-cases (find_message (is_claim id token) table)) [
        | inl gone ↦ subst CountsOnce (ok-injective (rw (gone, deliver_claim) at h)) (omega arith)
        | inr (m, found) ↦
            finish-CountsOnce now id token (m.attempts + 1) outcome
              (during (put_message (begin m) table)) (rw (found, deliver_claim) at h)
      ]

  deliver_all-counts :
      (send : ℕ × ℕ → Send) (claims : List (ℕ × ℕ)) (table : List Message)
      {done : List Message × ℕ × ℕ}
      → deliver_all settings send claims table ≡ ok done
      → done.1 + done.2 ≤ length claims
  unfolding deliver_all
  deliver_all-counts send [] table h =
      subst (λ (d : List Message × ℕ × ℕ). d.1 + d.2 ≤ 0) (ok-injective h) (omega arith)
  deliver_all-counts send (c ∷ cs) table h =
      let (one, first, more) =
        >>=-eq-ok
          (deliver_claim settings (send c).settled_at c (send c).outcome (send c).during table) _
          h in
      let (rest, others, last) = >>=-eq-ok (deliver_all settings send cs one.0) _ more in
      let once =
        deliver_claim-CountsOnce (send c).settled_at c (send c).outcome (send c).during table
          first in
      let counted = deliver_all-counts send cs one.0 others in
      subst (λ (d : List Message × ℕ × ℕ). d.1 + d.2 ≤ length (c ∷ cs)) (ok-injective last)
        (omega (arith, once, counted))

  -- The metrics of a batch that returns account for every claimed message exactly once, and the batch
  -- claims no more messages than its limit.
  pub deliver_pending-accounts :
      (now : ℕ) (new_token : ℕ → ℕ) (send : ℕ × ℕ → Send) (limit : ℕ) (table : List Message)
      {done : List Message × DeliveryMetrics}
      → deliver_pending_with_metrics settings now new_token send limit table ≡ ok done
      → (done.1.claimed ≡ done.1.delivered + done.1.deferred + done.1.dead_lettered)
        × (done.1.claimed ≤ limit)
  unfolding deliver_pending_with_metrics claim_pending
  deliver_pending-accounts now new_token send limit table h =
      let states =
        take limit (sort (λ m. m.next_attempt_at) (select (is_due settings now) table)) in
      let claims = name_claims new_token 0 states in
      let (rest, others, last) =
        >>=-eq-ok (deliver_all settings send claims (map (mark settings now claims) table)) _ h in
      let counted = deliver_all-counts send claims (map (mark settings now claims) table) others in
      let named = length-name_claims new_token 0 states in
      let limited =
        length-take limit (sort (λ m. m.next_attempt_at) (select (is_due settings now) table)) in
      subst
        (λ (d : List Message × DeliveryMetrics).
          (d.1.claimed ≡ d.1.delivered + d.1.deferred + d.1.dead_lettered) × (d.1.claimed ≤ limit))
        (ok-injective last) (omega (arith, counted), omega (arith, named, limited))
