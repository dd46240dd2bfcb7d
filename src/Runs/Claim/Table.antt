-- ===== src/Runs/Claim/Table.antt =====
-- `claim_run` on the whole table: which run it takes, and what it leaves of the others.
use user_token_management_ap.Prelude.{
  ℕ, ◌≤◌, String, Bool, true, false, ◌&&◌, ◌≡◌, refl, Option, none, some, List, [], ◌∷◌, ok, arith,
  inl, inr, ◌⊎◌, Bool-cases, Option-cases, >>=-eq-ok, ok-injective, subst, sym, ltb, ◌==◌, any, All,
}
use user_token_management_ap.Runs.Row.{Run, Work}
use user_token_management_ap.Runs.Invariant.{IsSound}
use user_token_management_ap.Runs.Claim.{
  claimable, claim_selected, earliest, earlier, comes_first, write_back, claim_run, claim_result,
}
use user_token_management_ap.Runs.Claim.Laws.{claim_selected-IsSound}

-- Whether a run of the table that passes the test was queued before the given time.
unfoldable pub queued_before : (Run → Bool) → ℕ → List Work → Bool
queued_before p time table = any (λ v. p v.run && ltb v.run.queued_at time) table

queued_before-le :
    (p : Run → Bool) (a b : ℕ) (table : List Work)
    → b ≤ a
    → queued_before p a table ≡ false
    → queued_before p b table ≡ false
unfolding queued_before
queued_before-le p a b [] h q = refl
queued_before-le p a b (v ∷ vs) h q = ground (arith, queued_before-le p a b vs h)

earliest-none :
    (p : Run → Bool) (time : ℕ) (table : List Work)
    → earliest p table ≡ none
    → queued_before p time table ≡ false
unfolding earliest queued_before
earliest-none p time [] h = refl
earliest-none p time (v ∷ vs) h = ground (arith, earliest-none p time vs)

earlier-cases :
    (v u : Work)
    → ((v.run.queued_at ≤ u.run.queued_at) × (earlier v (some u) ≡ v))
      ⊎ ((u.run.queued_at ≤ v.run.queued_at) × (earlier v (some u) ≡ u))
earlier-cases v u = elim (Bool-cases (comes_first v.run u.run)) [
  | inl sooner ↦ inl (ground (arith, sooner), rw sooner refl)
  | inr later ↦ inr (ground (arith, later), rw later refl)
]

earlier_lem :
    (p : Run → Bool) (v u : Work) (vs : List Work)
    → p v.run ≡ true
    → p u.run ≡ true
    → queued_before p u.run.queued_at vs ≡ false
    → (p (earlier v (some u)).run ≡ true)
      × (queued_before p (earlier v (some u)).run.queued_at (v ∷ vs) ≡ false)
unfolding queued_before
earlier_lem p v u vs passed good first = elim (earlier-cases v u) [
  | inl (le, same) ↦
      let rest = queued_before-le p u.run.queued_at v.run.queued_at vs le first in
      subst (λ x. (p x.run ≡ true) × (queued_before p x.run.queued_at (v ∷ vs) ≡ false)) (sym same)
        (passed, ground (arith, passed, rest))
  | inr (le, same) ↦
      subst (λ x. (p x.run ≡ true) × (queued_before p x.run.queued_at (v ∷ vs) ≡ false)) (sym same)
        (good, ground (arith, le, first))
]

earliest-selects :
    (p : Run → Bool) (table : List Work) {w : Work}
    → earliest p table ≡ some w
    → (p w.run ≡ true) × (queued_before p w.run.queued_at table ≡ false)
unfolding earliest queued_before
earliest-selects p [] h = cc h
earliest-selects p (v ∷ vs) {w} h = elim (Bool-cases (p v.run)) [
  | inr failed ↦
      let (passed, first) = earliest-selects p vs (rw (failed, earliest) at h) in
      (passed, ground (arith, failed, first))
  | inl passed ↦ elim (Option-cases (earliest p vs)) [
    | inl alone ↦
        let same : v ≡ w = cc (rw (passed, alone, earliest) at h) in
        subst (λ x. (p x.run ≡ true) × (queued_before p x.run.queued_at (v ∷ vs) ≡ false)) same
          (passed, ground (arith, passed, earliest-none p v.run.queued_at vs alone))
    | inr (u, more) ↦
        let (good, first) = earliest-selects p vs more in
        let same : earlier v (some u) ≡ w = cc (rw (passed, more, earliest) at h) in
        subst (λ x. (p x.run ≡ true) × (queued_before p x.run.queued_at (v ∷ vs) ≡ false)) same
          (earlier_lem p v u vs passed good first)
  ]
]

earliest-any :
    (p : Run → Bool) (table : List Work) {w : Work}
    → earliest p table ≡ some w
    → any (λ v. v.run.id == w.run.id) table ≡ true
unfolding earliest
earliest-any p [] h = cc h
earliest-any p (v ∷ vs) {w} h = elim (Bool-cases (p v.run)) [
  | inr failed ↦ let rest = earliest-any p vs (rw (failed, earliest) at h) in ground (arith, rest)
  | inl passed ↦ elim (Option-cases (earliest p vs)) [
    | inl alone ↦
        let same : v ≡ w = cc (rw (passed, alone, earliest) at h) in
        subst (λ x. any (λ y. y.run.id == x.run.id) (v ∷ vs) ≡ true) same (ground arith)
    | inr (u, more) ↦
        let rest = earliest-any p vs more in
        let same : earlier v (some u) ≡ w = cc (rw (passed, more, earliest) at h) in
        subst (λ x. any (λ y. y.run.id == x.run.id) (v ∷ vs) ≡ true) same
          (elim (earlier-cases v u) [
            | inl (_, e) ↦
                subst (λ x. any (λ y. y.run.id == x.run.id) (v ∷ vs) ≡ true) (sym e) (ground arith)
            | inr (_, e) ↦
                subst (λ x. any (λ y. y.run.id == x.run.id) (v ∷ vs) ≡ true) (sym e)
                  (ground (arith, rest))
          ])
  ]
]

-- The run that the query of `claim_run` selects is one of the table, a claim may take it, and no run that
-- a claim may take was queued before it.
pub earliest_lem :
    (now : ℕ) (active_user : ℕ → Bool) (run_id : Option ℕ) (table : List Work) {w : Work}
    → earliest (claimable now active_user run_id) table ≡ some w
    → (any (λ v. v.run.id == w.run.id) table ≡ true)
      × (claimable now active_user run_id w.run ≡ true)
      × (queued_before (claimable now active_user run_id) w.run.queued_at table ≡ false)
earliest_lem now active_user run_id table h =
    let (may, first) = earliest-selects (claimable now active_user run_id) table h in
    (earliest-any (claimable now active_user run_id) table h, may, first)

module _ (redact_text : String → String) (clock : ℕ → ℕ) (active_user : ℕ → Bool)
    (worker lease_seconds token : ℕ) (run_id : Option ℕ) where
  write_back-All :
      (w : Work) (table : List Work)
      → IsSound w
      → All IsSound table
      → All IsSound (write_back w table)
  unfolding write_back
  write_back-All w [] s all = tt
  write_back-All w (v ∷ vs) s all = elim (Bool-cases (v.run.id == w.run.id)) [
    | inl same ↦ rw same (s, all.1)
    | inr other ↦ rw other (all.0, write_back-All w vs s all.1)
  ]

  earliest-IsSound :
      (p : Run → Bool) (table : List Work) {w : Work}
      → earliest p table ≡ some w
      → All IsSound table
      → IsSound w
  unfolding earliest
  earliest-IsSound p [] h all = cc h
  earliest-IsSound p (v ∷ vs) {w} h all = elim (Bool-cases (p v.run)) [
    | inr failed ↦ earliest-IsSound p vs (rw (failed, earliest) at h) all.1
    | inl passed ↦ elim (Option-cases (earliest p vs)) [
      | inl alone ↦
          let same : v ≡ w = cc (rw (passed, alone, earliest) at h) in subst IsSound same all.0
      | inr (u, more) ↦
          let same : earlier v (some u) ≡ w = cc (rw (passed, more, earliest) at h) in
          subst IsSound same (earlier-IsSound v u all.0 (earliest-IsSound p vs more all.1))
    ]
  ]
    where
      earlier-IsSound : (v u : Work) → IsSound v → IsSound u → IsSound (earlier v (some u))
      earlier-IsSound v u a b = elim (earlier-cases v u) [
        | inl (_, same) ↦ subst IsSound (sym same) a
        | inr (_, same) ↦ subst IsSound (sym same) b
      ]

  result-All :
      (table : List Work) (claimed : Work × Option ℕ)
      → IsSound claimed.0
      → All IsSound table
      → All IsSound (claim_result table claimed).0
  result-All table (w, none) s all = write_back-All w table s all
  result-All table (w, some k) s all = write_back-All w table s all

  -- A claim on a table of sound runs leaves a table of sound runs.
  pub claim_run-All :
      (table : List Work) {done : List Work × Option (ℕ × ℕ)}
      → All IsSound table
      → claim_run redact_text clock active_user worker lease_seconds token run_id table ≡ ok done
      → All IsSound done.0
  unfolding claim_run
  claim_run-All table all h =
      elim (Option-cases (earliest (claimable (clock 0) active_user run_id) table)) [
        | inl idle ↦ subst (λ d. All IsSound d.0) (ok-injective (rw (idle, claim_run) at h)) all
        | inr (w, chosen) ↦
            let (claimed, took, last) =
              >>=-eq-ok (claim_selected redact_text clock worker lease_seconds token w)
                (λ claimed. ok (claim_result table claimed)) (rw (chosen, claim_run) at h) in
            subst (λ d. All IsSound d.0) (ok-injective last)
              (result-All table claimed
                (claim_selected-IsSound redact_text clock worker lease_seconds token active_user
                  run_id w
                  (earliest-selects (claimable (clock 0) active_user run_id) table chosen).0
                  (earliest-IsSound (claimable (clock 0) active_user run_id) table chosen all)
                  took).0
                all)
      ]
