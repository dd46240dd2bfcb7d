-- ===== src/Runs/Claim/Fences.antt =====
-- Claims and leases exclude each other: no claim takes a run from a worker whose lease lasts, and no
-- worker keeps a run that was claimed from it.
use user_token_management_ap.Prelude.{
  ℕ, String, Bool, true, false, ◌≡◌, ◌≢◌, Option, some, ok, err, arith,
}
use user_token_management_ap.Runs.Status.{is_worker_owned}
use user_token_management_ap.Runs.Row.{Work, run_conflict}
use user_token_management_ap.Runs.Lease.{refresh_and_require_lease}
use user_token_management_ap.Runs.Invariant.{
  IsSound, refresh_and_require_lease_lem, refresh-is_worker_owned,
}
use user_token_management_ap.Runs.Claim.{claimable, claim_selected}
use user_token_management_ap.Runs.Claim.Laws.{claim_selected-IsSound}

-- While a worker passes the lease check on a sound run, no claim at that time can select the run.
pub lease_excludes_claim :
    (now token : ℕ) (active_user : ℕ → Bool) (run_id : Option ℕ) (w : Work) {u : Unit {0}}
    → refresh_and_require_lease now token w ≡ ok u
    → IsSound w
    → claimable now active_user run_id w.run ≡ false
unfolding claimable is_worker_owned
lease_excludes_claim now token active_user run_id w h s =
    ground
      (arith, refresh_and_require_lease_lem now token w h, refresh-is_worker_owned now token w h s)

-- After a claim of a sound run that gives a token, and while the row exists, no other token passes the
-- lease check, whenever it is made: the worker that held the run before is fenced off.
pub claim_selected_fences :
    (redact_text : String → String) (clock : ℕ → ℕ) (worker lease_seconds token : ℕ)
    (active_user : ℕ → Bool) (run_id : Option ℕ) (w w' : Work) (k now old : ℕ)
    → claimable (clock 0) active_user run_id w.run ≡ true
    → IsSound w
    → claim_selected redact_text clock worker lease_seconds token w ≡ ok (w', some k)
    → old ≢ token
    → w'.stored ≡ true
    → refresh_and_require_lease now old w' ≡ err run_conflict
unfolding refresh_and_require_lease
claim_selected_fences redact_text clock worker lease_seconds token active_user run_id w w' k now old
      c s h ne there =
    let (_, (_, _, held, _)) =
      claim_selected-IsSound redact_text clock worker lease_seconds token active_user run_id w c s
        h in
    ground arith
