-- ===== src/Runs/Janitor/Laws.antt =====
-- What the janitor never removes.
use user_token_management_ap.Prelude.{
  ℕ, Bool, true, ◌≡◌, refl, List, [], ◌∷◌, map, any, select, arith, ◌∙◌,
}
use user_token_management_ap.Runs.Row.{Work}
use user_token_management_ap.Runs.Enqueue.{blocks_enqueue}
use user_token_management_ap.Runs.Janitor.{Retention, Publication, janitor, keeps_run, purge_events}

module _ {A : Type 0} where
  any-select :
      (p keep : A → Bool) (xs : List A)
      → ((x : A) → p x ≡ true → keep x ≡ true)
      → any p (select keep xs) ≡ any p xs
  any-select p keep [] h = refl
  any-select p keep (x ∷ xs) h = ground (arith, any-select p keep xs h, h x)

  any-map :
      (p : A → Bool) (f : A → A) (xs : List A)
      → ((x : A) → p (f x) ≡ p x)
      → any p (map f xs) ≡ any p xs
  any-map p f [] h = refl
  any-map p f (x ∷ xs) h = ground (arith, any-map p f xs h, h x)

module _ (now : ℕ) (settings : Retention) (publications : List Publication) where
  blocker-stays :
      (user pipeline : ℕ) (w : Work)
      → blocks_enqueue user pipeline w ≡ true
      → keeps_run now settings publications w ≡ true
  unfolding blocks_enqueue keeps_run
  blocker-stays user pipeline w h = ground arith

  purge_events-blocks_enqueue :
      (table : List Work) (user pipeline : ℕ) (w : Work)
      → blocks_enqueue user pipeline (purge_events now settings publications table w)
        ≡ blocks_enqueue user pipeline w
  unfolding blocks_enqueue purge_events
  purge_events-blocks_enqueue table user pipeline w = refl

  -- The janitor changes for no pipeline whether an unresolved run of it stops a retry.
  pub janitor-blocks_enqueue :
      (cache : List ℕ) (table : List Work) (user pipeline : ℕ)
      → any (blocks_enqueue user pipeline) (janitor now settings publications cache table).table
        ≡ any (blocks_enqueue user pipeline) table
  unfolding janitor
  janitor-blocks_enqueue cache table user pipeline =
      any-select (blocks_enqueue user pipeline) (keeps_run now settings publications)
        (map (purge_events now settings publications table) table) (blocker-stays user pipeline)
      ∙ any-map (blocks_enqueue user pipeline) (purge_events now settings publications table) table
          (purge_events-blocks_enqueue table user pipeline)
