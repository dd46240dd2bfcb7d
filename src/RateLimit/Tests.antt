-- ===== src/RateLimit/Tests.antt =====
-- The theorems about the rate limit on a concrete source.
use user_token_management_ap.Prelude.{
  join, ℕ, ◌-◌, String, true, [], ◌∷◌, ◌≡◌, refl, min, All, arith,
}
use user_token_management_ap.RateLimit.{kind_text, Settings, window_start}
use user_token_management_ap.RateLimit.Laws.{admitted, lasts, count_of, admitted_within_window}

abbrev settings : Settings
settings = record { rate_limit_enabled = true; rate_limit_window_seconds = 60 }

abbrev digest : String → ℕ
digest s = 5

in_window : All (λ now. window_start now 60 ≡ 120000000) (121000000 ∷ 122000000 ∷ 179000000 ∷ [])
unfolding window_start
in_window = (refl, (refl, (refl, tt)))

fresh : lasts "login:source" 5 120000000 240000000 [] ≡ true
unfolding lasts
fresh = refl

admitted_within_window_example :
    admitted digest settings "login" "10.0.0.1" 2 (121000000 ∷ 122000000 ∷ 179000000 ∷ []) []
    ≡ min 3 (2 - count_of "login:source" 5 120000000 [])
unfolding join kind_text
admitted_within_window_example =
    admitted_within_window digest settings "login" "10.0.0.1" 2 refl (omega arith) 120000000
      (121000000 ∷ 122000000 ∷ 179000000 ∷ []) [] in_window fresh
