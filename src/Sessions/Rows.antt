-- ===== src/Sessions/Rows.antt =====
-- The row of a user in the table: how sign-in finds it again after a change of the rows.
use user_token_management_ap.Prelude.{
  String, Bool, true, ◌≡◌, refl, Option, none, some, List, [], ◌∷◌, map, ◌==◌, str_eq, ◌<◌, ◌≤◌,
  select, if◌then◌else◌, arith, ap, ◌∙◌, subst, eq_iff,
}
use user_token_management_ap.Identity.{User, find}
use user_token_management_ap.Sessions.Alive.{find-passes}
use user_token_management_ap.Sessions.Login.{same_hash, is_unchanged}

module _ {A : Type 0} where
  pub find-map-kept :
      (p : A → Bool) (f : A → A) (xs : List A)
      → ((x : A) → p (f x) ≡ p x)
      → {x : A} → find p xs ≡ some x
      → find p (map f xs) ≡ some (f x)
  unfolding find
  find-map-kept p f [] keep {x} h = cc h
  find-map-kept p f (y ∷ ys) keep {x} h = ground (arith, keep y, find-map-kept p f ys keep {x = x})

  pub select-map-kept :
      (p : A → Bool) (f : A → A) (xs : List A)
      → ((x : A) → p (f x) ≡ p x)
      → select p (map f xs) ≡ map f (select p xs)
  select-map-kept p f [] keep = refl
  select-map-kept p f (y ∷ ys) keep = ground (arith, keep y, select-map-kept p f ys keep)

same_hash_refl : (h : Option String) → same_hash h h ≡ true
same_hash_refl none = refl
same_hash_refl (some s) = ground (arith, eq_iff s s)

-- The user is the row that the address finds, and the one row with its identifier.
unfoldable pub Holds : String → User → List User → Type 0
Holds email user users =
    (find (λ u. str_eq u.email email) users ≡ some user)
    × (select (λ u. u.id == user.id) users ≡ user ∷ [])

pub Holds-found :
    (email : String) (user : User) (users : List User)
    → Holds email user users
    → find (λ u. str_eq u.email email) users ≡ some user
unfolding Holds
Holds-found email user users holds = holds.0

pub Holds-alone :
    (email : String) (user : User) (users : List User)
    → Holds email user users
    → select (λ u. u.id == user.id) users ≡ user ∷ []
unfolding Holds
Holds-alone email user users holds = holds.1

-- A change of rows that keeps identifiers and addresses changes the user's row with the others.
pub Holds-map :
    (email : String) (f : User → User) (user : User) (users : List User)
    → ((u : User) → (f u).id ≡ u.id)
    → ((u : User) → (f u).email ≡ u.email)
    → Holds email user users
    → Holds email (f user) (map f users)
unfolding Holds
Holds-map email f user users id mail (found, alone) = (
  find-map-kept (λ u. str_eq u.email email) f users (λ u. ap (λ m. str_eq m email) (mail u)) found,
  ap (λ n. select (λ u. u.id == n) (map f users)) (id user)
      ∙ select-map-kept (λ (u : User). u.id == user.id) f users (λ u. ap (λ n. n == user.id) (id u))
      ∙ ap (map f) alone,
)

pub unchanged-find :
    (user row : User) (users : List User)
    → row.id ≡ user.id
    → row.password_hash ≡ user.password_hash
    → row.security_version ≡ user.security_version
    → row.failed_login_attempts < 5
    → select (λ u. u.id == user.id) users ≡ row ∷ []
    → find (is_unchanged user) users ≡ some row
unfolding find is_unchanged
unchanged-find user row [] same hash version few alone = cc alone
unchanged-find user row (u ∷ us) same hash version few alone = ground (
  arith,
  hash,
  version,
  same_hash_refl user.password_hash,
  unchanged-find user row us same hash version few,
)

absent-find :
    (user : User) (users : List User)
    → select (λ u. u.id == user.id) users ≡ []
    → find (is_unchanged user) users ≡ none
unfolding find is_unchanged
absent-find user [] gone = refl
absent-find user (u ∷ us) gone = ground (arith, absent-find user us)

-- No row is still the checked one where the checked row already had the failures of a lockout.
pub full-find :
    (user : User) (users : List User)
    → 5 ≤ user.failed_login_attempts
    → select (λ u. u.id == user.id) users ≡ user ∷ []
    → find (is_unchanged user) users ≡ none
unfolding find is_unchanged
full-find user [] full alone = refl
full-find user (u ∷ us) full alone =
    ground (arith, full, full-find user us full, absent-find user us)

pub changed-Holds :
    (email : String) (g : User → User) (user : User) (users : List User)
    → ((u : User) → (g u).id ≡ u.id)
    → ((u : User) → (g u).email ≡ u.email)
    → find (is_unchanged user) users ≡ some user
    → Holds email user users
    → Holds email (g user) (map (λ u. if is_unchanged user u then g u else u) users)
changed-Holds email g user users id mail found holds =
    let hit = find-passes (is_unchanged user) users found in
    subst (λ r. Holds email r (map (λ u. if is_unchanged user u then g u else u) users))
      (ap (λ b. if b then g user else user) hit)
      (Holds-map email (λ u. if is_unchanged user u then g u else u) user users
        (λ u. ground (arith, id u)) (λ u. ground (arith, mail u)) holds)
