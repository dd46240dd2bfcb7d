-- ===== src/Enrollment/Addresses.antt =====
-- Two invariants of the table of users, and the changes of rows that keep them.
use user_token_management_ap.Prelude.{
  String, true, false, not, ◌||◌, ◌≡◌, refl, is_some, List, [], ◌∷◌, ◌++◌, map, All, str_eq, arith,
  eq_iff, ap, ◌∙◌, none,
}
use user_token_management_ap.Identity.{User, is_active, find}
use user_token_management_ap.Enrollment.{has_email}

-- Who is active has a verified address.
unfoldable pub IsVetted : List User → Type 0
IsVetted users = All (λ u. not (is_active u) || is_some u.email_verified_at ≡ true) users

-- No address has two accounts.
unfoldable pub IsSingle : List User → Type 0
IsSingle [] = Unit
IsSingle (u ∷ us) = (has_email u.email us ≡ false) × IsSingle us

pub append-IsVetted :
    (user : User) (users : List User)
    → not (is_active user) || is_some user.email_verified_at ≡ true
    → IsVetted users
    → IsVetted (users ++ user ∷ [])
unfolding IsVetted
append-IsVetted user [] p all = (p, tt)
append-IsVetted user (u ∷ us) p all = (all.0, append-IsVetted user us p all.1)

pub map-IsVetted :
    (f : User → User) (users : List User)
    → ((u : User)
        → not (is_active u) || is_some u.email_verified_at ≡ true
        → not (is_active (f u)) || is_some (f u).email_verified_at ≡ true)
    → IsVetted users
    → IsVetted (map f users)
unfolding IsVetted
map-IsVetted f [] keep all = tt
map-IsVetted f (u ∷ us) keep all = (keep u all.0, map-IsVetted f us keep all.1)

has_email-append :
    (email : String) (user : User) (users : List User)
    → has_email email users ≡ false
    → str_eq user.email email ≡ false
    → has_email email (users ++ user ∷ []) ≡ false
has_email-append email user [] h n = ground arith
has_email-append email user (u ∷ us) h n = ground (arith, has_email-append email user us)

has_email-map :
    (email : String) (f : User → User) (users : List User)
    → ((u : User) → (f u).email ≡ u.email)
    → has_email email (map f users) ≡ has_email email users
has_email-map email f [] keep = refl
has_email-map email f (u ∷ us) keep = ground (arith, keep u, has_email-map email f us keep)

other-address : (a b : String) → str_eq a b ≡ false → str_eq b a ≡ false
other-address a b n = ground (arith, eq_iff a b, eq_iff b a)

pub append-IsSingle :
    (user : User) (users : List User)
    → has_email user.email users ≡ false
    → IsSingle users
    → IsSingle (users ++ user ∷ [])
unfolding IsSingle
append-IsSingle user [] new all = (refl, tt)
append-IsSingle user (u ∷ us) new all = (
  has_email-append u.email user us all.0 (other-address u.email user.email (ground arith)),
  append-IsSingle user us (ground arith) all.1,
)

pub map-IsSingle :
    (f : User → User) (users : List User)
    → ((u : User) → (f u).email ≡ u.email)
    → IsSingle users
    → IsSingle (map f users)
unfolding IsSingle
map-IsSingle f [] keep all = tt
map-IsSingle f (u ∷ us) keep all = (
  ap (λ e. has_email e (map f us)) (keep u) ∙ has_email-map u.email f us keep ∙ all.0,
  map-IsSingle f us keep all.1,
)

-- An address that the search does not find has no account.
pub find-has_email :
    (email : String) (users : List User)
    → find (λ u. str_eq u.email email) users ≡ none
    → has_email email users ≡ false
unfolding find
find-has_email email [] h = refl
find-has_email email (u ∷ us) h = ground (arith, find-has_email email us)
