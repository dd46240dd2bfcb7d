-- ===== src/Json/Laws.antt =====
-- Laws of the dict methods of Json.antt.
use user_token_management_ap.Prelude.{
  String, ◌≡◌, refl, none, some, str_eq, eq_iff, arith, if◌then◌else◌, true, ◌∙◌, inl, inr,
  Bool-cases,
}
use user_token_management_ap.Json.{Fields, end, field, Value, get, put, update}

pub get-put :
    (k j : String) (v : Value) (d : Fields)
    → get j (put k v d) ≡ (if str_eq k j then some v else get j d)
unfolding get put
get-put k j v end = refl
get-put k j v (field i w fs) = ground (arith, eq_iff k j, eq_iff i k, eq_iff i j, get-put k j v fs)

-- A dict is updated at the keys of the other one, and keeps its entries at the rest.
pub get-update-none : (j : String) (d e : Fields) → get j e ≡ none → get j (update d e) ≡ get j d
unfolding get update
get-update-none j d end h = refl
get-update-none j d (field k v fs) h = elim (Bool-cases (str_eq k j)) [
  | inl same ↦ cc (clash same h)
  | inr other ↦ get-update-none j (put k v d) fs (rw other at h) ∙ rw (get-put k j v d, other)
]
  where
    clash : str_eq k j ≡ true → (if str_eq k j then some v else get j fs) ≡ none → some v ≡ none
    clash same e = rw same at e
