-- ===== src/Json/Facts.antt =====
-- Laws of `get`, `set`, `delete` and `has`.
use baerly_storage.Common.{
  Text, text_eq, text_eq_iff, ◌≡◌, refl, none, some, false, arith, if◌then◌else◌,
}
use baerly_storage.Json.{Fields, prop, end, JsonValue, get, set, delete, has}

pub get-set :
    (k j : Text) (v : JsonValue) (fs : Fields)
    → get j (set k v fs) ≡ (if text_eq k j then some v else get j fs)
unfolding get set
get-set k j v end = refl
get-set k j v (prop i w fs) =
    ground (arith, text_eq_iff k j, text_eq_iff i k, text_eq_iff i j, get-set k j v fs)

pub get-delete :
    (k j : Text) (fs : Fields) → get j (delete k fs) ≡ (if text_eq k j then none else get j fs)
unfolding get delete
get-delete k j end = ground arith
get-delete k j (prop i w fs) =
    ground (arith, text_eq_iff k j, text_eq_iff i k, text_eq_iff i j, get-delete k j fs)

pub get_of_not_has : (k : Text) (fs : Fields) → has k fs ≡ false → get k fs ≡ none
unfolding get has
get_of_not_has k end h = refl
get_of_not_has k (prop j v fs) h = ground (arith, get_of_not_has k fs)
