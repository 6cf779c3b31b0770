-- ===== src/Json.antt =====
-- protocol/src/json.ts: document values, their structural equality, and the merge patch.
-- A string is its UTF-16 code units. A finite number is counted in units of 2^-1074, the least
-- positive double, so that order and equality of doubles are those of the counts. Objects are
-- their own properties in insertion order; `undefined` is `none`.
mod Facts
pub mod Equality
pub mod Merge
use mathlib.Core.Option
use baerly_storage.Common.{
  ℕ, zero, suc, ◌+◌, Text, text_eq, Bool, true, false, ◌&&◌, ◌||◌, not, Option, none, some, List,
  [], ◌∷◌, codes, if◌then◌else◌, ◌==◌,
}
use baerly_storage.Common.Int.{ℤ, pos_part, neg_part}

mutual
  pub data JsonValue : Type 0 where
    null : JsonValue
    bool : Bool → JsonValue
    num : ℤ → JsonValue
    str : Text → JsonValue
    arr : Items → JsonValue
    obj : Fields → JsonValue

  pub data Fields : Type 0 where
    prop : Text → JsonValue → Fields → Fields
    end : Fields

  pub data Items : Type 0 where
    cons : JsonValue → Items → Items
    nil : Items

-- `Array.length`, and the number of `Object.keys`.
unfoldable pub length_items : Items → ℕ
length_items nil = 0
length_items (cons x xs) = suc (length_items xs)

unfoldable pub length_fields : Fields → ℕ
length_fields end = 0
length_fields (prop k v fs) = suc (length_fields fs)

-- `o[key]` for an own property.
unfoldable pub get : Text → Fields → Option JsonValue
get k end = none
get k (prop j v fs) = if text_eq j k then some v else get k fs

-- `o[key] = value` on a JavaScript object: an existing key keeps its place.
unfoldable pub set : Text → JsonValue → Fields → Fields
set k v end = prop k v end
set k v (prop j w fs) = if text_eq j k then prop j v fs else prop j w (set k v fs)

-- `delete o[key]`.
unfoldable pub delete : Text → Fields → Fields
delete k end = end
delete k (prop j w fs) = let rest = delete k fs in if text_eq j k then rest else prop j w rest

-- The keys of an object are pairwise different.
unfoldable pub has : Text → Fields → Bool
has k end = false
has k (prop j v fs) = text_eq j k || has k fs

unfoldable pub distinct_keys : Fields → Bool
unfolding has
distinct_keys end = true
distinct_keys (prop k v fs) = not (has k fs) && distinct_keys fs

-- `===` on two values that are not both objects.
eq_bool : Bool → Bool → Bool
eq_bool true b = b
eq_bool false b = not b

unfoldable pub strict_eq : JsonValue → JsonValue → Bool
unfolding eq_bool
strict_eq null null = true
strict_eq (bool a) (bool b) = eq_bool a b
strict_eq (num a) (num b) = pos_part a + neg_part b == pos_part b + neg_part a
strict_eq (str a) (str b) = text_eq a b
strict_eq _ _ = false

-- One round of the `while` of `jsonValueEqual`: the pairs of children pushed, or `none` where the
-- round returns false. Two references to one object are taken as two equal objects.
unfoldable pub push_items :
    Items → Items → List (JsonValue × JsonValue) → List (JsonValue × JsonValue)
push_items nil ys pending = pending
push_items (cons x xs) nil pending = pending
push_items (cons x xs) (cons y ys) pending = push_items xs ys ((x, y) ∷ pending)

unfoldable pub push_fields :
    Fields → Fields → List (JsonValue × JsonValue) → Option (List (JsonValue × JsonValue))
push_fields end right pending = some pending
push_fields (prop k v fs) right pending = elim (get k right) [
  | none ↦ none
  | some w ↦ push_fields fs right ((v, w) ∷ pending)
]

unfoldable pub equal_round :
    JsonValue → JsonValue → List (JsonValue × JsonValue) → Option (List (JsonValue × JsonValue))
unfolding push_items push_fields strict_eq length_items length_fields
equal_round (arr xs) (arr ys) pending =
    if length_items xs == length_items ys then some (push_items xs ys pending) else none
equal_round (obj fs) (obj gs) pending =
    if length_fields fs == length_fields gs then push_fields fs gs pending else none
equal_round left right pending = if strict_eq left right then some pending else none

-- The loop, on fuel; `none` means that the fuel ran out.
unfoldable pub equal_loop : ℕ → List (JsonValue × JsonValue) → Option Bool
equal_loop fuel [] = some true
equal_loop zero (p ∷ pending) = none
equal_loop (suc fuel) ((left, right) ∷ pending) = elim (equal_round left right pending) [
  | none ↦ some false
  | some more ↦ equal_loop fuel more
]

-- The values in a value: each round takes one from the left side.
unfoldable mutual
  pub size_fields : Fields → ℕ
  size_fields (prop key value others) = size value + size_fields others
  size_fields end = 0

  pub size_items : Items → ℕ
  size_items (cons item others) = size item + size_items others
  size_items nil = 0

  pub size : JsonValue → ℕ
  size (obj props) = suc (size_fields props)
  size (arr items) = suc (size_items items)
  size (str s) = 1
  size (num n) = 1
  size (bool b) = 1
  size null = 1

unfoldable pub json_value_equal : JsonValue → JsonValue → Option Bool
json_value_equal a b = equal_loop (size a) ((a, b) ∷ [])

-- `FORBIDDEN_MERGE_KEYS.has(key)`.
unfoldable pub is_forbidden_merge_key : Text → Bool
is_forbidden_merge_key k =
    text_eq k (codes "__proto__")
    || text_eq k (codes "constructor")
    || text_eq k (codes "prototype")

-- `delete combined[key]` where the patch has null, else `combined[key] = …`. A merge gives no value
-- exactly for null.
unfoldable pub assign : Text → Option JsonValue → Fields → Fields
unfolding set delete
assign key none combined = delete key combined
assign key (some v) combined = set key v combined

-- `merge`, at a patch that is not `undefined`. `combined` starts as a copy of the target.
unfoldable mutual
  pub merge_value : JsonValue → Option JsonValue → Option JsonValue
  merge_value null target = none
  merge_value (obj patch) none = some (obj patch)
  merge_value (obj patch) (some (obj target)) = some (obj (merge_fields patch target target))
  merge_value (obj patch) (some other) = some (obj patch)
  merge_value (bool b) target = some (bool b)
  merge_value (num n) target = some (num n)
  merge_value (str s) target = some (str s)
  merge_value (arr xs) target = some (arr xs)

  pub merge_fields : Fields → Fields → Fields → Fields
  merge_fields end target combined = combined
  merge_fields (prop key value patch) target combined = merge_fields patch target (
      if is_forbidden_merge_key key
      then combined
      else assign key (merge_value value (get key target)) combined)

unfoldable pub merge : Option JsonValue → Option JsonValue → Option JsonValue
merge target none = target
merge target (some patch) = merge_value patch target
