-- ===== src/Json/Merge.antt =====
-- What `merge` leaves at each key, and where it is not RFC 7386.
use baerly_storage.Common.{
  Text, text_eq, text_eq_iff, ◌≡◌, refl, ◌∙◌, ap, Option, none, some, Bool, true, false, not, arith,
  if◌then◌else◌, Bool-cases, &&_split, inl, inr,
}
use baerly_storage.Json.{
  JsonValue, Fields, null, bool, num, str, arr, obj, end, prop, get, has, distinct_keys, assign,
  is_forbidden_merge_key, merge_value, merge_fields, merge,
}
use baerly_storage.Json.Facts.{get-set, get-delete, get_of_not_has}

get-assign :
    (k j : Text) (o : Option JsonValue) (fs : Fields)
    → get j (assign k o fs) ≡ (if text_eq k j then o else get j fs)
unfolding assign
get-assign k j none fs = get-delete k j fs
get-assign k j (some v) fs = get-set k j v fs

-- What a patch's value leaves at a key where the target holds `target`: null removes the key, an
-- object over an object is merged into it, and any other value is taken as it is, an object with the
-- nulls in it.
unfoldable pub patched : JsonValue → Option JsonValue → Option JsonValue
patched null target = none
patched (obj patch) (some (obj target)) = merge (some (obj target)) (some (obj patch))
patched v target = some v

merge_value-patched :
    (v : JsonValue) (target : Option JsonValue) → merge_value v target ≡ patched v target
unfolding merge_value patched merge
merge_value-patched null target = refl
merge_value-patched (obj patch) none = refl
merge_value-patched (obj patch) (some (obj target)) = refl
merge_value-patched (obj patch) (some null) = refl
merge_value-patched (obj patch) (some (bool b)) = refl
merge_value-patched (obj patch) (some (num n)) = refl
merge_value-patched (obj patch) (some (str s)) = refl
merge_value-patched (obj patch) (some (arr xs)) = refl
merge_value-patched (bool b) target = refl
merge_value-patched (num n) target = refl
merge_value-patched (str s) target = refl
merge_value-patched (arr xs) target = refl

-- What the merged object holds at a key, from what patch, target and `combined` hold there.
unfoldable pub merged_at :
    Bool → Option JsonValue → Option JsonValue → Option JsonValue → Option JsonValue
merged_at true patch target combined = combined
merged_at false none target combined = combined
merged_at false (some p) target combined = patched p target

merge_fields-step :
    (key : Text) (v : JsonValue) (patch target combined : Fields)
    → merge_fields (prop key v patch) target combined
      ≡ merge_fields patch target (
          if is_forbidden_merge_key key
          then combined
          else assign key (merge_value v (get key target)) combined)
unfolding merge_value
merge_fields-step key v patch target combined = refl

merge_fields-end : (target combined : Fields) → merge_fields end target combined ≡ combined
unfolding merge_value
merge_fields-end target combined = refl

-- One key of the patch, after the keys behind it.
merged_at-step :
    (k j : Text) (v : JsonValue) (patch target combined : Fields)
    → not (has k patch) ≡ true
    → merged_at (is_forbidden_merge_key j) (get j patch) (get j target) (
        get j (
          if is_forbidden_merge_key k
          then combined
          else assign k (merge_value v (get k target)) combined))
      ≡ merged_at
          (is_forbidden_merge_key j)
          (if text_eq k j then some v else get j patch)
          (get j target)
          (get j combined)
unfolding merged_at
merged_at-step k j v patch target combined h = elim (Bool-cases (text_eq k j)) [
  | inl e ↦ same e
  | inr e ↦ ground (
    arith,
    get-assign k j (merge_value v (get k target)) combined,
    merge_value-patched v (get k target),
  )
]
  where
    absent : get k patch ≡ none
    absent = get_of_not_has k patch (ground arith)

    same :
        text_eq k j ≡ true
        → merged_at (is_forbidden_merge_key j) (get j patch) (get j target) (
            get j (
              if is_forbidden_merge_key k
              then combined
              else assign k (merge_value v (get k target)) combined))
          ≡ merged_at
              (is_forbidden_merge_key j)
              (if text_eq k j then some v else get j patch)
              (get j target)
              (get j combined)
    same e = ground (
      arith,
      absent,
      text_eq_iff k j,
      get-assign k j (merge_value v (get k target)) combined,
      merge_value-patched v (get k target),
    )

get-merge_fields :
    (j : Text) (patch target combined : Fields)
    → distinct_keys patch ≡ true
    → get j (merge_fields patch target combined)
      ≡ merged_at (is_forbidden_merge_key j) (get j patch) (get j target) (get j combined)
unfolding distinct_keys get
get-merge_fields j end target combined h = rw merge_fields-end (unfold merged_at in ground arith)
get-merge_fields j (prop k v patch) target combined h =
    let (fresh, rest) = &&_split (not (has k patch)) (distinct_keys patch) h in
    merge_value_step
    ∙ get-merge_fields j patch target
        (if is_forbidden_merge_key k
          then combined
          else assign k (merge_value v (get k target)) combined)
        rest
    ∙ merged_at-step k j v patch target combined fresh
  where
    merge_value_step :
        get j (merge_fields (prop k v patch) target combined)
        ≡ get j (
            merge_fields patch target (
              if is_forbidden_merge_key k
              then combined
              else assign k (merge_value v (get k target)) combined))
    merge_value_step = ap (get j) (merge_fields-step k v patch target combined)

-- For an object patch with pairwise different keys over an object: the result is an object that
-- holds, at each key, what the target holds if the key is forbidden or not in the patch, nothing
-- if the patch has null there, the merge of the two if both hold an object there, and otherwise the
-- patch's value as it is, an object with the nulls in it.
pub merge-get :
    (target patch : Fields)
    → distinct_keys patch ≡ true
    → (merged : Fields) × (merge (some (obj target)) (some (obj patch)) ≡ some (obj merged))
      × ((j : Text)
          → get j merged
            ≡ merged_at (is_forbidden_merge_key j) (get j patch) (get j target) (get j target))
unfolding merge merge_value
merge-get target patch h =
    (merge_fields patch target target, refl, λ j. get-merge_fields j patch target target h)
