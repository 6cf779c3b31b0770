-- ===== src/Storage/Laws.antt =====
-- What a write, a delete and a refused call leave at each key.
use baerly_storage.Common.{
  ℕ, ◌+◌, ◌≡◌, refl, Text, text_eq, text_eq_iff, text_eq_refl, Bool, true, Option, none, some, List,
  [], ◌∷◌, arith, if◌then◌else◌, Bool-cases, Option-cases, inl, inr, text_eq_sound, ◌∙◌, ap, ◌≤◌,
  ◌≢◌,
}
use baerly_storage.Errors.{ok, Result-cases}
use baerly_storage.Storage.{
  StoredObject, MemoryStorage, assert_valid_storage_key, map_get, map_set, map_delete, at, put,
  delete, store, check_create, check_match, Op, put_op, delete_op, apply_op, get, if_changed,
}

module _ {B : Type 0} where
  pub map_get-set :
      (k j : Text) (o : StoredObject B) (m : List (Text × StoredObject B))
      → map_get j (map_set k o m) ≡ (if text_eq k j then some o else map_get j m)
  unfolding map_get map_set
  map_get-set k j o [] = refl
  map_get-set k j o ((i, p) ∷ m) =
      ground (arith, text_eq_iff k j, text_eq_iff i k, text_eq_iff i j, map_get-set k j o m)

  pub map_get-delete :
      (k j : Text) (m : List (Text × StoredObject B))
      → map_get j (map_delete k m) ≡ (if text_eq k j then none else map_get j m)
  unfolding map_get map_delete
  map_get-delete k j [] = ground arith
  map_get-delete k j ((i, p) ∷ m) =
      ground (arith, text_eq_iff k j, text_eq_iff i k, text_eq_iff i j, map_get-delete k j m)

  pub at-store :
      (s : MemoryStorage B) (k j : Text) (b : B)
      → at (store s k b) j
        ≡ (if text_eq k j then some (record { body = b; etag = s.etag_counter + 1 }) else at s j)
  unfolding at store
  at-store s k j b = map_get-set k j (record { body = b; etag = s.etag_counter + 1 }) s.objects

  -- A write that is accepted stores the body under a new ETag, and met both preconditions.
  pub put-ok :
      (s s' : MemoryStorage B) (k : Text) (b : B) (create_only : Bool) (if_match : Option ℕ)
      (etag : ℕ)
      → put s k b create_only if_match ≡ ok (s', etag)
      → (s' ≡ store s k b)
        × (etag ≡ s.etag_counter + 1)
        × (check_create create_only (at s k) ≡ ok tt)
        × (check_match if_match (at s k) ≡ ok tt)
  unfolding put
  put-ok s s' k b c m etag h = ground arith

  pub put-valid :
      (s s' : MemoryStorage B) (k : Text) (b : B) (create_only : Bool) (if_match : Option ℕ)
      (etag : ℕ)
      → put s k b create_only if_match ≡ ok (s', etag)
      → assert_valid_storage_key k ≡ ok tt
  unfolding put
  put-valid s s' k b c m etag h = ground arith

  pub at-put :
      (s s' : MemoryStorage B) (k : Text) (b : B) (create_only : Bool) (if_match : Option ℕ)
      (etag : ℕ)
      → put s k b create_only if_match ≡ ok (s', etag)
      → at s' k ≡ some (record { body = b; etag = etag })
  at-put s s' k b c m etag h =
      let f = put-ok s s' k b c m etag h in rw (f.0, f.1, at-store, text_eq_refl)

  pub delete-ok :
      (s s' : MemoryStorage B) (k j : Text)
      → delete s k ≡ ok s'
      → (at s' j ≡ (if text_eq k j then none else at s j)) × (s'.etag_counter ≡ s.etag_counter)
  unfolding delete at
  delete-ok s s' k j h = ground (arith, map_get-delete k j s.objects)

  pub check_create-ok : (o : Option (StoredObject B)) → check_create true o ≡ ok tt → o ≡ none
  unfolding check_create
  check_create-ok none h = refl
  check_create-ok (some o) h = cc

  pub check_match-ok :
      (etag : ℕ) (o : Option (StoredObject B))
      → check_match (some etag) o ≡ ok tt
      → (p : StoredObject B) × (o ≡ some p) × (p.etag ≡ etag)
  unfolding check_match
  check_match-ok etag none h = cc
  check_match-ok etag (some p) h = (p, refl, ground arith)

  -- A peer's call leaves a key as it is, or puts a new object there, or removes what was there.
  pub data Change (s : MemoryStorage B) (k : Text) (op : Op B) (s' : MemoryStorage B) : Type 0 where
    same : at s' k ≡ at s k → Change s k op s'
    written :
        (b : B) (create_only : Bool) (if_match : Option ℕ)
        → op ≡ put_op k b create_only if_match
        → at s' k ≡ some (record { body = b; etag = s.etag_counter + 1 })
        → s'.etag_counter ≡ s.etag_counter + 1
        → check_create create_only (at s k) ≡ ok tt
        → Change s k op s'
    removed : op ≡ delete_op k → at s' k ≡ none → Change s k op s'

  store-Change :
      (s : MemoryStorage B) (j k : Text) (b : B) (c : Bool) (m : Option ℕ)
      → check_create c (at s j) ≡ ok tt
      → Change s k (put_op j b c m) (store s j b)
  store-Change s j k b c m h = elim (Bool-cases (text_eq j k)) [
    | inl e ↦
        let p = text_eq_sound j k e in
        written b c m (ap (λ i. put_op i b c m) p) (at-store s j k b ∙ rw e) (unfold store in refl)
          (rw (← p) h)
    | inr e ↦ same (at-store s j k b ∙ rw e)
  ]

  delete-Change :
      (s s' : MemoryStorage B) (j k : Text) → delete s j ≡ ok s' → Change s k (delete_op j) s'
  delete-Change s s' j k h = elim (Bool-cases (text_eq j k)) [
    | inl e ↦ removed (ap delete_op (text_eq_sound j k e)) ((delete-ok s s' j k h).0 ∙ rw e)
    | inr e ↦ same ((delete-ok s s' j k h).0 ∙ rw e)
  ]

  pub apply_op-Change : (op : Op B) (s : MemoryStorage B) (k : Text) → Change s k op (apply_op op s)
  unfolding apply_op
  apply_op-Change (put_op j b c m) s k = elim (Result-cases (put s j b c m)) [
    | inl ((s', etag), e) ↦
        let f = put-ok s s' j b c m etag e in rw (e, f.0) (store-Change s j k b c m f.2)
    | inr (code, e) ↦ rw e (same refl)
  ]
  apply_op-Change (delete_op j) s k = elim (Result-cases (delete s j)) [
    | inl (s', e) ↦ rw e (delete-Change s s' j k e)
    | inr (code, e) ↦ rw e (same refl)
  ]

  pub counter-apply_op :
      (op : Op B) (s : MemoryStorage B) → s.etag_counter ≤ (apply_op op s).etag_counter
  unfolding apply_op store
  counter-apply_op (put_op j b c m) s = elim (Result-cases (put s j b c m)) [
    | inl ((s', etag), e) ↦ rw (e, (put-ok s s' j b c m etag e).0) (omega arith)
    | inr (code, e) ↦ rw e (omega arith)
  ]
  counter-apply_op (delete_op j) s = elim (Result-cases (delete s j)) [
    | inl (s', e) ↦ rw e (omega (arith, (delete-ok s s' j j e).1))
    | inr (code, e) ↦ rw e (omega arith)
  ]

  pub get-at :
      (s : MemoryStorage B) (k : Text)
      → assert_valid_storage_key k ≡ ok tt
      → get s k none ≡ ok (at s k)
  unfolding get if_changed
  get-at s k v = elim (Option-cases (at s k)) [ inl e ↦ rw (v, e) | inr (o, e) ↦ rw (v, e) ]

  delete-valid :
      (s : MemoryStorage B) (k : Text)
      → assert_valid_storage_key k ≡ ok tt
      → (s' : MemoryStorage B) × (delete s k ≡ ok s')
  unfolding delete
  delete-valid s k v = (record s { objects = map_delete k s.objects }, rw v refl)

  pub at-delete :
      (s : MemoryStorage B) (k j : Text)
      → assert_valid_storage_key k ≡ ok tt
      → at (apply_op (delete_op k) s) j ≡ (if text_eq k j then none else at s j)
  unfolding apply_op
  at-delete s k j v = let (s', e) = delete-valid s k v in rw (e, apply_op) (delete-ok s s' k j e).0

-- A write to one key leaves the others as they were.
pub at-put-other :
    {B : Type 0} (s s' : MemoryStorage B) (key j : Text) (b : B) (c : Bool) (m : Option ℕ)
    (etag : ℕ)
    → put s key b c m ≡ ok (s', etag)
    → key ≢ j
    → at s' j ≡ at s j
at-put-other s s' key j b c m etag h ne = elim (Bool-cases (text_eq key j)) [
  | inl e ↦ absurd (ne (text_eq_sound key j e))
  | inr e ↦ rw ((put-ok s s' key b c m etag h).0, at-store s key j b, e) refl
]
