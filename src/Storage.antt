-- ===== src/Storage.antt =====
-- protocol/src/storage/key.ts and storage/memory.ts: the reference object store. A key is its bytes,
-- an ETag is the counter value that the source prints in hexadecimal. `B` stands for bodies.
-- Abort signals, content types and the wall clock (`serverDate`) are left out.
pub mod Laws
pub mod Etags
pub mod Listing
use baerly_storage.Common.{
  ℕ, zero, suc, ◌+◌, ◌==◌, Text, text_eq, text_lt, starts_with, codes, Bool, true, false, ◌&&◌,
  ◌||◌, not, Option, none, some, List, [], ◌∷◌, if◌then◌else◌,
}
use baerly_storage.Errors.{
  Code, Result, ok, err, ◌>>=◌, ◌>>◌, throw_if, invalid_config, write_conflict,
}

-- `key.split("/")`
abbrev longer : ℕ → List Text → List Text
longer c [] = (c ∷ []) ∷ []
longer c (w ∷ ws) = (c ∷ w) ∷ ws

unfoldable pub split_slash : Text → List Text
split_slash [] = [] ∷ []
split_slash (x ∷ s) = let rest = split_slash s in if x == b'/' then [] ∷ rest else longer x rest

unfoldable pub has_dot_segment : List Text → Bool
has_dot_segment [] = false
has_dot_segment (segment ∷ rest) =
    text_eq segment (codes ".") || text_eq segment (codes "..") || has_dot_segment rest

abbrev is_empty_key : Text → Bool
is_empty_key [] = true
is_empty_key _ = false

unfoldable pub assert_valid_storage_key : Text → Result (Unit {0})
unfolding split_slash has_dot_segment
assert_valid_storage_key key =
    throw_if (is_empty_key key) invalid_config
    >> throw_if (has_dot_segment (split_slash key)) invalid_config

pub record StoredObject (B : Type 0) : Type 0 where
  pub body : B
  pub etag : ℕ

pub record MemoryStorage (B : Type 0) : Type 0 where
  pub objects : List (Text × StoredObject B)
  pub etag_counter : ℕ

abbrev pub empty_storage : {B : Type 0} → MemoryStorage B
empty_storage = record { objects = []; etag_counter = 0 }

-- A call that another client makes.
pub data Op (B : Type 0) : Type 0 where
  put_op : Text → B → Bool → Option ℕ → Op B
  delete_op : Text → Op B

module _ {B : Type 0} where
  -- `Map.get`, `Map.set` and `Map.delete`: a key that is there keeps its place.
  unfoldable pub map_get : Text → List (Text × StoredObject B) → Option (StoredObject B)
  map_get k [] = none
  map_get k ((j, o) ∷ m) = if text_eq j k then some o else map_get k m

  unfoldable pub map_set :
      Text → StoredObject B → List (Text × StoredObject B) → List (Text × StoredObject B)
  map_set k o [] = (k, o) ∷ []
  map_set k o ((j, p) ∷ m) = if text_eq j k then (j, o) ∷ m else (j, p) ∷ map_set k o m

  unfoldable pub map_delete : Text → List (Text × StoredObject B) → List (Text × StoredObject B)
  map_delete k [] = []
  map_delete k ((j, p) ∷ m) =
      let rest = map_delete k m in if text_eq j k then rest else (j, p) ∷ rest

  -- The object at a key, for statements.
  unfoldable pub at : MemoryStorage B → Text → Option (StoredObject B)
  unfolding map_get
  at s key = map_get key s.objects

  -- `ifNoneMatch` of a read names the ETag that the caller has.
  unfoldable pub if_changed : Option ℕ → Option (StoredObject B) → Option (StoredObject B)
  if_changed if_none_match none = none
  if_changed none (some stored) = some stored
  if_changed (some etag) (some stored) = if etag == stored.etag then none else some stored

  unfoldable pub get : MemoryStorage B → Text → Option ℕ → Result (Option (StoredObject B))
  unfolding at if_changed assert_valid_storage_key
  get s key if_none_match = assert_valid_storage_key key >> ok (if_changed if_none_match (at s key))

  -- The two preconditions of a write: `ifNoneMatch: "*"`, and `ifMatch` with an ETag.
  unfoldable pub check_create : Bool → Option (StoredObject B) → Result (Unit {0})
  check_create true (some existing) = err write_conflict
  check_create _ _ = ok tt

  unfoldable pub check_match : Option ℕ → Option (StoredObject B) → Result (Unit {0})
  check_match none existing = ok tt
  check_match (some etag) none = err write_conflict
  check_match (some etag) (some existing) = throw_if (not (existing.etag == etag)) write_conflict

  unfoldable pub store : MemoryStorage B → Text → B → MemoryStorage B
  unfolding map_set
  store s key body = record {
    objects = map_set key (record { body = body; etag = s.etag_counter + 1 }) s.objects;
    etag_counter = s.etag_counter + 1;
  }

  -- The new store and the new ETag; a refused write leaves the store as it is.
  unfoldable pub put : MemoryStorage B → Text → B → Bool → Option ℕ → Result (MemoryStorage B × ℕ)
  unfolding at check_create check_match store assert_valid_storage_key
  put s key body create_only if_match =
      assert_valid_storage_key key
      >> check_create create_only (at s key)
      >> check_match if_match (at s key)
      >> ok (store s key body, s.etag_counter + 1)

  unfoldable pub delete : MemoryStorage B → Text → Result (MemoryStorage B)
  unfolding map_delete assert_valid_storage_key
  delete s key =
      assert_valid_storage_key key >> ok (record s { objects = map_delete key s.objects })

  -- `list`: the keys under a prefix behind `start_after`, in byte order, at most `max_keys` of them.
  -- The runtime's `toSorted` stands here as an insertion sort.
  unfoldable pub listed : Text → Text → List (Text × StoredObject B) → List (Text × StoredObject B)
  listed prefix start_after [] = []
  listed prefix start_after ((k, o) ∷ m) =
      let rest = listed prefix start_after m in
      if starts_with k prefix && text_lt start_after k then (k, o) ∷ rest else rest

  unfoldable pub insert_sorted :
      Text × StoredObject B → List (Text × StoredObject B) → List (Text × StoredObject B)
  insert_sorted (k, o) [] = (k, o) ∷ []
  insert_sorted (k, o) ((j, p) ∷ m) =
      if text_lt j k then (j, p) ∷ insert_sorted (k, o) m else (k, o) ∷ (j, p) ∷ m

  unfoldable pub sort_by_key : List (Text × StoredObject B) → List (Text × StoredObject B)
  unfolding insert_sorted
  sort_by_key [] = []
  sort_by_key (e ∷ m) = insert_sorted e (sort_by_key m)

  -- The loop that yields entries until `max_keys` of them are out; `none` is no limit.
  unfoldable pub yield_up_to : Option ℕ → List (Text × StoredObject B) → List (Text × ℕ)
  yield_up_to limit [] = []
  yield_up_to (some zero) (e ∷ m) = []
  yield_up_to (some (suc n)) ((k, o) ∷ m) = (k, o.etag) ∷ yield_up_to (some n) m
  yield_up_to none ((k, o) ∷ m) = (k, o.etag) ∷ yield_up_to none m

  unfoldable pub list : MemoryStorage B → Text → Text → Option ℕ → List (Text × ℕ)
  unfolding listed sort_by_key yield_up_to
  list s prefix start_after max_keys =
      yield_up_to max_keys (sort_by_key (listed prefix start_after s.objects))

  -- The store after another client's call, whatever it answers.
  abbrev after_put : MemoryStorage B → Result (MemoryStorage B × ℕ) → MemoryStorage B
  after_put s (ok (s', etag)) = s'
  after_put s (err c) = s

  abbrev after_delete : MemoryStorage B → Result (MemoryStorage B) → MemoryStorage B
  after_delete s (ok s') = s'
  after_delete s (err c) = s

  unfoldable pub apply_op : Op B → MemoryStorage B → MemoryStorage B
  unfolding put delete
  apply_op (put_op key body create_only if_match) s =
      after_put s (put s key body create_only if_match)
  apply_op (delete_op key) s = after_delete s (delete s key)

  unfoldable pub run : List (Op B) → MemoryStorage B → MemoryStorage B
  unfolding apply_op
  run [] s = s
  run (op ∷ ops) s = run ops (apply_op op s)
