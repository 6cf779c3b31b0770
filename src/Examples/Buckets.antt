-- ===== src/Examples/Buckets.antt =====
-- Buckets, manifests and logs.
use baerly_storage.Common.{
  ℕ, ◌≡◌, refl, Text, text_lt, starts_with, codes, true, false, ◌&&◌, none, some, List, [], ◌∷◌, In,
  ◌⊎◌, arith, ◌≤◌, ◌<◌, Bool-cases, inl, inr, text_eq_sound,
}
use baerly_storage.Common.Texts.{text_eq}
use mathlib.Core.Path.{subst}
use baerly_storage.Errors.{Result, ok, err, write_conflict}
use baerly_storage.Storage.{
  MemoryStorage, StoredObject, empty_storage, at, map_get, map_set, put, Op, put_op, delete_op,
  apply_op, run, list, store, check_create, check_match, assert_valid_storage_key, split_slash,
  has_dot_segment, get, if_changed, delete, map_delete,
}
use baerly_storage.Storage.Etags.{IsFresh, IsFresh-run, put-if_match, run-created, create-exclusive}
use baerly_storage.Storage.Listing.{IsSorted, list_lem}
use baerly_storage.CurrentJson.Bodies.{CurrentJson, Body, manifest, other_json}
use baerly_storage.CurrentJson.{
  assert_current_json, encode_json, cas_update_current_json, read_current_json, decode_read,
  decode_current, write_current, or_missing, assert_current_json_transition, log_delete_floor_of,
  log_seq_start_of, certified_delete_floor, natural, natural_if_present, string, string_or_null,
  string_if_present, generation_if_present, schema_supported, assert_fence, generation_matches,
}
use baerly_storage.CurrentJson.Guard.{
  IsValid, assert_current_json-IsValid, assert_current_json-encode_json,
}
use baerly_storage.CurrentJson.Updates.{Updated, cas_update_current_json-ok}
use baerly_storage.Log.{log_object_key, occupied, collection_prefix}
use baerly_storage.Log.Keys.{log_object_key-injective, log_object_key-valid}
use baerly_storage.Log.Tail.{find_log_tail}
use baerly_storage.Log.Tail.Found.{Searched, IsDense, find_log_tail-Searched, find_log_tail-IsDense}
use baerly_storage.Log.Retention.{
  retire_log_range, gate, retire_range, raise_floor, delete_slots, compute_retirable_range,
}
use baerly_storage.Log.Retention.Safe.{Retired, retire_log_range-ok}

abbrev k : Text
k = codes "a/b"

pub IsFresh-empty : {B : Type 0} → IsFresh (empty_storage {B = B})
unfolding at text_eq
IsFresh-empty = record { bounded = λ k o e. cc }

abbrev one_key : MemoryStorage ℕ
one_key = record { objects = (k, record { body = 7; etag = 1 }) ∷ []; etag_counter = 1 }

one_key-run : run (put_op k 7 false none ∷ []) empty_storage ≡ one_key
unfolding run apply_op put check_create check_match store map_set assert_valid_storage_key text_eq
one_key-run = refl

IsFresh-one_key : IsFresh one_key
unfolding run apply_op put check_create check_match store map_set assert_valid_storage_key text_eq
IsFresh-one_key = IsFresh-run (put_op k 7 false none ∷ []) empty_storage IsFresh-empty

abbrev others : List (Op ℕ)
others = put_op (codes "c") 1 false none ∷ put_op k 8 true none ∷ delete_op (codes "c") ∷ []

put-if_match_example : at (run others one_key) k ≡ some (record { body = 7; etag = 1 })
unfolding run apply_op put delete check_create check_match store map_set map_delete at
    assert_valid_storage_key text_eq
put-if_match_example =
    put-if_match one_key _ others k (record { body = 7; etag = 1 }) 9 3 IsFresh-one_key refl refl

run-created_example : at (run others one_key) k ≡ some (record { body = 7; etag = 1 })
unfolding at text_eq
run-created_example =
    run-created others one_key k (record { body = 7; etag = 1 })
      ((λ e. cc), ((λ e. refl), ((λ e. cc), tt))) refl

create-exclusive_example :
    (put (run others one_key) k 9 true none ≡ err write_conflict)
    × (at (run others one_key) k ≡ some (record { body = 7; etag = 1 }))
unfolding put check_create check_match store map_set at assert_valid_storage_key text_eq
create-exclusive_example =
    create-exclusive empty_storage one_key others k 7 9 1 refl
      ((λ e. cc), ((λ e. refl), ((λ e. cc), tt)))

list_lem_example :
    IsSorted (list one_key (codes "a") [] (some 1))
    × ((e : Text × ℕ)
        → In e (list one_key (codes "a") [] (some 1))
        → (o : StoredObject ℕ) × In (e.0, o) one_key.objects
          × (e.1 ≡ o.etag)
          × ((starts_with e.0 (codes "a") && text_lt [] e.0) ≡ true))
    × ((k : Text) (o : StoredObject ℕ)
        → at one_key k ≡ some o
        → (starts_with k (codes "a") && text_lt [] k) ≡ true
        → In (k, o.etag) (list one_key (codes "a") [] none))
list_lem_example = list_lem one_key (codes "a") [] (some 1)

abbrev pub a_manifest : CurrentJson
a_manifest = record {
  schema_version = 3;
  snapshot = none;
  tail_hint = 8;
  log_seq_start = 8;
  writer_fence = record { epoch = 0; owner = []; claimed_at = []; lease_until = none };
  snapshot_bytes = 0;
  snapshot_rows = 0;
  mean_entry_bytes = none;
  last_warned_seq = none;
  log_delete_floor = some 1;
  generation = some (codes "0f");
}

abbrev key : Text
key = codes "app/current.json"

a_manifest-IsValid : IsValid a_manifest
unfolding generation_matches
a_manifest-IsValid = record { supported = refl; ordered = omega arith; hex = refl }

assert_current_json-encode_json_example :
    assert_current_json (encode_json a_manifest) ≡ ok a_manifest
assert_current_json-encode_json_example =
    assert_current_json-encode_json a_manifest a_manifest-IsValid

assert_current_json-IsValid_example : IsValid a_manifest
assert_current_json-IsValid_example =
    assert_current_json-IsValid (encode_json a_manifest) a_manifest
      (assert_current_json-encode_json a_manifest a_manifest-IsValid)

abbrev a_bucket : MemoryStorage Body
a_bucket = record {
  objects =
      (key, record { body = manifest (encode_json a_manifest); etag = 1 })
      ∷ (log_object_key (codes "app") 2, record { body = other_json; etag = 2 })
      ∷ (log_object_key (codes "app") 8, record { body = other_json; etag = 3 })
      ∷ [];
  etag_counter = 3;
}

abbrev a_history : List (Op Body)
a_history =
    put_op key (manifest (encode_json a_manifest)) true none
    ∷ put_op (log_object_key (codes "app") 2) other_json true none
    ∷ put_op (log_object_key (codes "app") 8) other_json true none
    ∷ []

IsFresh-a_bucket : IsFresh a_bucket
unfolding run apply_op put check_create check_match store map_set at assert_valid_storage_key
    text_eq log_object_key
IsFresh-a_bucket = IsFresh-run a_history empty_storage IsFresh-empty

abbrev raised : CurrentJson → Result CurrentJson
raised c = ok (record c { log_seq_start = 9; tail_hint = 9 })

abbrev a_peer : List (Op Body)
a_peer = put_op (log_object_key (codes "app") 9) other_json true none ∷ []

cas_update_current_json-ok_example :
    (s : MemoryStorage Body) × Updated a_bucket a_peer key raised s
      (record a_manifest { log_seq_start = 9; tail_hint = 9 })
      5
unfolding cas_update_current_json read_current_json get if_changed at decode_read decode_current
    assert_current_json encode_json schema_supported string_or_null natural natural_if_present
    generation_if_present generation_matches assert_fence string string_if_present or_missing
    assert_current_json_transition log_delete_floor_of write_current run apply_op put check_create
    check_match store map_set assert_valid_storage_key text_eq log_object_key
cas_update_current_json-ok_example = (
  _,
  cas_update_current_json-ok a_bucket _ a_peer key raised
      (record a_manifest { log_seq_start = 9; tail_hint = 9 }) 5 IsFresh-a_bucket refl,
)

retire_log_range-ok_example :
    (s : MemoryStorage Body) × (((s ≡ a_bucket) × (◌≡◌ {A = ℕ} 3 0))
      ⊎ Retired (run [] a_bucket) [] a_peer key 2 3 s 3)
unfolding retire_log_range gate retire_range raise_floor delete_slots delete map_delete
    compute_retirable_range certified_delete_floor log_seq_start_of collection_prefix
    cas_update_current_json read_current_json get if_changed at decode_read decode_current
    assert_current_json encode_json schema_supported string_or_null natural natural_if_present
    generation_if_present generation_matches assert_fence string string_if_present or_missing
    assert_current_json_transition log_delete_floor_of write_current run apply_op put check_create
    check_match store map_set assert_valid_storage_key text_eq log_object_key
retire_log_range-ok_example =
    (_, retire_log_range-ok a_bucket _ [] [] a_peer key 2 3 3 IsFresh-a_bucket refl)

log_object_key-injective_example : ◌≡◌ {A = ℕ} 10 10
log_object_key-injective_example = log_object_key-injective (codes "app") 10 10 refl

log_object_key-valid_example : assert_valid_storage_key (log_object_key (codes "app") 10) ≡ ok tt
unfolding has_dot_segment split_slash text_eq
log_object_key-valid_example = log_object_key-valid (codes "app") 10 refl

find_log_tail-Searched_example :
    Searched (occupied a_bucket (codes "app")) 8 (find_log_tail a_bucket (codes "app") 8)
unfolding has_dot_segment split_slash text_eq
find_log_tail-Searched_example = find_log_tail-Searched a_bucket (codes "app") 8 refl

key_ne : (n : ℕ) → text_eq key (log_object_key (codes "app") n) ≡ false
unfolding text_eq log_object_key
key_ne n = refl

slot_ne :
    (m n : ℕ)
    → m < n
    → text_eq (log_object_key (codes "app") m) (log_object_key (codes "app") n) ≡ false
slot_ne m n h =
    elim (Bool-cases (text_eq (log_object_key (codes "app") m) (log_object_key (codes "app") n))) [
      | inl e ↦
          absurd (omega (arith, log_object_key-injective (codes "app") m n (text_eq_sound _ _ e)))
      | inr e ↦ e
    ]

other_slot : (n : ℕ) → 9 ≤ n → occupied a_bucket (codes "app") n ≡ false
unfolding occupied at map_get
other_slot n h = rw (key_ne n, slot_ne 2 n (omega arith), slot_ne 8 n (omega arith)) refl

a_bucket-IsDense : IsDense a_bucket (codes "app") 8 9
unfolding occupied log_object_key at text_eq
a_bucket-IsDense = record {
  behind = omega arith;
  below = λ n a b.
      let e : 8 ≡ n = omega arith in subst (λ m. occupied a_bucket (codes "app") m ≡ true) e refl;
  above = other_slot;
}

find_log_tail-IsDense_example : find_log_tail a_bucket (codes "app") 8 ≡ some (ok 9)
unfolding has_dot_segment split_slash text_eq
find_log_tail-IsDense_example =
    find_log_tail-IsDense a_bucket (codes "app") 8 9 refl a_bucket-IsDense (omega arith)
