-- ===== src/Examples/Folds.antt =====
-- A fold of one entry into a first snapshot, beside another client.
use baerly_storage.Common.{
  ℕ, ◌≡◌, ◌≢◌, ◌≤◌, refl, ap, sym, ◌∙◌, Text, codes, true, none, some, List, [], ◌∷◌, arith, length,
}
use mathlib.Core.Path.{subst}
use baerly_storage.Errors.{Result, ok, ok-inj}
use baerly_storage.Json.{end}
use baerly_storage.Storage.{MemoryStorage, empty_storage, Op, put_op}
use baerly_storage.Storage.Etags.{IsFresh-run}
use baerly_storage.CurrentJson.Bodies.{
  Body, manifest, entry, snapshot_json, other_json, malformed, pending_json, CurrentJson, LogEntry,
  LogOp, SnapshotBody,
}
use baerly_storage.Compactor.{CompactOptions, Course, CompactResult, written}
use baerly_storage.Compactor.View.{Stores, run-Stores}
use baerly_storage.Compactor.Shown.{Publication, IsOrderly}
use baerly_storage.Compactor.Keeps.{compact-Publication}
use baerly_storage.Compactor.{
  read_fold, load_base, probe_tail, is_exact, probed_tail, sum_bytes, fold_prefix, fold_body,
  adds_row_at_ceiling,
}
use baerly_storage.Compactor.Steps.{
  compact, with_manifest, with_tail, checkpoint, write_fold, over_ceiling, publish, next_manifest,
  publish_to, swap_manifest, swapped,
}
use baerly_storage.Compactor.Reads.{own_snapshot}
use baerly_storage.Snapshot.{
  pad, is_sha256, snapshot_name, snapshot_path, snapshot_key, mentions, after_last, expected_hash,
  strip_json, sorted_docs, insert_row, load_snapshot_as_map, pointed, decode_snapshot, rows_onto,
}
use baerly_storage.Snapshot.Loads.{load_snapshot_as_map_unique}
use baerly_storage.CurrentJson.{
  all_hex, generation_matches, read_current_json, decode_read, decode_current, or_missing,
  assert_current_json, assert_current_json_transition, encode_json, log_seq_start_of,
  log_delete_floor_of, natural, natural_if_present, string, string_or_null, string_if_present,
  generation_if_present, schema_supported, assert_fence,
}
use baerly_storage.Log.{log_slot, log_object_key, has_slash, collection_prefix, decode_json_bytes}
use baerly_storage.Log.Lsn.{zeros}
use baerly_storage.Log.Walk.{walk_log_range, walk_chunks, read_range, read_log_entry, found_entry}
use baerly_storage.Log.Fold.{doc_get, doc_set, doc_delete, passes, apply_image, fold_entry}
use baerly_storage.Storage.{
  at, map_get, map_set, get, put, store, check_create, check_match, if_changed,
  assert_valid_storage_key, split_slash, has_dot_segment, apply_op, run,
}
use baerly_storage.Common.Texts.{text_eq, text_lt}
use baerly_storage.Common.Decimal.{decimal, digits_onto}
use baerly_storage.Log.Tail.{probe_onto, probe_tail_chunk, exact_only, probe_tail_from}
use baerly_storage.Examples.Buckets.{IsFresh-empty}
use baerly_storage.Compactor.Prefix.{Folded, fold_prefix-Folded, length-fold_prefix}
use baerly_storage.Snapshot.Names.{expected_hash-snapshot_path}
use baerly_storage.Log.Walk.Chunks.{walk_log_range-read_range}

abbrev folds_manifest : CurrentJson
folds_manifest = record {
  schema_version = 3;
  snapshot = none;
  tail_hint = 0;
  log_seq_start = 0;
  writer_fence = record { epoch = 0; owner = []; claimed_at = []; lease_until = none };
  snapshot_bytes = 0;
  snapshot_rows = 0;
  mean_entry_bytes = none;
  last_warned_seq = none;
  log_delete_floor = none;
  generation = none;
}

abbrev an_entry : LogEntry
an_entry = record {
  lsn = codes "t";
  commit_ts = codes "now";
  op = LogOp.insert;
  collection = codes "app";
  doc_id = codes "d";
  after = some end;
  before = none;
  key_old = none;
  origin = none;
  session = codes "us";
  seq = 0;
}

abbrev folds_key : Text
folds_key = codes "app/current.json"

abbrev folds_history : List (Op Body)
folds_history =
    put_op folds_key (manifest (encode_json folds_manifest)) true none
    ∷ put_op (log_object_key (codes "app") 0) (entry an_entry) true none
    ∷ []

abbrev folds_store : MemoryStorage Body
folds_store = run folds_history empty_storage

abbrev a_snapshot : SnapshotBody
a_snapshot = record {
  schema_version = 1;
  min_seq = 0;
  max_seq = 1;
  collection = codes "app";
  docs = (codes "d", end) ∷ [];
}

a_hash : Body → Text
a_hash (manifest r) = zeros 1
a_hash (entry e) = zeros 2
a_hash (snapshot_json b) = zeros 64
a_hash other_json = zeros 3
a_hash malformed = zeros 0
a_hash (pending_json p) = zeros 5

abbrev Known : Body → Type 0
Known (manifest r) = r ≡ encode_json folds_manifest
Known (entry e) = e ≡ an_entry
Known (snapshot_json b) = b ≡ a_snapshot
Known other_json = Unit
Known malformed = Unit
Known (pending_json p) = ⊥

distinct : (a b : Body) → Known a → Known b → a_hash a ≡ a_hash b → a ≡ b
unfolding a_hash zeros
distinct (manifest a) (manifest b) x y h = ap manifest (x ∙ sym y)
distinct (manifest a) (entry b) x y h = absurd (omega (arith, ap length h))
distinct (manifest a) (snapshot_json b) x y h = absurd (omega (arith, ap length h))
distinct (manifest a) other_json x y h = absurd (omega (arith, ap length h))
distinct (manifest a) malformed x y h = absurd (omega (arith, ap length h))
distinct (entry a) (manifest b) x y h = absurd (omega (arith, ap length h))
distinct (entry a) (entry b) x y h = ap entry (x ∙ sym y)
distinct (entry a) (snapshot_json b) x y h = absurd (omega (arith, ap length h))
distinct (entry a) other_json x y h = absurd (omega (arith, ap length h))
distinct (entry a) malformed x y h = absurd (omega (arith, ap length h))
distinct (snapshot_json a) (manifest b) x y h = absurd (omega (arith, ap length h))
distinct (snapshot_json a) (entry b) x y h = absurd (omega (arith, ap length h))
distinct (snapshot_json a) (snapshot_json b) x y h = ap snapshot_json (x ∙ sym y)
distinct (snapshot_json a) other_json x y h = absurd (omega (arith, ap length h))
distinct (snapshot_json a) malformed x y h = absurd (omega (arith, ap length h))
distinct other_json (manifest b) x y h = absurd (omega (arith, ap length h))
distinct other_json (entry b) x y h = absurd (omega (arith, ap length h))
distinct other_json (snapshot_json b) x y h = absurd (omega (arith, ap length h))
distinct other_json other_json x y h = refl
distinct other_json malformed x y h = absurd (omega (arith, ap length h))
distinct malformed (manifest b) x y h = absurd (omega (arith, ap length h))
distinct malformed (entry b) x y h = absurd (omega (arith, ap length h))
distinct malformed (snapshot_json b) x y h = absurd (omega (arith, ap length h))
distinct malformed other_json x y h = absurd (omega (arith, ap length h))
distinct malformed malformed x y h = refl
distinct (manifest a) (pending_json b) x y h = absurd y
distinct (entry a) (pending_json b) x y h = absurd y
distinct (snapshot_json a) (pending_json b) x y h = absurd y
distinct other_json (pending_json b) x y h = absurd y
distinct malformed (pending_json b) x y h = absurd y
distinct (pending_json a) (pending_json b) x y h = absurd y
distinct (pending_json a) (manifest b) x y h = absurd x
distinct (pending_json a) (entry b) x y h = absurd x
distinct (pending_json a) (snapshot_json b) x y h = absurd x
distinct (pending_json a) other_json x y h = absurd x
distinct (pending_json a) malformed x y h = absurd x

abbrev a_length : Body → ℕ
a_length b = 9

abbrev folds_course : Course
folds_course = record {
  before_probe = [];
  before_load = [];
  before_fetch = [];
  before_put = [];
  before_cas = put_op (codes "app/notes") other_json true none ∷ [];
}

abbrev some_options : CompactOptions
some_options = record {
  max_entries_per_run = none;
  max_tail_probe_gets = some 5;
  min_entries_to_compact = some 1;
  ceiling_bytes = none;
  ceiling_entries = some 10;
  known_tail = none;
}

abbrev folded : MemoryStorage Body × Result CompactResult
folded = compact a_hash a_length folds_store folds_course some_options folds_key

abbrev new_key : Text
new_key = snapshot_path (codes "app") 0 1 (zeros 64)

written_result : folded.1 ≡ ok (written new_key 1)
unfolding a_hash compact with_manifest with_tail checkpoint write_fold over_ceiling publish
    next_manifest publish_to swap_manifest swapped read_fold load_base probe_tail is_exact
    probed_tail sum_bytes fold_prefix fold_body adds_row_at_ceiling own_snapshot pad is_sha256
    snapshot_name snapshot_path snapshot_key mentions after_last expected_hash strip_json
    sorted_docs insert_row all_hex generation_matches read_current_json decode_read decode_current
    or_missing assert_current_json assert_current_json_transition encode_json log_seq_start_of
    log_delete_floor_of natural natural_if_present string string_or_null string_if_present
    generation_if_present schema_supported assert_fence log_slot log_object_key has_slash
    collection_prefix decode_json_bytes zeros walk_log_range walk_chunks read_range read_log_entry
    found_entry doc_get doc_set doc_delete passes apply_image fold_entry at map_get map_set get put
    store check_create check_match if_changed assert_valid_storage_key split_slash has_dot_segment
    apply_op run text_eq text_lt decimal digits_onto probe_onto probe_tail_chunk exact_only
    probe_tail_from
written_result = refl

own_is :
    own_snapshot a_hash folds_store folds_course some_options folds_key
    ≡ ok (snapshot_json a_snapshot)
unfolding a_hash compact with_manifest with_tail checkpoint write_fold over_ceiling publish
    next_manifest publish_to swap_manifest swapped read_fold load_base probe_tail is_exact
    probed_tail sum_bytes fold_prefix fold_body adds_row_at_ceiling own_snapshot pad is_sha256
    snapshot_name snapshot_path snapshot_key mentions after_last expected_hash strip_json
    sorted_docs insert_row all_hex generation_matches read_current_json decode_read decode_current
    or_missing assert_current_json assert_current_json_transition encode_json log_seq_start_of
    log_delete_floor_of natural natural_if_present string string_or_null string_if_present
    generation_if_present schema_supported assert_fence log_slot log_object_key has_slash
    collection_prefix decode_json_bytes zeros walk_log_range walk_chunks read_range read_log_entry
    found_entry doc_get doc_set doc_delete passes apply_image fold_entry at map_get map_set get put
    store check_create check_match if_changed assert_valid_storage_key split_slash has_dot_segment
    apply_op run text_eq text_lt decimal digits_onto probe_onto probe_tail_chunk exact_only
    probe_tail_from
own_is = refl

notes_elsewhere : codes "app/notes" ≢ new_key
unfolding snapshot_path snapshot_name pad zeros decimal digits_onto
notes_elsewhere e = omega (arith, ap length e)

folds_course-IsOrderly : IsOrderly a_hash a_length Known folds_key new_key folds_course
folds_course-IsOrderly = record {
  known_probe = tt;
  known_load = tt;
  known_fetch = tt;
  known_put = tt;
  known_cas = (tt, tt);
  slots_put = λ i. tt;
  slots_cas = λ i. ((λ e. refl), tt);
  addressed = ((λ e. absurd (notes_elsewhere e)), tt);
}

Stores-empty : Stores Known empty_storage
unfolding at map_get
Stores-empty j o held = cc (held)

folds_store-Stores : Stores Known folds_store
folds_store-Stores = run-Stores Known folds_history empty_storage (refl, (refl, tt)) Stores-empty

compact-Publication_example : Publication a_hash a_length folds_store folded.0 folds_key new_key 1
compact-Publication_example =
    compact-Publication a_hash a_length Known distinct folds_store folded.0 folds_course
      some_options folds_key new_key 1 (IsFresh-run folds_history empty_storage IsFresh-empty)
      folds_store-Stores folds_course-IsOrderly (λ b h. subst Known (ok-inj (sym own_is ∙ h)) refl)
      (ap (λ r. (folded.0, r)) written_result)

length-fold_prefix_example :
    length (fold_prefix (codes "app") (some 10) (entry an_entry ∷ []) [] 0).0 ≤ 10
length-fold_prefix_example = length-fold_prefix (codes "app") 10 0 (entry an_entry ∷ []) []

-- The second document does not fit.
abbrev another_entry : LogEntry
another_entry = record an_entry { doc_id = codes "e" }

fold_prefix-Folded_example :
    Folded
      (codes "app")
      (some 1)
      (entry an_entry ∷ entry another_entry ∷ [])
      []
      ((codes "d", end) ∷ [])
      1
unfolding fold_prefix adds_row_at_ceiling fold_body fold_entry passes apply_image doc_set doc_get
    text_eq
fold_prefix-Folded_example =
    fold_prefix-Folded (codes "app") (some 1) (entry an_entry ∷ entry another_entry ∷ []) []

expected_hash-snapshot_path_example : expected_hash new_key ≡ zeros 64
expected_hash-snapshot_path_example =
    expected_hash-snapshot_path (codes "app") 0 1 (zeros 64) (unfold all_hex zeros in refl)

walk_log_range-read_range_example :
    walk_log_range folds_store (codes "app") 0 2 ≡ read_range folds_store (codes "app") 0 2
walk_log_range-read_range_example = walk_log_range-read_range folds_store (codes "app") 0 2

abbrev snapshot_store : MemoryStorage Body
snapshot_store = record {
  objects = (new_key, record { body = snapshot_json a_snapshot; etag = 1 }) ∷ [];
  etag_counter = 1;
}

snapshot_loads :
    load_snapshot_as_map a_hash snapshot_store new_key (codes "app")
    ≡ ok (rows_onto a_snapshot.docs [])
unfolding a_hash load_snapshot_as_map pointed decode_snapshot get if_changed at map_get text_eq
    assert_valid_storage_key split_slash has_dot_segment expected_hash mentions after_last
    strip_json snapshot_path snapshot_name pad zeros decimal digits_onto
snapshot_loads = refl

load_snapshot_as_map_unique_example : rows_onto a_snapshot.docs [] ≡ rows_onto a_snapshot.docs []
load_snapshot_as_map_unique_example =
    load_snapshot_as_map_unique a_hash snapshot_store snapshot_store new_key (codes "app")
      (codes "app") (rows_onto a_snapshot.docs []) (rows_onto a_snapshot.docs [])
      (λ o p e f h. cc (e, f)) snapshot_loads snapshot_loads
