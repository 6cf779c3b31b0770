-- ===== src/Compactor/Reads.antt =====
-- What a run folds is a part of what readers see: the base that the manifest names, and the first
-- entries behind its start.
use baerly_storage.Common.{
  ℕ, ◌+◌, ◌-◌, ◌≤◌, ◌≡◌, ap, sym, ◌∙◌, Text, true, Option, none, some, List, [], ◌++◌, arith,
  length, min, get_or, max,
}
use baerly_storage.Errors.{Result, ok, ◌>>=◌, >>=-eq-ok, ok-inj}
use baerly_storage.Storage.{MemoryStorage, StoredObject, at, run}
use baerly_storage.CurrentJson.{log_seq_start_of, all_hex, read_current_json, or_missing}
use baerly_storage.CurrentJson.Bodies.{Body, snapshot_json, CurrentJson}
use baerly_storage.Log.{collection_prefix}
use baerly_storage.Log.Fold.{DocMap}
use baerly_storage.Log.Walk.{walk_log_range, read_range}
use baerly_storage.Log.Walk.Chunks.{walk_log_range-read_range}
use baerly_storage.Snapshot.{after_last, snapshot_key, snapshot_path, is_sha256, expected_hash}
use baerly_storage.Snapshot.Names.{expected_hash-snapshot_path}
use baerly_storage.Snapshot.Rows.{Distinct, rows_onto-Distinct}
use baerly_storage.Snapshot.Loads.{load_snapshot_as_map-ok, load_snapshot_as_map_unique}
use baerly_storage.Compactor.{
  CompactOptions, Course, Fold, load_base, read_fold, probe_tail, probed_tail, snapshot_body,
}
use baerly_storage.Compactor.Prefix.{fold_prefix-Folded, fold_bodies}
use baerly_storage.Compactor.View.{read_range-front}

pub record ReadsOf (hash : Body → Text) (s : MemoryStorage Body) (c : Course)
    (current : CurrentJson) (prefix collection : Text) (tail : ℕ) (f : Fold) : Type 0 where
  pub base : DocMap
  pub front : List Body
  pub loaded : load_base hash (run c.before_load s) current.snapshot collection ≡ ok base
  pub range :
      read_range
        (run c.before_fetch (run c.before_load s))
        prefix
        (log_seq_start_of current)
        (length front)
      ≡ ok front
  pub few : length front ≤ tail - log_seq_start_of current
  pub applied : f.applied ≡ length front
  pub map : f.base ≡ fold_bodies collection front base

abbrev end_of : CompactOptions → CurrentJson → ℕ → ℕ
end_of options current tail = elim options.max_entries_per_run [
  | none ↦ tail
  | some m ↦ min tail (log_seq_start_of current + m)
]

end_of-tail :
    (options : CompactOptions) (current : CurrentJson) (tail : ℕ)
    → end_of options current tail ≤ tail
end_of-tail options current tail = below options.max_entries_per_run
  where
    below :
        (o : Option ℕ)
        → elim o [ none ↦ tail | some m ↦ min tail (log_seq_start_of current + m) ] ≤ tail
    below none = omega arith
    below (some m) = ground arith

pub read_fold-ReadsOf :
    (hash : Body → Text) (s : MemoryStorage Body) (c : Course) (options : CompactOptions)
    (current : CurrentJson) (prefix collection : Text) (tail : ℕ) (f : Fold)
    → read_fold hash s c options current prefix collection tail ≡ ok f
    → ReadsOf hash s c current prefix collection tail f
unfolding read_fold
read_fold-ReadsOf hash s c options current prefix collection tail f h =
    let start : ℕ = log_seq_start_of current in
    let there : MemoryStorage Body = run c.before_fetch (run c.before_load s) in
    let (base, loaded, h1) =
      >>=-eq-ok (load_base hash (run c.before_load s) current.snapshot collection) _ h in
    let (fetched, walked, h2) =
      >>=-eq-ok (walk_log_range there prefix start (end_of options current tail)) _ h1 in
    let whole = fold_prefix-Folded collection options.ceiling_entries fetched base in
    let read : read_range there prefix start (end_of options current tail - start)
        ≡ ok (whole.front ++ whole.back) =
      sym (walk_log_range-read_range there prefix start (end_of options current tail))
      ∙ walked
      ∙ ap ok whole.parts in
    let (few, range) =
      read_range-front there prefix start (end_of options current tail - start) whole.front
        whole.back read in
    record {
      base = base;
      front = whole.front;
      loaded = loaded;
      range = range;
      few = omega (arith, end_of-tail options current tail);
      applied = sym (ap (λ g. g.applied) (ok-inj h2)) ∙ whole.applied;
      map = sym (ap (λ g. g.base) (ok-inj h2)) ∙ whole.map;
    }

pub load_base-Distinct :
    (hash : Body → Text) (s : MemoryStorage Body) (o : Option Text) (collection : Text) (m : DocMap)
    → load_base hash s o collection ≡ ok m
    → Distinct m
unfolding load_base
load_base-Distinct hash s none collection m h = rw (sym (ok-inj h)) tt
load_base-Distinct hash s (some key) collection m h =
    let l = load_snapshot_as_map-ok hash s key collection m h in
    rw (l.rows) (rows_onto-Distinct l.parsed.docs [] tt)

pub load_base_unique :
    (hash : Body → Text) (s t : MemoryStorage Body) (o : Option Text) (collection : Text)
    (m n : DocMap)
    → ((j : Text) (x y : StoredObject Body)
        → at s j ≡ some x
        → at t j ≡ some y
        → hash x.body ≡ hash y.body
        → x.body ≡ y.body)
    → load_base hash s o collection ≡ ok m
    → load_base hash t o collection ≡ ok n
    → m ≡ n
unfolding load_base
load_base_unique hash s t none collection m n distinct h g = sym (ok-inj h) ∙ ok-inj g
load_base_unique hash s t (some key) collection m n distinct h g =
    load_snapshot_as_map_unique hash s t key collection collection m n (distinct key) h g

-- A key that is built names the hash it was built from.
pub snapshot_key-ok :
    (prefix sha key : Text) (m n : ℕ)
    → snapshot_key prefix m n sha ≡ ok key
    → (key ≡ snapshot_path prefix m n sha) × (expected_hash key ≡ sha)
unfolding snapshot_key
snapshot_key-ok prefix sha key m n h =
    let shaped : (is_sha256 sha ≡ true) × (key ≡ snapshot_path prefix m n sha) = ground arith in
    let hex : all_hex sha ≡ true = ground (arith, shaped.0) in
    (shaped.1, ap expected_hash shaped.1 ∙ expected_hash-snapshot_path prefix m n sha hex)

-- The snapshot that a run would write.
unfoldable pub own_snapshot :
    (Body → Text) → MemoryStorage Body → Course → CompactOptions → Text → Result Body
own_snapshot hash s c options key = do
  found ← read_current_json s key
  read ← or_missing found
  probe ←
      probe_tail (run c.before_probe s) (collection_prefix key)
        (max (max (log_seq_start_of read.0) read.0.tail_hint) (get_or options.known_tail 0))
        options.max_tail_probe_gets
  f ←
      read_fold hash (run c.before_probe s) c options read.0 (collection_prefix key)
        (after_last b'/' (collection_prefix key)) (probed_tail probe)
  ok (
      snapshot_json (
        snapshot_body (after_last b'/' (collection_prefix key))
          (log_seq_start_of read.0 + f.applied) f.base))
