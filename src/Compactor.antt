-- ===== src/Compactor.antt =====
-- server/src/compactor.ts: one fold of the log into a snapshot. `hash` and `byte_length` are of the
-- bytes of a body. A course holds the calls of other clients after the manifest's read, before the
-- snapshot's load, before the fetch, before the snapshot's write and before the manifest's.
pub mod Steps
pub mod Prefix
pub mod SameDocs
pub mod View
pub mod Runs
pub mod Reads
pub mod Shown
pub mod Keeps
use baerly_storage.Common.{
  ℕ, zero, suc, ◌+◌, ◌-◌, ◌*◌, ◌/◌, Text, text_eq, Bool, true, false, ltb, leb, ◌==◌, ◌&&◌, ◌||◌,
  not, Option, none, some, List, [], ◌∷◌, if◌then◌else◌, length, min, max, get_or,
}
use baerly_storage.Errors.{
  Code, Result, ok, err, ◌>>=◌, ◌>>◌, throw_if, invalid_config, is_write_conflict,
}
use baerly_storage.Json.{Fields}
use baerly_storage.Storage.{MemoryStorage, put, Op, run}
use baerly_storage.CurrentJson.Bodies.{
  Body, manifest, entry, snapshot_json, SnapshotBody, CurrentJson, LogEntry, LogOp,
}
use baerly_storage.CurrentJson.{
  read_current_json, encode_json, log_seq_start_of, assert_current_json_transition,
}
use baerly_storage.Log.{collection_prefix}
use baerly_storage.Log.Fold.{DocMap, doc_get, fold_entry}
use baerly_storage.Log.Tail.{
  TailProbeChunk, exact, at_least, probe_tail_from, probe_tail_chunk, log_forward_probe_cap,
}
use baerly_storage.Log.Walk.{walk_log_range}
use baerly_storage.Snapshot.{snapshot_key, load_snapshot_as_map, sorted_docs, after_last}

-- `none` is `undefined`; a ceiling that is not given is infinite.
pub record CompactOptions : Type 0 where
  pub max_entries_per_run : Option ℕ
  pub max_tail_probe_gets : Option ℕ
  pub min_entries_to_compact : Option ℕ
  pub ceiling_bytes : Option ℕ
  pub ceiling_entries : Option ℕ
  pub known_tail : Option ℕ

pub record Course : Type 0 where
  pub before_probe : List (Op Body)
  pub before_load : List (Op Body)
  pub before_fetch : List (Op Body)
  pub before_put : List (Op Body)
  pub before_cas : List (Op Body)

-- The outcomes that are no error. A written or lost fold names its snapshot and its end.
pub data CompactResult : Type 0 where
  current_json_missing below_min_threshold probe_budget_checkpointed checkpoint_lost : CompactResult
  deferred : CompactResult
  cas_lost written : Text → ℕ → CompactResult

-- `x <= ceiling`
abbrev pub within : ℕ → Option ℕ → Bool
within x none = true
within x (some ceiling) = leb x ceiling

abbrev pub below : ℕ → Option ℕ → Bool
below x none = true
below x (some ceiling) = ltb x ceiling

abbrev pub has_image : LogOp → Option Fields → Bool
has_image LogOp.delete after = false
has_image _ none = false
has_image _ (some doc) = true

abbrev pub has_row : Text → DocMap → Bool
has_row id m = elim (doc_get id m) [ none ↦ false | some doc ↦ true ]

-- The entry would add a row to a snapshot at its ceiling.
unfoldable pub adds_row_at_ceiling : Text → Option ℕ → Body → DocMap → Bool
adds_row_at_ceiling collection ceiling (entry e) base =
    text_eq e.collection collection
    && has_image e.op e.after
    && not (has_row e.doc_id base)
    && not (below (length base) ceiling)
adds_row_at_ceiling collection ceiling _ base = false

-- JSON that is no log entry has neither the collection nor a document id.
unfoldable pub fold_body : Text → Body → DocMap → DocMap
fold_body collection (entry e) base = fold_entry collection none e base
fold_body collection _ base = base

-- The map and the number of entries applied.
unfoldable pub fold_prefix : Text → Option ℕ → List Body → DocMap → ℕ → DocMap × ℕ
unfolding adds_row_at_ceiling fold_body
fold_prefix collection ceiling [] base applied = (base, applied)
fold_prefix collection ceiling (b ∷ fetched) base applied =
    let rest = fold_prefix collection ceiling fetched (fold_body collection b base) (applied + 1) in
    if adds_row_at_ceiling collection ceiling b base then (base, applied) else rest

abbrev pub snapshot_body : Text → ℕ → DocMap → SnapshotBody
snapshot_body collection fold_end base = record {
  schema_version = 1;
  min_seq = 0;
  max_seq = fold_end;
  collection = collection;
  docs = sorted_docs base;
}

-- `Math.round(sum / count)`
abbrev pub rounded : ℕ → ℕ → ℕ
rounded sum count = (2 * sum + count) / (2 * count)

unfoldable pub sum_bytes : (Body → ℕ) → ℕ → List Body → ℕ
sum_bytes byte_length zero bodies = 0
sum_bytes byte_length (suc n) [] = 0
sum_bytes byte_length (suc n) (b ∷ bodies) = byte_length b + sum_bytes byte_length n bodies

-- `maxTailProbeGets` is at least 1 where it is given.
abbrev pub positive_option : Option ℕ → Result (Unit {0})
positive_option (some zero) = err invalid_config
positive_option _ = ok tt

unfoldable pub probed_tail : TailProbeChunk → ℕ
probed_tail (exact tail entries complete) = tail
probed_tail (at_least lower_bound entries complete) = lower_bound

unfoldable pub is_exact : TailProbeChunk → Bool
is_exact (exact tail entries complete) = true
is_exact (at_least lower_bound entries complete) = false

unfoldable pub probe_tail : MemoryStorage Body → Text → ℕ → Option ℕ → Result TailProbeChunk
probe_tail s prefix floor none = do
  found ← probe_tail_from s prefix floor log_forward_probe_cap
  ok (exact found.0 found.1 true)
probe_tail s prefix floor (some cap) = probe_tail_chunk s prefix floor cap false

unfoldable pub load_base : (Body → Text) → MemoryStorage Body → Option Text → Text → Result DocMap
load_base hash s none collection = ok []
load_base hash s (some key) collection = load_snapshot_as_map hash s key collection

-- The fold of a run, read from the store but not yet written.
pub record Fold : Type 0 where
  pub base : DocMap
  pub applied : ℕ
  pub fetched : List Body

unfoldable pub read_fold :
    (Body → Text)
    → MemoryStorage Body
    → Course
    → CompactOptions
    → CurrentJson
    → Text
    → Text
    → ℕ
    → Result Fold
read_fold hash s c options current prefix collection next_seq = do
  base ← load_base hash (run c.before_load s) current.snapshot collection
  fetched ←
      walk_log_range (run c.before_fetch (run c.before_load s)) prefix (log_seq_start_of current)
        (elim options.max_entries_per_run [
          | none ↦ next_seq
          | some m ↦ min next_seq (log_seq_start_of current + m)
        ])
  ok (record {
    base = (fold_prefix collection options.ceiling_entries fetched base 0).0;
    applied = (fold_prefix collection options.ceiling_entries fetched base 0).1;
    fetched = fetched;
  })
