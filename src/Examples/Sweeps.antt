-- ===== src/Examples/Sweeps.antt =====
-- A pass of garbage collection over one old snapshot.
use baerly_storage.Common.{
  ℕ, ◌≤◌, ◌≡◌, ◌≢◌, refl, ap, ◌⊎◌, ◌↔◌, In, Text, codes, true, Bool, Option, none, some, [], ◌∷◌,
  length, arith,
}
use baerly_storage.Common.Decimal.{decimal, digits_onto}
use baerly_storage.Storage.{MemoryStorage, at}
use baerly_storage.CurrentJson.{encode_json}
use baerly_storage.Log.{collection_prefix, has_slash}
use baerly_storage.Gc.Run.{GcCourse, RunGcOptions, mark_orphans, run_gc}
use baerly_storage.Gc.Marks.{Marked, In-mark_orphans}
use baerly_storage.Gc.Elsewhere.{AllElsewhere}
use baerly_storage.Gc.Passes.{ledger_of, TakenBy, run_gc-Taken}
use baerly_storage.CurrentJson.Bodies.{Body, other_json, manifest}
use baerly_storage.Log.Lsn.{zeros}
use baerly_storage.Snapshot.{snapshot_path, snapshot_name, pad}
use baerly_storage.GcPending.{
  GcCandidate, GcPending, orphan_snapshot, gc_pending_key, merge_gc_pending, holds_key,
}
use baerly_storage.GcPending.Merges.{Merged, merge_gc_pending-Merged}
use baerly_storage.Gc.{arm_of, dropped_keys, split_candidates}
use baerly_storage.Gc.Safe.{length-split_candidates}
use baerly_storage.Gc.Deletes.{Collected, delete_candidates-Collected}
use baerly_storage.Examples.Buckets.{a_manifest}

abbrev old_key : Text
old_key = snapshot_path (codes "app") 0 1 (zeros 64)

abbrev an_orphan : GcCandidate
an_orphan = record {
  key = old_key;
  due_at = codes "2026-01-01";
  reason = orphan_snapshot;
  generation = some (codes "0f");
}

abbrev a_ledger : GcPending
a_ledger = record { schema_version = 1; candidates = an_orphan ∷ []; last_swept_at = [] }

abbrev old_store : MemoryStorage Body
old_store = record {
  objects = (old_key, record { body = other_json; etag = 1 }) ∷ [];
  etag_counter = 1;
}

abbrev always : GcCandidate → Bool
always c = true

delete_candidates-Collected_example :
    Collected always
      (codes "app")
      a_manifest
      (some a_manifest)
      (split_candidates always
        (codes "app")
        (some a_manifest)
        (dropped_keys (arm_of (codes "app") a_manifest (some a_manifest)) (an_orphan ∷ []))
        none
        0
        (an_orphan ∷ [])).0
      old_store
delete_candidates-Collected_example =
    delete_candidates-Collected always (codes "app") a_manifest (some a_manifest) none
      (an_orphan ∷ []) old_store

length-split_candidates_example :
    length
      (split_candidates always (codes "app") (some a_manifest) [] (some 1) 0 (an_orphan ∷ [])).0
    ≤ 1
length-split_candidates_example =
    length-split_candidates always (codes "app") (some a_manifest) [] 1 0 (an_orphan ∷ [])

merge_gc_pending-Merged_example :
    Merged a_ledger
      (old_key ∷ [])
      5
      (merge_gc_pending a_ledger (old_key ∷ []) (an_orphan ∷ []) (codes "2026-02-02") 5)
unfolding holds_key
merge_gc_pending-Merged_example =
    merge_gc_pending-Merged a_ledger (old_key ∷ []) (an_orphan ∷ []) (codes "2026-02-02") 5
      (refl, tt)

abbrev swept_store : MemoryStorage Body
swept_store = record {
  objects =
      (codes "app/current.json", record { body = manifest (encode_json a_manifest); etag = 1 })
      ∷ (old_key, record { body = other_json; etag = 2 })
      ∷ [];
  etag_counter = 2;
}

abbrev quiet : GcCourse
quiet = record {
  before_pending = [];
  before_create = [];
  before_reread = [];
  before_list = [];
  before_fresh = [];
  before_delete = [];
  between = λ n. record { before_read = []; before_write = [] };
  mark_time = λ k. 5;
  sweep_time = 5;
  end_time = 6;
}

abbrev no_grace : RunGcOptions
no_grace = record { grace_millis = some 0; max_marks_per_run = none; max_sweeps_per_run = none }

abbrev read_date : Text → Option ℕ
read_date s = some (length s)

old_key_apart : gc_pending_key (codes "app") ≢ old_key
unfolding snapshot_path snapshot_name pad zeros decimal digits_onto
old_key_apart e = omega (arith, ap length e)

quiet-AllElsewhere : AllElsewhere old_key quiet
quiet-AllElsewhere = record {
  pending = tt;
  create = tt;
  reread = tt;
  listing = tt;
  fresh = tt;
  delete = tt;
  reads = λ n. tt;
  writes = λ n. tt;
}

run_gc-Taken_example :
    (at (run_gc read_date zeros swept_store quiet no_grace (codes "app/current.json")).0 old_key
      ≡ at swept_store old_key)
    ⊎ TakenBy read_date zeros swept_store quiet no_grace
        (codes "app/current.json")
        (ledger_of read_date zeros swept_store quiet (codes "app/current.json"))
        old_key
unfolding collection_prefix has_slash
run_gc-Taken_example =
    run_gc-Taken read_date zeros old_key swept_store quiet no_grace (codes "app/current.json")
      old_key_apart quiet-AllElsewhere

abbrev its_mark : GcCandidate
its_mark = record {
  key = old_key;
  due_at = zeros 5;
  reason = orphan_snapshot;
  generation = a_manifest.generation;
}

In-mark_orphans_example :
    In its_mark
      (mark_orphans read_date zeros quiet no_grace (codes "app") a_manifest [] ((old_key, 2) ∷ []))
    ↔ Marked read_date zeros quiet no_grace (codes "app") a_manifest [] ((old_key, 2) ∷ []) its_mark
In-mark_orphans_example =
    In-mark_orphans read_date zeros quiet no_grace (codes "app") a_manifest [] ((old_key, 2) ∷ [])
      its_mark
