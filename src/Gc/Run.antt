-- ===== src/Gc/Run.antt =====
-- server/src/gc.ts, `runGc`: the pass on a store, among the calls of other clients. `date_parse` is
-- `Date.parse`, `none` for NaN, and `to_iso` is `toISOString`.
use baerly_storage.Common.{
  ℕ, ◌+◌, ◌==◌, leb, Text, codes, length, Bool, true, false, ◌&&◌, ◌||◌, Option, none, some, List,
  [], ◌∷◌, ◌++◌, if◌then◌else◌, get_or,
}
use baerly_storage.Errors.{Result, ok, err, ◌>>=◌, is_write_conflict, write_conflict}
use baerly_storage.Storage.{MemoryStorage, list, delete, Op, run}
use baerly_storage.CurrentJson.Bodies.{Body, CurrentJson}
use baerly_storage.CurrentJson.{read_current_json}
use baerly_storage.Log.{collection_prefix}
use baerly_storage.GcPending.{
  orphan_snapshot, GcCandidate, GcPending, gc_pending_key, read_gc_pending, create_gc_pending,
  Between, cas_update_gc_pending, holds_key, keys_of, merge_gc_pending,
}
use baerly_storage.Writer.Attempt.{After}
use baerly_storage.Gc.{
  parse_max_seq_from_canonical_snapshot_key, is_text, is_orphan_snapshot, Arm, stale_generation,
  rescued, arm_of, dropped_keys, split_candidates,
}

abbrev pub gc_grace_period_millis : ℕ
gc_grace_period_millis = 604800000

abbrev gc_max_pending_candidates : ℕ
gc_max_pending_candidates = 1000

-- `none` is `undefined`; what is not given does not bound the pass.
pub record RunGcOptions : Type 0 where
  pub grace_millis : Option ℕ
  pub max_marks_per_run : Option ℕ
  pub max_sweeps_per_run : Option ℕ

-- The calls of other clients before each step, and the times that the clock shows.
pub record GcCourse : Type 0 where
  pub before_pending : List (Op Body)
  pub before_create : List (Op Body)
  pub before_reread : List (Op Body)
  pub before_list : List (Op Body)
  pub before_fresh : List (Op Body)
  pub before_delete : List (Op Body)
  pub between : ℕ → Between
  pub mark_time : Text → ℕ
  pub sweep_time : ℕ
  pub end_time : ℕ

pub record RunGcResult : Type 0 where
  pub marked : ℕ
  pub swept : ℕ
  pub stale : ℕ
  pub still_live : ℕ
  pub pending_depth : ℕ

abbrev zero_gc_result : RunGcResult
zero_gc_result = record { marked = 0; swept = 0; stale = 0; still_live = 0; pending_depth = 0 }

abbrev no_pending : GcPending
no_pending = record { schema_version = 1; candidates = []; last_swept_at = [] }

-- The ledger, created where there is none.
unfoldable pub reread_pending :
    MemoryStorage Body → Result (Option (GcPending × ℕ)) → After GcPending
reread_pending s (err code) = (s, err code)
reread_pending s (ok none) = (s, err write_conflict)
reread_pending s (ok (some (json, etag))) = (s, ok json)

unfoldable pub created_pending :
    MemoryStorage Body
    → List (Op Body)
    → Text
    → Result (MemoryStorage Body × GcPending × ℕ)
    → After GcPending
unfolding reread_pending
created_pending s before_reread key (ok (s', json, etag)) = (s', ok json)
created_pending s before_reread key (err code) =
    if is_write_conflict code
    then reread_pending (run before_reread s) (read_gc_pending (run before_reread s) key)
    else (s, err code)

unfoldable pub ensure_pending :
    MemoryStorage Body → GcCourse → Text → Result (Option (GcPending × ℕ)) → After GcPending
unfolding created_pending
ensure_pending s c key (err code) = (s, err code)
ensure_pending s c key (ok (some (json, etag))) = (s, ok json)
ensure_pending s c key (ok none) =
    created_pending (run c.before_create s) c.before_reread key
      (create_gc_pending (run c.before_create s) key no_pending)

-- The size of a set of keys.
unfoldable pub count_keys : List Text → ℕ
unfolding holds_key
count_keys [] = 0
count_keys (k ∷ keys) = let rest = count_keys keys in if holds_key k keys then rest else rest + 1

abbrev is_stale : Arm → Bool
is_stale stale_generation = true
is_stale _ = false

abbrev is_rescued : Arm → Bool
is_rescued rescued = true
is_rescued _ = false

unfoldable pub keys_with : (GcCandidate → Bool) → List GcCandidate → List Text
keys_with test [] = []
keys_with test (c ∷ cs) = let rest = keys_with test cs in if test c then c.key ∷ rest else rest

-- The deletes are issued together, so that all of them run; where one fails, the pass fails.
unfoldable pub delete_candidates : MemoryStorage Body → List GcCandidate → After (Unit {0})
delete_candidates s [] = (s, ok tt)
delete_candidates s (c ∷ cs) = elim (delete s c.key) [
  | ok s' ↦ delete_candidates s' cs
  | err code ↦ let rest = delete_candidates s cs in (rest.0, err code)
]

-- The end of a pass: the ledger, and the result.
unfoldable pub report :
    List GcCandidate
    → List GcCandidate
    → List GcCandidate
    → ℕ
    → ℕ
    → After (GcPending × ℕ)
    → After RunGcResult
report marks to_sweep remaining stale still_live (s, ok (json, etag)) = (
  s,
  ok (record {
    marked = length marks;
    swept = length to_sweep;
    stale = stale;
    still_live = still_live;
    pending_depth = length json.candidates;
  }),
)
report marks to_sweep remaining stale still_live (s, err code) =
    let best_effort : RunGcResult = record {
      marked = length marks;
      swept = length to_sweep;
      stale = stale;
      still_live = still_live;
      pending_depth = length remaining;
    } in
    (s, if is_write_conflict code then ok best_effort else err code)

abbrev pub json_of : Option (CurrentJson × ℕ) → Option CurrentJson
json_of none = none
json_of (some (json, etag)) = some json

module _ (date_parse : Text → Option ℕ) (to_iso : ℕ → Text) where
  -- `Date.parse(due_at) <= nowMs`, false for NaN.
  abbrev pub is_due : ℕ → GcCandidate → Bool
  is_due now c = elim (date_parse c.due_at) [ none ↦ false | some due ↦ leb due now ]

  unfoldable pub mark_orphans :
      GcCourse → RunGcOptions → Text → CurrentJson → List Text → List (Text × ℕ) → List GcCandidate
  unfolding holds_key
  mark_orphans c options prefix current known [] = []
  mark_orphans c options prefix current known ((key, etag) ∷ entries) =
      let rest = mark_orphans c options prefix current known entries in
      elim (parse_max_seq_from_canonical_snapshot_key key prefix) [
        | none ↦ rest
        | some max_seq ↦
            if is_text current.snapshot key || holds_key key known
            then rest
            else record {
              key = key;
              due_at =
                  to_iso (c.mark_time key + get_or options.grace_millis gc_grace_period_millis);
              reason = orphan_snapshot;
              generation = current.generation;
            }
              ∷ rest
      ]

  unfoldable pub has_due_snapshot : ℕ → List GcCandidate → Bool
  has_due_snapshot now [] = false
  has_due_snapshot now (c ∷ cs) =
      let rest = has_due_snapshot now cs in is_orphan_snapshot c.reason && is_due now c || rest

  -- The mutator of the ledger.
  abbrev pub merged :
      GcCourse → List GcCandidate → List Text → List GcCandidate → GcPending → GcPending
  merged c to_sweep dropped marks latest =
      merge_gc_pending latest (keys_of to_sweep ++ dropped) marks
        (if length to_sweep == 0 then [] else to_iso c.end_time) gc_max_pending_candidates

  unfoldable pub record_pass :
      GcCourse
      → Text
      → List GcCandidate
      → List GcCandidate
      → List GcCandidate
      → List Text
      → ℕ
      → ℕ
      → After (Unit {0})
      → After RunGcResult
  unfolding report cas_update_gc_pending
  record_pass c key marks to_sweep remaining dropped stale still_live (s, err code) = (s, err code)
  record_pass c key marks to_sweep remaining dropped stale still_live (s, ok t) =
      report marks to_sweep remaining stale still_live
        (cas_update_gc_pending c.between s key (merged c to_sweep dropped marks))

  -- Steps 4 and 5, with the candidates and the fresh manifest.
  unfoldable pub sweep_pass :
      MemoryStorage Body
      → GcCourse
      → RunGcOptions
      → Text
      → CurrentJson
      → List GcCandidate
      → List GcCandidate
      → Result (Option CurrentJson)
      → After RunGcResult
  unfolding record_pass delete_candidates keys_with count_keys
  sweep_pass s c options prefix current marks candidates (err code) = (s, err code)
  sweep_pass s c options prefix current marks candidates (ok fresh) =
      let arm = arm_of prefix (get_or fresh current) fresh in
      let dropped = dropped_keys arm candidates in
      let (to_sweep, remaining) =
        split_candidates (is_due c.sweep_time) prefix fresh dropped options.max_sweeps_per_run 0
          candidates in
      record_pass c (gc_pending_key prefix) marks to_sweep remaining dropped
        (count_keys (keys_with (λ x. is_stale (arm x)) candidates))
        (count_keys (keys_with (λ x. is_rescued (arm x)) candidates))
        (delete_candidates (run c.before_delete s) to_sweep)

  -- The manifest is read again only if a snapshot may be deleted.
  unfoldable pub fresh_current :
      MemoryStorage Body → ℕ → Text → List GcCandidate → Result (Option CurrentJson)
  unfolding has_due_snapshot
  fresh_current s now key candidates =
      if has_due_snapshot now candidates
      then (read_current_json s key >>= λ read. ok (json_of read))
      else ok none

  unfoldable pub mark_pass :
      GcCourse → RunGcOptions → Text → CurrentJson → After GcPending → After RunGcResult
  unfolding mark_orphans sweep_pass fresh_current
  mark_pass c options key current (s, err code) = (s, err code)
  mark_pass c options key current (s, ok pending) =
      let prefix = collection_prefix key in
      let marks = mark_orphans c options prefix current (keys_of pending.candidates) (
        list (run c.before_list s) (prefix ++ codes "/snapshot/L9/") []
          options.max_marks_per_run) in
      let candidates = pending.candidates ++ marks in
      let t = run c.before_fresh (run c.before_list s) in
      sweep_pass t c options prefix current marks candidates
        (fresh_current t c.sweep_time key candidates)

  unfoldable pub gc_with :
      MemoryStorage Body
      → GcCourse
      → RunGcOptions
      → Text
      → Result (Option (CurrentJson × ℕ))
      → After RunGcResult
  unfolding mark_pass ensure_pending
  gc_with s c options key (err code) = (s, err code)
  gc_with s c options key (ok none) = (s, ok zero_gc_result)
  gc_with s c options key (ok (some (current, etag))) =
      let t = run c.before_pending s in
      let pending_key = gc_pending_key (collection_prefix key) in
      mark_pass c options key current
        (ensure_pending t c pending_key (read_gc_pending t pending_key))

  unfoldable pub run_gc : MemoryStorage Body → GcCourse → RunGcOptions → Text → After RunGcResult
  unfolding gc_with
  run_gc s c options key = gc_with s c options key (read_current_json s key)
