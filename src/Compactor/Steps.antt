-- ===== src/Compactor/Steps.antt =====
-- server/src/compactor.ts: the steps of a run, from the read of the manifest to its swap.
use baerly_storage.Common.{
  ℕ, ◌+◌, ◌-◌, Text, Bool, false, ltb, ◌==◌, ◌&&◌, ◌||◌, not, Option, none, some, if◌then◌else◌,
  length, max, get_or,
}
use baerly_storage.Errors.{Result, ok, err, is_write_conflict}
use baerly_storage.Storage.{MemoryStorage, put, run}
use baerly_storage.CurrentJson.Bodies.{Body, manifest, snapshot_json, CurrentJson}
use baerly_storage.CurrentJson.{
  read_current_json, encode_json, log_seq_start_of, assert_current_json_transition,
}
use baerly_storage.Log.{collection_prefix}
use baerly_storage.Log.Tail.{TailProbeChunk}
use baerly_storage.Snapshot.{snapshot_key, after_last}
use baerly_storage.Compactor.{
  CompactOptions, CompactResult, Course, Fold, below_min_threshold, cas_lost, checkpoint_lost,
  current_json_missing, deferred, is_exact, positive_option, probe_budget_checkpointed, probe_tail,
  probed_tail, read_fold, rounded, snapshot_body, sum_bytes, within, written,
}

-- Steps 6 and 7: the snapshot, and then the manifest under the ETag that was read.
unfoldable pub swapped :
    MemoryStorage Body
    → CompactResult
    → CompactResult
    → Result (MemoryStorage Body × ℕ)
    → MemoryStorage Body × Result CompactResult
swapped s won lost (ok (s', etag)) = (s', ok won)
swapped s won lost (err code) = if is_write_conflict code then (s, ok lost) else (s, err code)

unfoldable pub swap_manifest :
    MemoryStorage Body
    → Text
    → CurrentJson
    → CurrentJson
    → ℕ
    → CompactResult
    → CompactResult
    → MemoryStorage Body × Result CompactResult
unfolding swapped
swap_manifest s key current next etag won lost =
    elim (assert_current_json_transition current next) [
      | err code ↦ (s, err code)
      | ok t ↦ swapped s won lost (put s key (manifest (encode_json next)) false (some etag))
    ]

unfoldable pub publish_to :
    MemoryStorage Body
    → Course
    → Text
    → CurrentJson
    → CurrentJson
    → ℕ
    → Text
    → ℕ
    → Result (MemoryStorage Body × ℕ)
    → MemoryStorage Body × Result CompactResult
unfolding swap_manifest
publish_to s c key current next etag new_key fold_end (err code) = (s, err code)
publish_to s c key current next etag new_key fold_end (ok (s', _)) =
    swap_manifest (run c.before_cas s') key current next etag (written new_key fold_end)
      (cas_lost new_key fold_end)

-- A run that folds nothing may still stamp what it probed.
unfoldable pub checkpoint :
    MemoryStorage Body
    → Text
    → CurrentJson
    → ℕ
    → TailProbeChunk
    → MemoryStorage Body × Result CompactResult
unfolding swap_manifest
checkpoint s key current etag probe =
    if is_exact probe
    then (s, ok below_min_threshold)
    else swap_manifest s key current
        (record current { tail_hint = max current.tail_hint (probed_tail probe) }) etag
        probe_budget_checkpointed checkpoint_lost

module _ (hash : Body → Text) (byte_length : Body → ℕ) where
  -- The manifest that a fold publishes.
  unfoldable pub next_manifest : CurrentJson → Text → Text → ℕ → Fold → CurrentJson
  next_manifest current collection new_key discovered_tail f = record current {
    snapshot = some new_key;
    log_seq_start = log_seq_start_of current + f.applied;
    tail_hint = max current.tail_hint discovered_tail;
    snapshot_bytes =
        byte_length
          (snapshot_json (snapshot_body collection (log_seq_start_of current + f.applied) f.base));
    snapshot_rows = length f.base;
    mean_entry_bytes = some (
        if f.applied == 0
        then get_or current.mean_entry_bytes 0
        else rounded (sum_bytes byte_length f.applied f.fetched) f.applied);
  }

  unfoldable pub publish :
      MemoryStorage Body
      → Course
      → Text
      → Text
      → CurrentJson
      → ℕ
      → ℕ
      → Fold
      → Result Text
      → MemoryStorage Body × Result CompactResult
  unfolding publish_to next_manifest
  publish s c key collection current etag discovered_tail f (err code) = (s, err code)
  publish s c key collection current etag discovered_tail f (ok new_key) =
      publish_to (run c.before_put s) c key current
        (next_manifest current collection new_key discovered_tail f) etag new_key
        (log_seq_start_of current + f.applied)
        (put (run c.before_put s) new_key
          (snapshot_json (snapshot_body collection (log_seq_start_of current + f.applied) f.base))
          false none)

  -- Nothing fits, or the snapshot is over a ceiling.
  unfoldable pub over_ceiling : CompactOptions → Text → ℕ → Fold → Bool
  over_ceiling options collection fold_end f =
      ((f.applied == 0) && not (length f.fetched == 0))
      || not (
          within (byte_length (snapshot_json (snapshot_body collection fold_end f.base)))
            options.ceiling_bytes
          && within (length f.base) options.ceiling_entries)

  unfoldable pub write_fold :
      MemoryStorage Body
      → Course
      → CompactOptions
      → Text
      → CurrentJson
      → ℕ
      → ℕ
      → Result Fold
      → MemoryStorage Body × Result CompactResult
  unfolding over_ceiling publish
  write_fold s c options key current etag discovered_tail (err code) = (s, err code)
  write_fold s c options key current etag discovered_tail (ok f) =
      let prefix = collection_prefix key in
      let collection = after_last b'/' prefix in
      let fold_end = log_seq_start_of current + f.applied in
      if over_ceiling options collection fold_end f
      then (s, ok deferred)
      else publish s c key collection current etag discovered_tail f (
          snapshot_key prefix 0 fold_end
            (hash (snapshot_json (snapshot_body collection fold_end f.base))))

  unfoldable pub with_tail :
      MemoryStorage Body
      → Course
      → CompactOptions
      → Text
      → CurrentJson
      → ℕ
      → Result TailProbeChunk
      → MemoryStorage Body × Result CompactResult
  unfolding checkpoint write_fold read_fold
  with_tail s c options key current etag (err code) = (s, err code)
  with_tail s c options key current etag (ok probe) =
      let prefix = collection_prefix key in
      if ltb (probed_tail probe - log_seq_start_of current)
        (get_or options.min_entries_to_compact 100)
      then checkpoint (run c.before_load s) key current etag probe
      else write_fold (run c.before_fetch (run c.before_load s)) c options key current etag
          (probed_tail probe)
          (read_fold hash s c options current prefix (after_last b'/' prefix) (probed_tail probe))

  unfoldable pub with_manifest :
      MemoryStorage Body
      → Course
      → CompactOptions
      → Text
      → Result (Option (CurrentJson × ℕ))
      → MemoryStorage Body × Result CompactResult
  unfolding with_tail
  with_manifest s c options key (err code) = (s, err code)
  with_manifest s c options key (ok none) = (s, ok current_json_missing)
  with_manifest s c options key (ok (some (current, etag))) =
      with_tail (run c.before_probe s) c options key current etag (
        probe_tail (run c.before_probe s) (collection_prefix key)
          (max (max (log_seq_start_of current) current.tail_hint) (get_or options.known_tail 0))
          options.max_tail_probe_gets)

  unfoldable pub compact :
      MemoryStorage Body
      → Course
      → CompactOptions
      → Text
      → MemoryStorage Body × Result CompactResult
  unfolding with_manifest
  compact s c options key = elim (positive_option options.max_tail_probe_gets) [
    | err code ↦ (s, err code)
    | ok t ↦ with_manifest s c options key (read_current_json s key)
  ]
