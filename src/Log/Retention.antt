-- ===== src/Log/Retention.antt =====
-- server/src/log-retention.ts: one budgeted pass that retires folded slots below the live range.
-- The three lists are the calls of other clients after the gate's read, between the read and the
-- write of the update, and before the deletes. The deletes of a pass run one after the other.
pub mod Deletes
pub mod Safe
use baerly_storage.Common.{
  ℕ, zero, suc, ◌+◌, ◌-◌, ◌*◌, Text, Bool, true, false, leb, not, Option, none, some, List, ◌==◌,
  min, max, if◌then◌else◌,
}
use baerly_storage.Errors.{Result, ok, err, ◌>>=◌, ◌>>◌, throw_if, internal, write_conflict}
use baerly_storage.Storage.{MemoryStorage, delete, Op, run}
use baerly_storage.CurrentJson.Bodies.{CurrentJson, Body}
use baerly_storage.CurrentJson.{
  log_seq_start_of, log_delete_floor_of, certified_delete_floor, read_current_json, or_missing,
  cas_update_current_json,
}
use baerly_storage.Log.{log_object_key, collection_prefix}

-- `[start, end)`
pub record RetirableRange : Type 0 where
  pub start : ℕ
  pub end : ℕ

-- `liveFloor - window` stops at 0 here, which the maximum with `start` hides.
unfoldable pub compute_retirable_range : CurrentJson → ℕ → ℕ → RetirableRange
unfolding log_seq_start_of certified_delete_floor
compute_retirable_range current window max_deletes =
    let live_floor = log_seq_start_of current in
    let start = certified_delete_floor current in
    let boundary = min (live_floor - window) live_floor in
    record { start = start; end = max start (min boundary (start + max_deletes)) }

unfoldable pub raise_floor : ℕ → ℕ → CurrentJson → Result CurrentJson
unfolding compute_retirable_range
raise_floor window max_deletes current =
    let authorized = compute_retirable_range current window max_deletes in
    throw_if (leb authorized.end authorized.start) write_conflict
    >> ok (record current { log_delete_floor = some authorized.end })

unfoldable pub delete_slots : MemoryStorage Body → Text → ℕ → ℕ → Result (MemoryStorage Body)
delete_slots s prefix start zero = ok s
delete_slots s prefix start (suc count) = do
  s' ← delete s (log_object_key prefix start)
  delete_slots s' prefix (start + 1) count

-- The manifest that the update's own read gives is the one its mutator sees.
unfoldable pub retire_range :
    MemoryStorage Body
    → List (Op Body)
    → List (Op Body)
    → Text
    → ℕ
    → ℕ
    → Result (MemoryStorage Body × ℕ)
retire_range s between before_deletes key window max_deletes = do
  read ← read_current_json s key
  (current, _) ← or_missing read
  (s', json, _) ← cas_update_current_json s between key (raise_floor window max_deletes)
  throw_if
      (not (log_delete_floor_of json == (compute_retirable_range current window max_deletes).end))
      internal
  s'' ←
      delete_slots (run before_deletes s') (collection_prefix key)
        (compute_retirable_range current window max_deletes).start
        ((compute_retirable_range current window max_deletes).end
          - (compute_retirable_range current window max_deletes).start)
  ok (
    s'',
    (compute_retirable_range current window max_deletes).end
        - (compute_retirable_range current window max_deletes).start,
  )

-- The gate: no manifest or an empty range ends the pass.
unfoldable pub gate :
    MemoryStorage Body
    → ℕ
    → ℕ
    → Result (MemoryStorage Body × ℕ)
    → Option (CurrentJson × ℕ)
    → Result (MemoryStorage Body × ℕ)
gate s window max_deletes pass none = ok (s, 0)
gate s window max_deletes pass (some (json, etag)) =
    let range = compute_retirable_range json window max_deletes in
    if leb range.end range.start then ok (s, 0) else pass

unfoldable pub retire_log_range :
    MemoryStorage Body
    → List (Op Body)
    → List (Op Body)
    → List (Op Body)
    → Text
    → ℕ
    → ℕ
    → Result (MemoryStorage Body × ℕ)
unfolding gate
retire_log_range s after_gate between before_deletes key window max_deletes =
    read_current_json s key
    >>= gate s window max_deletes
        (retire_range (run after_gate s) between before_deletes key window max_deletes)
