-- ===== src/Writer/Attempt.antt =====
-- server/src/writer.ts: an attempt to commit an unguarded write to a collection without indexes,
-- `#singleAttemptCommit` around the loop of the committing create: `#provisionCurrentJson` before it,
-- `#assertCommitAboveDeleteFloor` behind it. Maintenance, which follows a commit, is left out.
pub mod Kept
pub mod Acknowledged
use baerly_storage.Common.{
  ℕ, Text, Bool, true, false, leb, ◌||◌, ◌==◌, Option, none, some, List, [], if◌then◌else◌, max,
}
use baerly_storage.Errors.{Code, Result, ok, err, ◌>>=◌, write_conflict, ambiguous_commit}
use baerly_storage.Storage.{MemoryStorage, Op, delete_op, apply_op, run}
use baerly_storage.CurrentJson.Bodies.{Body, CurrentJson, LogEntry}
use baerly_storage.CurrentJson.{
  read_current_json, create_current_json, or_missing, certified_delete_floor, log_seq_start_of,
  Written, current_json_schema_version,
}
use baerly_storage.Log.{log_object_key}
use baerly_storage.Log.Tail.{find_log_tail}
use baerly_storage.Writer.{Round, commit_loop}

abbrev pub initial : Text → CurrentJson
initial generation = record {
  schema_version = current_json_schema_version;
  snapshot = none;
  tail_hint = 0;
  log_seq_start = 0;
  writer_fence = record { epoch = 0; owner = []; claimed_at = []; lease_until = none };
  snapshot_bytes = 0;
  snapshot_rows = 0;
  mean_entry_bytes = none;
  last_warned_seq = none;
  log_delete_floor = none;
  generation = some generation;
}

-- A store, and what a call on it gives.
abbrev pub After : Type 0 → Type 0
After A = MemoryStorage Body × Result A

-- A peer that created the manifest first is recovered from by one more read.
unfoldable pub recovered :
    MemoryStorage Body → List (Op Body) → Text → Result Written → After (CurrentJson × ℕ)
recovered s between key (ok (s', json, etag)) = (s', ok (json, etag))
recovered s between key (err write_conflict) =
    (run between s, read_current_json (run between s) key >>= or_missing)
recovered s between key (err code) = (s, err code)

unfoldable pub provision_current_json :
    MemoryStorage Body → List (Op Body) → Text → Text → After (CurrentJson × ℕ)
unfolding recovered
provision_current_json s between key generation =
    recovered s between key (create_current_json s key (initial generation))

unfoldable pub read_or_provision :
    MemoryStorage Body
    → List (Op Body)
    → Text
    → Text
    → Result (Option (CurrentJson × ℕ))
    → After (CurrentJson × ℕ)
unfolding provision_current_json
read_or_provision s between key generation (err code) = (s, err code)
read_or_provision s between key generation (ok (some read)) = (s, ok read)
read_or_provision s between key generation (ok none) =
    provision_current_json s between key generation

unfoldable pub cleaned : Bool → MemoryStorage Body → Text → ℕ → MemoryStorage Body
cleaned true s prefix seq = s
cleaned false s prefix seq = apply_op (delete_op (log_object_key prefix seq)) s

-- The check after the create. A read that fails skips it; the delete may fail as well.
unfoldable pub above_floor :
    Bool → MemoryStorage Body → Text → ℕ → Result (Option (CurrentJson × ℕ)) → After (Unit {0})
unfolding cleaned
above_floor delete_fails s prefix seq (err code) = (s, ok tt)
above_floor delete_fails s prefix seq (ok none) = (s, ok tt)
above_floor delete_fails s prefix seq (ok (some (json, etag))) =
    let floor = certified_delete_floor json in
    if leb floor 0 || leb floor seq
    then (s, ok tt)
    else (cleaned delete_fails s prefix seq, err ambiguous_commit)

unfoldable pub assert_commit_above_delete_floor :
    Bool → Bool → MemoryStorage Body → Text → Text → ℕ → After (Unit {0})
unfolding above_floor
assert_commit_above_delete_floor true delete_fails s key prefix seq = (s, ok tt)
assert_commit_above_delete_floor false delete_fails s key prefix seq =
    above_floor delete_fails s prefix seq (read_current_json s key)

-- What happens around an attempt: the calls of other clients between its steps, the rounds of its
-- loop, and whether the read and the delete of the last check fail.
pub record Course : Type 0 where
  pub before_provision : List (Op Body)
  pub before_recovery : List (Op Body)
  pub before_tail : List (Op Body)
  pub rounds : List Round
  pub before_check : List (Op Body)
  pub check_fails : Bool
  pub delete_fails : Bool

unfoldable pub checked :
    Course → Text → Text → Option (After (ℕ × LogEntry)) → Option (After (ℕ × LogEntry))
unfolding assert_commit_above_delete_floor
checked c key prefix none = none
checked c key prefix (some (s, err code)) = some (s, err code)
checked c key prefix (some (s, ok (seq, e))) =
    let (s', result) =
      assert_commit_above_delete_floor c.check_fails c.delete_fails (run c.before_check s) key
        prefix seq in
    some (s', result >>= λ t. ok (seq, e))

unfoldable pub create_at :
    (ℕ → LogEntry)
    → Course
    → MemoryStorage Body
    → Text
    → Text
    → Option (Result ℕ)
    → Option (After (ℕ × LogEntry))
unfolding checked
create_at mint c s key prefix none = none
create_at mint c s key prefix (some (err code)) = some (s, err code)
create_at mint c s key prefix (some (ok tail)) =
    checked c key prefix (commit_loop mint prefix c.rounds s tail 0)

unfoldable pub commit_from :
    (ℕ → LogEntry) → Course → Text → Text → After (CurrentJson × ℕ) → Option (After (ℕ × LogEntry))
unfolding create_at
commit_from mint c key prefix (s, err code) = some (s, err code)
commit_from mint c key prefix (s, ok (current, etag)) =
    create_at mint c (run c.before_tail s) key prefix (
      find_log_tail (run c.before_tail s) prefix (max (log_seq_start_of current) current.tail_hint))

-- `provision` reads once more where the first read found no manifest.
unfoldable pub single_attempt_commit :
    (ℕ → LogEntry)
    → Course
    → MemoryStorage Body
    → Text
    → Text
    → Text
    → Option (After (ℕ × LogEntry))
unfolding read_or_provision commit_from
single_attempt_commit mint c s key prefix generation = commit_from mint c key prefix (
    read_or_provision (run c.before_provision s) c.before_recovery key generation
      (read_current_json s key))
