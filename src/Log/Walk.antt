-- ===== src/Log/Walk.antt =====
-- server/src/log-walk.ts: reading a range of slots. The reads of a chunk are issued together; the
-- first slot that cannot be read gives the error.
pub mod Chunks
use baerly_storage.Common.{
  ℕ, zero, suc, ◌+◌, ◌-◌, Text, Bool, true, false, ltb, leb, min, Option, none, some, List, [], ◌∷◌,
  ◌++◌, if◌then◌else◌,
}
use baerly_storage.Errors.{Result, ok, err, ◌>>=◌, ◌>>◌, internal}
use baerly_storage.Storage.{MemoryStorage, StoredObject, get}
use baerly_storage.CurrentJson.Bodies.{Body}
use baerly_storage.Log.{log_object_key, decode_json_bytes}

abbrev pub max_parallel_log_reads : ℕ
max_parallel_log_reads = 16

unfoldable pub found_entry : Option (StoredObject Body) → Result Body
found_entry none = err internal
found_entry (some o) = decode_json_bytes o.body

unfoldable pub read_log_entry : MemoryStorage Body → Text → Result Body
unfolding found_entry
read_log_entry s key = get s key none >>= found_entry

-- `count` slots from `seq` on, in order.
unfoldable pub read_range : MemoryStorage Body → Text → ℕ → ℕ → Result (List Body)
read_range s prefix seq zero = ok []
read_range s prefix seq (suc count) = do
  e ← read_log_entry s (log_object_key prefix seq)
  rest ← read_range s prefix (seq + 1) count
  ok (e ∷ rest)

-- The loop over chunks, one unit of fuel for each.
unfoldable pub walk_chunks : MemoryStorage Body → Text → ℕ → ℕ → ℕ → ℕ → Result (List Body)
walk_chunks s prefix from_seq total chunk_start zero = ok []
walk_chunks s prefix from_seq total chunk_start (suc fuel) = elim (ltb chunk_start total) [
  | false ↦ ok []
  | true ↦ do
    results ←
        read_range s prefix (from_seq + chunk_start)
          (min (chunk_start + max_parallel_log_reads) total - chunk_start)
    rest ← walk_chunks s prefix from_seq total (chunk_start + max_parallel_log_reads) fuel
    ok (results ++ rest)
]

unfoldable pub walk_log_range : MemoryStorage Body → Text → ℕ → ℕ → Result (List Body)
unfolding walk_chunks
walk_log_range s prefix from_seq to_seq_exclusive =
    if leb to_seq_exclusive from_seq
    then ok []
    else walk_chunks s prefix from_seq (to_seq_exclusive - from_seq) 0 (to_seq_exclusive - from_seq)
