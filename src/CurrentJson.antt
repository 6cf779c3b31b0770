-- ===== src/CurrentJson.antt =====
-- protocol/src/coordination/current-json.ts: the manifest of a collection, its shape guard, the
-- admission rules of a transition, and the writes under compare-and-swap.
-- `Bodies` has the objects of a bucket. A call that reads and then writes takes the list of calls
-- that other clients make between the two.
pub mod Bodies
pub mod Guard
pub mod Updates
pub mod Claim
use baerly_storage.Common.{
  ℕ, ◌+◌, Text, Bool, true, false, ltb, ◌&&◌, ◌||◌, not, leb, Option, none, some, List, [], ◌∷◌,
  ◌==◌, min, get_or, if◌then◌else◌, codes,
}
use baerly_storage.Common.Int.{pos, negsuc}
use baerly_storage.Errors.{Code, Result, ok, err, ◌>>=◌, ◌>>◌, throw_if, invalid_response, internal}
use baerly_storage.CurrentJson.Bodies.{
  WriterFence, CurrentJson, RawField, absent, null, text, int, other, RawFence, RawCurrent, Body,
  manifest, entry, other_json, malformed,
}
use baerly_storage.Storage.{MemoryStorage, StoredObject, get, put, Op, run}

abbrev pub current_json_schema_version : ℕ
current_json_schema_version = 3

-- `typeof x === "number" && Number.isInteger(x) && x >= 0`
unfoldable pub natural : RawField → Result ℕ
natural (int (pos n)) = ok n
natural _ = err invalid_response

unfoldable pub natural_if_present : RawField → Result (Option ℕ)
natural_if_present absent = ok none
natural_if_present (int (pos n)) = ok (some n)
natural_if_present _ = err invalid_response

unfoldable pub string : RawField → Result Text
string (text s) = ok s
string _ = err invalid_response

unfoldable pub string_or_null : RawField → Result (Option Text)
string_or_null null = ok none
string_or_null (text s) = ok (some s)
string_or_null _ = err invalid_response

unfoldable pub string_if_present : RawField → Result (Option Text)
string_if_present absent = ok none
string_if_present (text s) = ok (some s)
string_if_present _ = err invalid_response

-- `/^[0-9a-f]+$/`
abbrev is_hex_digit : ℕ → Bool
is_hex_digit c = (leb b'0' c && leb c b'9') || (leb b'a' c && leb c b'f')

unfoldable pub all_hex : Text → Bool
all_hex [] = true
all_hex (c ∷ s) = is_hex_digit c && all_hex s

unfoldable pub generation_matches : Text → Bool
unfolding all_hex
generation_matches [] = false
generation_matches (c ∷ s) = all_hex (c ∷ s)

unfoldable pub generation_if_present : RawField → Result (Option Text)
generation_if_present absent = ok none
generation_if_present (text s) = if generation_matches s then ok (some s) else err invalid_response
generation_if_present _ = err invalid_response

unfoldable pub schema_supported : RawField → Result ℕ
schema_supported (int (pos n)) =
    if n == current_json_schema_version then ok n else err invalid_response
schema_supported _ = err invalid_response

unfoldable pub assert_fence : Option RawFence → Result WriterFence
assert_fence none = err invalid_response
assert_fence (some f) = do
  epoch ← natural f.epoch
  owner ← string f.owner
  claimed_at ← string f.claimed_at
  lease_until ← string_if_present f.lease_until
  ok (record { epoch = epoch; owner = owner; claimed_at = claimed_at; lease_until = lease_until })

-- `assertCurrentJson`, from the parsed object to the record.
unfoldable pub assert_current_json : RawCurrent → Result CurrentJson
assert_current_json r = do
  schema_version ← schema_supported r.schema_version
  snapshot ← string_or_null r.snapshot
  tail_hint ← natural r.tail_hint
  log_seq_start ← natural r.log_seq_start
  throw_if (ltb tail_hint log_seq_start) invalid_response
  writer_fence ← assert_fence r.writer_fence
  snapshot_bytes ← natural r.snapshot_bytes
  snapshot_rows ← natural r.snapshot_rows
  last_warned_seq ← natural_if_present r.last_warned_seq
  log_delete_floor ← natural_if_present r.log_delete_floor
  mean_entry_bytes ← natural_if_present r.mean_entry_bytes
  generation ← generation_if_present r.generation
  ok (record {
    schema_version = schema_version;
    snapshot = snapshot;
    tail_hint = tail_hint;
    log_seq_start = log_seq_start;
    writer_fence = writer_fence;
    snapshot_bytes = snapshot_bytes;
    snapshot_rows = snapshot_rows;
    mean_entry_bytes = mean_entry_bytes;
    last_warned_seq = last_warned_seq;
    log_delete_floor = log_delete_floor;
    generation = generation;
  })

-- `encodeJson`: a field that is `undefined` is left out.
abbrev field_of_text : Option Text → RawField
field_of_text none = absent
field_of_text (some s) = text s

abbrev field_of_number : Option ℕ → RawField
field_of_number none = absent
field_of_number (some n) = int (pos n)

abbrev field_of_snapshot : Option Text → RawField
field_of_snapshot none = null
field_of_snapshot (some s) = text s

unfoldable pub encode_json : CurrentJson → RawCurrent
encode_json c = record {
  schema_version = int (pos c.schema_version);
  snapshot = field_of_snapshot c.snapshot;
  tail_hint = int (pos c.tail_hint);
  log_seq_start = int (pos c.log_seq_start);
  writer_fence = some (record {
    epoch = int (pos c.writer_fence.epoch);
    owner = text c.writer_fence.owner;
    claimed_at = text c.writer_fence.claimed_at;
    lease_until = field_of_text c.writer_fence.lease_until;
  });
  snapshot_bytes = int (pos c.snapshot_bytes);
  snapshot_rows = int (pos c.snapshot_rows);
  mean_entry_bytes = field_of_number c.mean_entry_bytes;
  last_warned_seq = field_of_number c.last_warned_seq;
  log_delete_floor = field_of_number c.log_delete_floor;
  generation = field_of_text c.generation;
}

unfoldable pub log_seq_start_of : CurrentJson → ℕ
log_seq_start_of c = c.log_seq_start

unfoldable pub log_delete_floor_of : CurrentJson → ℕ
log_delete_floor_of c = get_or c.log_delete_floor 0

unfoldable pub certified_delete_floor : CurrentJson → ℕ
unfolding log_delete_floor_of log_seq_start_of
certified_delete_floor c = min (log_delete_floor_of c) (log_seq_start_of c)

-- Two states, and the rules between them.
unfoldable pub assert_current_json_transition : CurrentJson → CurrentJson → Result (Unit {0})
unfolding log_delete_floor_of
assert_current_json_transition before after =
    throw_if (ltb after.log_seq_start before.log_seq_start) internal
    >> throw_if (ltb (log_delete_floor_of after) (log_delete_floor_of before)) internal
    >> throw_if (ltb after.log_seq_start (log_delete_floor_of after)) internal

-- Decoding a body: other JSON has no schema version.
unfoldable pub decode_current : Body → Result CurrentJson
decode_current (manifest r) = assert_current_json r
decode_current _ = err invalid_response

unfoldable pub decode_read : Option (StoredObject Body) → Result (Option (CurrentJson × ℕ))
decode_read none = ok none
decode_read (some stored) = do json ← decode_current stored.body; ok (some (json, stored.etag))

unfoldable pub read_current_json : MemoryStorage Body → Text → Result (Option (CurrentJson × ℕ))
read_current_json s key = get s key none >>= decode_read

-- The new store, the manifest written and its ETag.
abbrev pub Written : Type 0
Written = MemoryStorage Body × CurrentJson × ℕ

unfoldable pub write_current :
    MemoryStorage Body → Text → CurrentJson → Bool → Option ℕ → Result Written
write_current s key json create_only if_match = do
  (s', etag) ← put s key (manifest (encode_json json)) create_only if_match
  ok (s', json, etag)

unfoldable pub create_current_json : MemoryStorage Body → Text → CurrentJson → Result Written
create_current_json s key initial =
    assert_current_json (encode_json initial) >> write_current s key initial true none

unfoldable pub or_missing : Option (CurrentJson × ℕ) → Result (CurrentJson × ℕ)
or_missing none = err invalid_response
or_missing (some read) = ok read

-- `mutator` may throw, as the one of log retirement does.
unfoldable pub cas_update_current_json :
    MemoryStorage Body → List (Op Body) → Text → (CurrentJson → Result CurrentJson) → Result Written
cas_update_current_json s between key mutator = do
  read ← read_current_json s key
  (json, etag) ← or_missing read
  next ← mutator json
  assert_current_json (encode_json next)
  assert_current_json_transition json next
  write_current (run between s) key next false (some etag)

abbrev pub claimed : CurrentJson → Text → CurrentJson
claimed c owner = record c {
  writer_fence = record {
    epoch = c.writer_fence.epoch + 1;
    owner = owner;
    claimed_at = [];
    lease_until = c.writer_fence.lease_until;
  };
}

abbrev pub stamped : CurrentJson → Text → CurrentJson
stamped c date = record c { writer_fence = record c.writer_fence { claimed_at = date } }

-- The second write of a claim, where the store gave its date.
unfoldable pub stamp_claim : List (Op Body) → Text → Option Text → Written → Result Written
stamp_claim between key none written = ok written
stamp_claim between key (some date) (s, json, etag) = do
  assert_current_json_transition json (stamped json date)
  write_current (run between s) key (stamped json date) false (some etag)

unfoldable pub claim_writer :
    MemoryStorage Body
    → List (Op Body)
    → List (Op Body)
    → Text
    → Text
    → Option Text
    → Result Written
claim_writer s between between_stamp key owner server_date = do
  read ← read_current_json s key
  (json, etag) ← or_missing read
  assert_current_json_transition json (claimed json owner)
  written ← write_current (run between s) key (claimed json owner) false (some etag)
  stamp_claim between_stamp key server_date written
