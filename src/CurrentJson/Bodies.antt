-- ===== src/CurrentJson/Bodies.antt =====
-- The objects of a bucket as `JSON.parse` shows them: manifests (coordination/current-json.ts), log
-- entries (protocol/src/log.ts), snapshots, other JSON, and bodies that are not JSON. A manifest is seen before
-- its shape is checked. A log entry is only cast by the source, so here it has its declared shape.
use baerly_storage.Common.{ℕ, Text, Option, List}
use baerly_storage.Common.Int.{ℤ}
use baerly_storage.Json.{Fields}

pub record WriterFence : Type 0 where
  pub epoch : ℕ
  pub owner : Text
  pub claimed_at : Text
  pub lease_until : Option Text

pub record CurrentJson : Type 0 where
  pub schema_version : ℕ
  pub snapshot : Option Text
  pub tail_hint : ℕ
  pub log_seq_start : ℕ
  pub writer_fence : WriterFence
  pub snapshot_bytes : ℕ
  pub snapshot_rows : ℕ
  pub mean_entry_bytes : Option ℕ
  pub last_warned_seq : Option ℕ
  pub log_delete_floor : Option ℕ
  pub generation : Option Text

-- A field of a parsed object. `other` is a boolean, an array, an object or a fraction.
pub data RawField : Type 0 where
  absent null other : RawField
  text : Text → RawField
  int : ℤ → RawField

pub record RawFence : Type 0 where
  pub epoch : RawField
  pub owner : RawField
  pub claimed_at : RawField
  pub lease_until : RawField

-- `writer_fence` is `none` where it is no object.
pub record RawCurrent : Type 0 where
  pub schema_version : RawField
  pub snapshot : RawField
  pub tail_hint : RawField
  pub log_seq_start : RawField
  pub writer_fence : Option RawFence
  pub snapshot_bytes : RawField
  pub snapshot_rows : RawField
  pub mean_entry_bytes : RawField
  pub last_warned_seq : RawField
  pub log_delete_floor : RawField
  pub generation : RawField

pub data LogOp : Type 0 where
  insert update delete : LogOp

pub record LogEntry : Type 0 where
  pub lsn : Text
  pub commit_ts : Text
  pub op : LogOp
  pub collection : Text
  pub doc_id : Text
  pub after : Option Fields
  pub before : Option Fields
  pub key_old : Option Fields
  pub origin : Option Text
  pub session : Text
  pub seq : ℕ

-- A snapshot (server/src/snapshot.ts): the rows are the documents with their ids.
pub record SnapshotBody : Type 0 where
  pub schema_version : ℕ
  pub min_seq : ℕ
  pub max_seq : ℕ
  pub collection : Text
  pub docs : List (Text × Fields)

-- `other_json` has none of the other shapes.
-- An entry of the ledger gc/pending.json (coordination/gc-pending.ts) before its shape is checked.
pub record RawCandidate : Type 0 where
  pub key : RawField
  pub due_at : RawField
  pub reason : RawField
  pub generation : RawField

-- `candidates` is `none` where it is no array, and an entry is `none` where it is no object.
pub record RawPending : Type 0 where
  pub schema_version : RawField
  pub candidates : Option (List (Option RawCandidate))
  pub last_swept_at : RawField
  pub log_scan_cursor : RawField

pub data Body : Type 0 where
  manifest : RawCurrent → Body
  entry : LogEntry → Body
  snapshot_json : SnapshotBody → Body
  pending_json : RawPending → Body
  other_json malformed : Body
