-- ===== src/Snapshot.antt =====
-- server/src/snapshot.ts: the key of a snapshot, which names its content, and the map that a snapshot
-- is loaded into. `hash` is the SHA-256 of the bytes of a body, in hexadecimal digits.
pub mod Names
pub mod Rows
pub mod Loads
use baerly_storage.Common.{
  ℕ, ◌-◌, ◌==◌, ltb, Text, text_eq, text_lt, codes, length, Bool, true, false, ◌&&◌, not, Option,
  none, some, List, [], ◌∷◌, ◌++◌, if◌then◌else◌,
}
use baerly_storage.Common.Decimal.{decimal}
use baerly_storage.Errors.{
  Result, ok, err, ◌>>=◌, ◌>>◌, throw_if, invalid_config, internal, invalid_response,
}
use baerly_storage.Json.{Fields}
use baerly_storage.Storage.{MemoryStorage, StoredObject, get}
use baerly_storage.CurrentJson.{all_hex}
use baerly_storage.CurrentJson.Bodies.{Body, snapshot_json, malformed, SnapshotBody}
use baerly_storage.Log.Lsn.{zeros}
use baerly_storage.Log.Fold.{DocMap, doc_set}

abbrev pub max_seq_of_keys : ℕ
max_seq_of_keys = 999999999999

unfoldable pub pad : ℕ → Text
unfolding zeros decimal
pad n = zeros (12 - length (decimal n)) ++ decimal n

unfoldable pub is_sha256 : Text → Bool
is_sha256 sha = (length sha == 64) && all_hex sha

-- The file's name without its suffix.
unfoldable pub snapshot_name : ℕ → ℕ → Text → Text
unfolding pad
snapshot_name min_seq max_seq sha = pad min_seq ++ (b'-' ∷ (pad max_seq ++ (b'-' ∷ sha)))

unfoldable pub snapshot_path : Text → ℕ → ℕ → Text → Text
unfolding snapshot_name
snapshot_path prefix min_seq max_seq sha =
    prefix
    ++ (b'/'
        ∷ (codes "snapshot/L9" ++ (b'/' ∷ (snapshot_name min_seq max_seq sha ++ codes ".json"))))

unfoldable pub snapshot_key : Text → ℕ → ℕ → Text → Result Text
unfolding snapshot_path is_sha256
snapshot_key prefix min_seq max_seq sha =
    throw_if (ltb max_seq min_seq) invalid_config
    >> throw_if (ltb max_seq_of_keys max_seq) invalid_config
    >> throw_if (not (is_sha256 sha)) invalid_config
    >> ok (snapshot_path prefix min_seq max_seq sha)

-- `s.slice(s.lastIndexOf(c) + 1)`
unfoldable pub mentions : ℕ → Text → Bool
mentions c [] = false
mentions c (x ∷ s) = let rest = mentions c s in if x == c then true else rest

unfoldable pub after_last : ℕ → Text → Text
unfolding mentions
after_last c [] = []
after_last c (x ∷ s) =
    let rest = after_last c s in if mentions c s then rest else if x == c then s else x ∷ s

-- `s.replace(/\.json$/, "")`
unfoldable pub strip_json : Text → Text
strip_json [] = []
strip_json (x ∷ s) =
    let rest = strip_json s in if text_eq (x ∷ s) (codes ".json") then [] else x ∷ rest

unfoldable pub expected_hash : Text → Text
unfolding after_last strip_json
expected_hash key = after_last b'-' (strip_json (after_last b'/' key))

unfoldable pub pointed : Option (StoredObject Body) → Result Body
pointed none = err internal
pointed (some o) = ok o.body

unfoldable pub decode_snapshot : Body → Result SnapshotBody
decode_snapshot (snapshot_json b) = ok b
decode_snapshot _ = err invalid_response

-- `new Map`, row by row.
unfoldable pub rows_onto : List (Text × Fields) → DocMap → DocMap
rows_onto [] m = m
rows_onto ((id, doc) ∷ rows) m = rows_onto rows (doc_set id doc m)

unfoldable pub load_snapshot_as_map :
    (Body → Text) → MemoryStorage Body → Text → Text → Result DocMap
load_snapshot_as_map hash s key expected_collection = do
  got ← get s key none
  body ← pointed got
  throw_if (not (text_eq (hash body) (expected_hash key))) internal
  parsed ← decode_snapshot body
  throw_if (not (parsed.schema_version == 1)) invalid_response
  throw_if (not (text_eq parsed.collection expected_collection)) invalid_response
  ok (rows_onto parsed.docs [])

-- The rows of a map by id.
unfoldable pub insert_row : Text × Fields → DocMap → List (Text × Fields)
insert_row (id, doc) [] = (id, doc) ∷ []
insert_row (id, doc) ((i, d) ∷ m) =
    let rest = insert_row (id, doc) m in
    if text_lt i id then (i, d) ∷ rest else (id, doc) ∷ (i, d) ∷ m

unfoldable pub sorted_docs : DocMap → List (Text × Fields)
unfolding insert_row
sorted_docs [] = []
sorted_docs (row ∷ m) = insert_row row (sorted_docs m)
