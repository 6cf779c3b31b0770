-- ===== src/Log.antt =====
-- The log of a collection: the keys of its slots (protocol/src/log-key.ts) and what a slot's body
-- decodes to. The collection's prefix is the part of the manifest's key before its last slash.
pub mod Keys
pub mod Tail
pub mod Retention
pub mod Lsn
pub mod Adoption
pub mod Fold
pub mod Walk
use baerly_storage.Common.{
  ℕ, Text, codes, Bool, true, false, ◌==◌, Option, none, some, List, [], ◌∷◌, ◌++◌, if◌then◌else◌,
}
use baerly_storage.Common.Decimal.{decimal}
use baerly_storage.Errors.{Result, ok, err, invalid_response}
use baerly_storage.Storage.{MemoryStorage, StoredObject, at}
use baerly_storage.CurrentJson.Bodies.{Body, manifest, entry, other_json, malformed}

-- Behind the slash that follows the prefix.
unfoldable pub log_slot : ℕ → Text
unfolding decimal
log_slot seq = codes "log" ++ (b'/' ∷ (decimal seq ++ codes ".json"))

unfoldable pub log_object_key : Text → ℕ → Text
unfolding log_slot
log_object_key prefix seq = prefix ++ (b'/' ∷ log_slot seq)

-- `key.slice(0, key.lastIndexOf("/"))` of a key that has a slash.
unfoldable pub has_slash : Text → Bool
has_slash [] = false
has_slash (c ∷ s) = let rest = has_slash s in if c == b'/' then true else rest

unfoldable pub collection_prefix : Text → Text
unfolding has_slash
collection_prefix [] = []
collection_prefix (c ∷ s) = let rest = collection_prefix s in if has_slash s then c ∷ rest else []

-- `JSON.parse` of a slot's bytes. The value is cast to a log entry, whatever it is.
unfoldable pub decode_json_bytes : Body → Result Body
decode_json_bytes malformed = err invalid_response
decode_json_bytes b = ok b

abbrev pub is_some {ℓ} : {A : Type ℓ} → Option A → Bool
is_some none = false
is_some (some a) = true

-- Whether an object stands in the slot.
unfoldable pub occupied : MemoryStorage Body → Text → ℕ → Bool
unfolding log_object_key at
occupied s prefix seq = is_some (at s (log_object_key prefix seq))
