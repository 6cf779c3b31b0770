-- ===== src/CurrentJson/Claim.antt =====
-- A writer's claim of the fence: the write, and the second write that stamps the store's date.
use baerly_storage.Common.{ℕ, ◌+◌, ◌≡◌, Text, [], Option, some, List, get_or}
use baerly_storage.Errors.{ok}
use baerly_storage.Storage.{MemoryStorage, at, Op, run}
use baerly_storage.CurrentJson.Bodies.{CurrentJson, Body}
use baerly_storage.CurrentJson.{read_current_json}
use baerly_storage.CurrentJson.Guard.{IsValid}
use baerly_storage.CurrentJson.Updates.{ReadFrom}

-- Readers get the manifest, which they accept.
pub record Reads (s : MemoryStorage Body) (key : Text) (json : CurrentJson) (etag : ℕ)
    : Type 0 where
  pub valid : IsValid json
  pub reread : read_current_json s key ≡ ok (some (json, etag))

-- What a claim leaves.
pub record Claimed (s : MemoryStorage Body) (between : List (Op Body)) (key owner : Text)
    (date : Option Text) (s' : MemoryStorage Body) (json : CurrentJson) (etag : ℕ) : Type 0 where
  pub before : CurrentJson
  pub before_etag : ℕ
  pub read : ReadFrom s key before before_etag
  pub untouched : at (run between s) key ≡ some read.object
  pub next_epoch : json.writer_fence.epoch ≡ before.writer_fence.epoch + 1
  pub new_owner : json.writer_fence.owner ≡ owner
  pub dated : json.writer_fence.claimed_at ≡ get_or date []
  pub same_lease : json.writer_fence.lease_until ≡ before.writer_fence.lease_until
  pub same_rest : json ≡ record before { writer_fence = json.writer_fence }
  pub reread : read_current_json s' key ≡ ok (some (json, etag))
