-- ===== src/Compactor/Shown.antt =====
-- Two manifests that show the same, and what a run may count on.
use baerly_storage.Common.{
  ℕ, ◌+◌, ◌-◌, ◌≤◌, ◌≡◌, ◌≢◌, refl, ap, sym, ◌∙◌, Text, false, Option, some, List, All, arith,
  length,
}
use baerly_storage.Errors.{ok, >>=-eq-ok, ok-inj}
use baerly_storage.Storage.{MemoryStorage, put, run, Op}
use baerly_storage.Storage.Laws.{at-put-other}
use baerly_storage.Storage.Etags.{LeavesCreated, run-created}
use baerly_storage.CurrentJson.Bodies.{Body, manifest, CurrentJson}
use baerly_storage.CurrentJson.{read_current_json, encode_json, log_seq_start_of}
use baerly_storage.Log.{collection_prefix, log_object_key}
use baerly_storage.Log.Fold.{DocMap, doc_get}
use baerly_storage.Log.Walk.{read_range}
use baerly_storage.Snapshot.{after_last, expected_hash}
use baerly_storage.Compactor.{Course, load_base}
use baerly_storage.Compactor.Prefix.{fold_bodies}
use baerly_storage.Compactor.SameDocs.{SameDocs, fold_bodies-append, fold_bodies-SameDocs}
use baerly_storage.Compactor.View.{
  viewed, SlotsKept, read_range-kept, read_range-back, IsAddressed, Writes,
}

pub run-SlotsKept :
    (prefix : Text) (ops : List (Op Body)) (s t : MemoryStorage Body)
    → ((n : ℕ) → All (LeavesCreated (log_object_key prefix n)) ops)
    → SlotsKept prefix s t
    → SlotsKept prefix s (run ops t)
run-SlotsKept prefix ops s t leaves kept n o held =
    run-created ops t (log_object_key prefix n) o (leaves n) (kept n o held)

pub put-SlotsKept :
    (prefix : Text) (s t u : MemoryStorage Body) (key : Text) (b : Body) (m : Option ℕ) (etag : ℕ)
    → put t key b false m ≡ ok (u, etag)
    → ((n : ℕ) → key ≢ log_object_key prefix n)
    → SlotsKept prefix s t
    → SlotsKept prefix s u
put-SlotsKept prefix s t u key b m etag h other kept n o held =
    at-put-other t u key (log_object_key prefix n) b false m etag h (other n) ∙ kept n o held

module _ (hash : Body → Text) (byte_length : Body → ℕ) where
  -- The manifest `current` gives way to `next` in one write, and both show the same documents.
  pub record Publication (s s' : MemoryStorage Body) (key k : Text) (n : ℕ) : Type 0 where
    pub before : MemoryStorage Body
    pub current : CurrentJson
    pub next : CurrentJson
    pub etag : ℕ
    pub next_etag : ℕ
    pub read : read_current_json s key ≡ ok (some (current, etag))
    pub reread : read_current_json before key ≡ ok (some (current, etag))
    pub swap : put before key (manifest (encode_json next)) false (some etag) ≡ ok (s', next_etag)
    pub published : read_current_json s' key ≡ ok (some (next, next_etag))
    pub points : next.snapshot ≡ some k
    pub start : log_seq_start_of next ≡ n
    pub keeps :
        (tail : ℕ) (m : DocMap)
        → n ≤ tail
        → viewed hash before
            (collection_prefix key)
            (after_last b'/' (collection_prefix key))
            current
            tail
          ≡ ok m
        → (m' : DocMap) × (viewed hash s'
              (collection_prefix key)
              (after_last b'/' (collection_prefix key))
              next
              tail
            ≡ ok m')
          × SameDocs m' m

  -- Other clients write bodies of the kind only; while the run writes they neither delete nor
  -- overwrite slots of the log, and between its two writes they neither delete the new snapshot nor
  -- write other content under its key.
  pub record IsOrderly (Known : Body → Type 0) (key k : Text) (c : Course) : Type 0 where
    pub known_probe : All (Writes Known) c.before_probe
    pub known_load : All (Writes Known) c.before_load
    pub known_fetch : All (Writes Known) c.before_fetch
    pub known_put : All (Writes Known) c.before_put
    pub known_cas : All (Writes Known) c.before_cas
    pub slots_put :
        (i : ℕ) → All (LeavesCreated (log_object_key (collection_prefix key) i)) c.before_put
    pub slots_cas :
        (i : ℕ) → All (LeavesCreated (log_object_key (collection_prefix key) i)) c.before_cas
    pub addressed : All (IsAddressed hash k (expected_hash k)) c.before_cas

module _ (hash : Body → Text) where
  -- Behind a loaded base, the rest of the log is read as before.
  pub viewed-next :
      (t s' : MemoryStorage Body) (prefix collection : Text) (current next : CurrentJson)
      (base : DocMap) (front : List Body) (docs : DocMap) (tail : ℕ) (m : DocMap)
      → SlotsKept prefix t s'
      → read_range t prefix (log_seq_start_of current) (length front) ≡ ok front
      → ((m1 : DocMap) → load_base hash t current.snapshot collection ≡ ok m1 → m1 ≡ base)
      → load_base hash s' next.snapshot collection ≡ ok docs
      → SameDocs docs (fold_bodies collection front base)
      → log_seq_start_of next ≡ log_seq_start_of current + length front
      → log_seq_start_of next ≤ tail
      → viewed hash t prefix collection current tail ≡ ok m
      → (m' : DocMap) × (viewed hash s' prefix collection next tail ≡ ok m') × SameDocs m' m
  unfolding viewed
  viewed-next t s' prefix collection current next base front docs tail m kept range only loaded same
        start within h =
      let (base1, loaded1, h1) = >>=-eq-ok (load_base hash t current.snapshot collection) _ h in
      let (bodies, all, h2) =
        >>=-eq-ok (read_range t prefix (log_seq_start_of current) (tail - log_seq_start_of current))
          _ h1 in
      let parts : tail - log_seq_start_of current ≡ length front + (tail - log_seq_start_of next) =
        omega arith in
      let (back, rest, split) =
        read_range-back t prefix (log_seq_start_of current) (length front)
          (tail - log_seq_start_of next) front bodies range (rw (← parts) all) in
      let there : read_range s' prefix (log_seq_start_of next) (tail - log_seq_start_of next)
          ≡ ok back =
        read_range-kept prefix t s' (log_seq_start_of next) (tail - log_seq_start_of next) back kept
          (ap (λ x. read_range t prefix x (tail - log_seq_start_of next)) start ∙ rest) in
      let is : m ≡ fold_bodies collection back (fold_bodies collection front base) =
        sym (ok-inj h2)
        ∙ ap (λ b. fold_bodies collection bodies b) (only base1 loaded1)
        ∙ ap (λ b. fold_bodies collection b base) split
        ∙ fold_bodies-append collection front back base in
      (
        fold_bodies collection back docs,
        rw (loaded, there) refl,
        λ id.
            fold_bodies-SameDocs collection back docs (fold_bodies collection front base) same id
            ∙ ap (doc_get id) (sym is),
      )
