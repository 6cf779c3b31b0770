-- ===== src/Compactor/Runs.antt =====
-- What a run that published its snapshot has read and written.
use baerly_storage.Common.{
  ℕ, ◌+◌, ◌-◌, ◌≡◌, ◌≢◌, refl, ap, ◌∙◌, Text, false, ltb, none, some, Bool-cases, ◌⊎◌, inl, inr,
  get_or, max,
}
use baerly_storage.Errors.{Code, Result, ok, err, Result-cases, is_write_conflict}
use baerly_storage.Storage.{MemoryStorage, put, run}
use baerly_storage.CurrentJson.Bodies.{Body, manifest, snapshot_json, CurrentJson}
use baerly_storage.CurrentJson.{
  read_current_json, encode_json, log_seq_start_of, assert_current_json_transition,
}
use baerly_storage.Log.{collection_prefix}
use baerly_storage.Log.Tail.{TailProbeChunk, exact, at_least}
use baerly_storage.Snapshot.{snapshot_key, after_last}
use baerly_storage.Compactor.{
  CompactOptions, Course, CompactResult, written, cas_lost, probe_budget_checkpointed,
  checkpoint_lost, snapshot_body, positive_option, probed_tail, is_exact, probe_tail, Fold,
  read_fold,
}
use baerly_storage.Compactor.Steps.{
  next_manifest, swapped, swap_manifest, publish_to, publish, over_ceiling, write_fold, checkpoint,
  with_tail, with_manifest, compact,
}

abbrev Published : MemoryStorage Body → Text → ℕ → MemoryStorage Body × Result CompactResult
Published s k n = (s, ok (written k n))

-- A swap of the manifest that is refused gives the outcome of a loss, or an error.
swapped-cases :
    (s : MemoryStorage Body) (won lost : CompactResult) (r : Result (MemoryStorage Body × ℕ))
    → ((s' : MemoryStorage Body) × (e : ℕ) × (r ≡ ok (s', e))
        × (swapped s won lost r ≡ (s', ok won)))
      ⊎ ((swapped s won lost r ≡ (s, ok lost))
          ⊎ ((code : Code) × (swapped s won lost r ≡ (s, err code))))
unfolding swapped
swapped-cases s won lost (ok (s', e)) = inl (s', e, refl, refl)
swapped-cases s won lost (err code) = elim (Bool-cases (is_write_conflict code)) [
  | inl e ↦ inr (inl (rw (e, swapped) refl))
  | inr e ↦ inr (inr (code, rw (e, swapped) refl))
]

swap_manifest-won :
    (s s' : MemoryStorage Body) (key : Text) (current next : CurrentJson) (etag : ℕ)
    (won lost : CompactResult) (k : Text) (n : ℕ)
    → lost ≢ written k n
    → swap_manifest s key current next etag won lost ≡ Published s' k n
    → (e : ℕ) × (put s key (manifest (encode_json next)) false (some etag) ≡ ok (s', e))
      × (won ≡ written k n)
unfolding swap_manifest
swap_manifest-won s s' key current next etag won lost k n other h =
    elim (Result-cases (assert_current_json_transition current next)) [
      | inr (code, e) ↦ cc (rw (e, swap_manifest) at h)
      | inl (t, e) ↦
          let swap = put s key (manifest (encode_json next)) false (some etag) in
          let h' : swapped s won lost swap ≡ Published s' k n = (rw (e, swap_manifest) at h) in
          elim (swapped-cases s won lost swap) [
            | inl (s1, e1, p, q) ↦ (e1, p ∙ ap (λ t. ok (t, e1)) (cc (q, h')), cc (q, h'))
            | inr (inl q) ↦ absurd (other (cc (q, h')))
            | inr (inr (code, q)) ↦ cc (q, h')
          ]
    ]

checkpoint-unpublished :
    (s s' : MemoryStorage Body) (key : Text) (current : CurrentJson) (etag : ℕ)
    (probe : TailProbeChunk) (k : Text) (n : ℕ)
    → checkpoint s key current etag probe ≢ Published s' k n
unfolding checkpoint is_exact probed_tail
checkpoint-unpublished s s' key current etag (exact tail entries complete) k n h = cc (h)
checkpoint-unpublished s s' key current etag (at_least bound entries complete) k n h =
    let (e, p, q) =
      swap_manifest-won s s' key current
        (record current { tail_hint = max current.tail_hint bound }) etag probe_budget_checkpointed
        checkpoint_lost k n (λ r. cc (r)) h in
    cc (q)

module _ (hash : Body → Text) (byte_length : Body → ℕ) where
  -- The run that published the snapshot `k` of the log up to `n`.
  pub record Ran (s s' : MemoryStorage Body) (c : Course) (options : CompactOptions) (key k : Text)
      (n : ℕ) : Type 0 where
    pub current : CurrentJson
    pub etag : ℕ
    pub probe : TailProbeChunk
    pub f : Fold
    pub stored : MemoryStorage Body
    pub stored_etag : ℕ
    pub next_etag : ℕ
    pub read : read_current_json s key ≡ ok (some (current, etag))
    pub probed :
        probe_tail
          (run c.before_probe s)
          (collection_prefix key)
          (max (max (log_seq_start_of current) current.tail_hint) (get_or options.known_tail 0))
          options.max_tail_probe_gets
        ≡ ok probe
    pub folded :
        read_fold hash
          (run c.before_probe s)
          c
          options
          current
          (collection_prefix key)
          (after_last b'/' (collection_prefix key))
          (probed_tail probe)
        ≡ ok f
    pub end : n ≡ log_seq_start_of current + f.applied
    pub named :
        snapshot_key
          (collection_prefix key)
          0
          n
          (hash (snapshot_json (snapshot_body (after_last b'/' (collection_prefix key)) n f.base)))
        ≡ ok k
    pub put_snapshot :
        put
          (run c.before_put (run c.before_fetch (run c.before_load (run c.before_probe s))))
          k
          (snapshot_json (snapshot_body (after_last b'/' (collection_prefix key)) n f.base))
          false
          none
        ≡ ok (stored, stored_etag)
    pub put_manifest :
        put
          (run c.before_cas stored)
          key
          (manifest (
            encode_json (
              next_manifest hash byte_length current
                (after_last b'/' (collection_prefix key))
                k
                (probed_tail probe)
                f)))
          false
          (some etag)
        ≡ ok (s', next_etag)

  publish-won :
      (s s' : MemoryStorage Body) (c : Course) (key collection : Text) (current : CurrentJson)
      (etag tail : ℕ) (f : Fold) (name : Result Text) (k : Text) (n : ℕ)
      → publish hash byte_length s c key collection current etag tail f name ≡ Published s' k n
      → (stored : MemoryStorage Body) × (stored_etag : ℕ) × (next_etag : ℕ) × (name ≡ ok k)
        × (n ≡ log_seq_start_of current + f.applied)
        × (put (run c.before_put s) k (snapshot_json (snapshot_body collection n f.base)) false none
            ≡ ok (stored, stored_etag))
        × (put
              (run c.before_cas stored)
              key
              (manifest (encode_json (next_manifest hash byte_length current collection k tail f)))
              false
              (some etag)
            ≡ ok (s', next_etag))
  unfolding publish publish_to
  publish-won s s' c key collection current etag tail f (err code) k n h = cc
  publish-won s s' c key collection current etag tail f (ok name) k n h =
      let fold_end : ℕ = log_seq_start_of current + f.applied in
      let body : Body = snapshot_json (snapshot_body collection fold_end f.base) in
      elim (Result-cases (put (run c.before_put s) name body false none)) [
        | inr (code, e) ↦ cc (rw e at h)
        | inl ((stored, stored_etag), e) ↦
            let next = next_manifest hash byte_length current collection name tail f in
            let swap : swap_manifest (run c.before_cas stored) key current next etag
                  (written name fold_end) (cas_lost name fold_end)
                ≡ Published s' k n =
              (rw e at h) in
            let (next_etag, p, is) =
              swap_manifest-won (run c.before_cas stored) s' key current next etag
                (written name fold_end) (cas_lost name fold_end) k n (λ q. cc (q)) swap in
            let same : name ≡ k = cc (is) in
            let same_end : fold_end ≡ n = cc (is) in
            rw (← same, ← same_end) (stored, stored_etag, next_etag, refl, refl, e, p)
      ]

  with_tail-won :
      (s s' : MemoryStorage Body) (c : Course) (options : CompactOptions) (key : Text)
      (current : CurrentJson) (etag : ℕ) (probe : TailProbeChunk) (k : Text) (n : ℕ)
      → with_tail hash byte_length s c options key current etag (ok probe) ≡ Published s' k n
      → (f : Fold) × (read_fold hash s c options current
            (collection_prefix key)
            (after_last b'/' (collection_prefix key))
            (probed_tail probe)
          ≡ ok f)
        × (publish hash byte_length
              (run c.before_fetch (run c.before_load s))
              c
              key
              (after_last b'/' (collection_prefix key))
              current
              etag
              (probed_tail probe)
              f
              (snapshot_key (collection_prefix key) 0 (log_seq_start_of current + f.applied) (
                hash (
                  snapshot_json (
                    snapshot_body
                      (after_last b'/' (collection_prefix key))
                      (log_seq_start_of current + f.applied)
                      f.base))))
            ≡ Published s' k n)
  unfolding with_tail
  with_tail-won s s' c options key current etag probe k n h =
      elim (Bool-cases (
        ltb (probed_tail probe - log_seq_start_of current)
          (get_or options.min_entries_to_compact 100))) [
            | inl few ↦ absurd (
                checkpoint-unpublished (run c.before_load s) s' key current etag probe k n
                  (rw (few, with_tail) at h))
            | inr enough ↦
                elim (Result-cases (
                  read_fold hash s c options current (collection_prefix key)
                    (after_last b'/' (collection_prefix key)) (probed_tail probe))) [
                      | inr (code, e) ↦ cc (rw (enough, e, with_tail, write_fold) at h)
                      | inl (f, e) ↦
                          elim (Bool-cases (
                            over_ceiling hash byte_length options
                              (after_last b'/' (collection_prefix key))
                              (log_seq_start_of current + f.applied) f)) [
                                | inl over ↦ cc (rw (enough, e, over, with_tail, write_fold) at h)
                                | inr under ↦
                                    (f, e, (rw (enough, e, under, with_tail, write_fold) at h))
                              ]
                    ]
          ]

  with_manifest-Ran :
      (s s' : MemoryStorage Body) (c : Course) (options : CompactOptions) (key k : Text) (n : ℕ)
      (current : CurrentJson) (etag : ℕ)
      → read_current_json s key ≡ ok (some (current, etag))
      → with_manifest hash byte_length s c options key (ok (some (current, etag)))
        ≡ Published s' k n
      → Ran s s' c options key k n
  unfolding with_manifest
  with_manifest-Ran s s' c options key k n current etag read h =
      elim (Result-cases (
        probe_tail (run c.before_probe s) (collection_prefix key)
          (max (max (log_seq_start_of current) current.tail_hint) (get_or options.known_tail 0))
          options.max_tail_probe_gets)) [
            | inr (code, e) ↦ cc (rw (e, with_manifest, with_tail) at h)
            | inl (probe, e) ↦
                let (f, folded, h1) =
                  with_tail-won (run c.before_probe s) s' c options key current etag probe k n
                    (rw (e, with_manifest) at h) in
                let (stored, stored_etag, next_etag, named, end, put_snapshot, put_manifest) =
                  publish-won (run c.before_fetch (run c.before_load (run c.before_probe s))) s' c
                    key (after_last b'/' (collection_prefix key)) current etag (probed_tail probe) f
                    _ k n h1 in
                record {
                  current = current;
                  etag = etag;
                  probe = probe;
                  f = f;
                  stored = stored;
                  stored_etag = stored_etag;
                  next_etag = next_etag;
                  read = read;
                  probed = e;
                  folded = folded;
                  end = end;
                  named = rw end named;
                  put_snapshot = put_snapshot;
                  put_manifest = put_manifest;
                }
          ]

  -- A run that publishes has read, folded and written as the record says.
  pub compact-Ran :
      (s s' : MemoryStorage Body) (c : Course) (options : CompactOptions) (key k : Text) (n : ℕ)
      → compact hash byte_length s c options key ≡ (s', ok (written k n))
      → Ran s s' c options key k n
  unfolding compact
  compact-Ran s s' c options key k n h =
      elim (Result-cases (positive_option options.max_tail_probe_gets)) [
        | inr (code, e) ↦ cc (rw (e, compact) at h)
        | inl (t, e) ↦ elim (Result-cases (read_current_json s key)) [
          | inr (code, r) ↦ cc (rw (e, r, compact, with_manifest) at h)
          | inl (none, r) ↦ cc (rw (e, r, compact, with_manifest) at h)
          | inl (some (current, etag), r) ↦
              with_manifest-Ran s s' c options key k n current etag r (rw (e, r, compact) at h)
        ]
      ]
