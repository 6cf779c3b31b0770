-- ===== src/Compactor/Keeps.antt =====
-- A published snapshot changes nothing that readers see.
use baerly_storage.Common.{
  ℕ, ◌+◌, ◌≡◌, refl, ap, sym, ◌∙◌, Text, false, none, some, List, [], ◌∷◌, ◌++◌, arith, length,
}
use mathlib.Core.Path.{subst}
use baerly_storage.Errors.{ok}
use baerly_storage.Storage.{MemoryStorage, at, put, run, Op, put_op}
use baerly_storage.Storage.Laws.{put-valid, at-put, at-put-other}
use baerly_storage.Storage.Etags.{IsFresh, run-append, run-put, put-if_match}
use baerly_storage.CurrentJson.Bodies.{Body, manifest, snapshot_json, CurrentJson}
use baerly_storage.CurrentJson.{encode_json, log_seq_start_of, or_missing}
use baerly_storage.CurrentJson.Guard.{IsValid}
use baerly_storage.CurrentJson.Updates.{
  ReadFrom, read_current_json-ok, read_current_json-held, ReadFrom-IsValid, read-after-write,
}
use baerly_storage.Log.{collection_prefix}
use baerly_storage.Log.Fold.{doc_get}
use baerly_storage.Snapshot.{after_last, expected_hash, snapshot_path, rows_onto, sorted_docs}
use baerly_storage.Snapshot.Rows.{
  Distinct, doc_get-loaded, doc_get-sorted_docs, sorted_docs-Distinct,
}
use baerly_storage.Snapshot.Loads.{load_snapshot_as_map-written}
use baerly_storage.Compactor.{
  CompactOptions, Course, written, snapshot_body, load_base, probed_tail,
}
use baerly_storage.Compactor.Steps.{next_manifest, compact}
use baerly_storage.Compactor.Prefix.{fold_bodies}
use baerly_storage.Compactor.SameDocs.{SameDocs, fold_bodies-Distinct}
use baerly_storage.Compactor.View.{
  SlotsKept, read_range-kept, Holds, run-Holds, Stores, run-Stores, not_log_object_key,
  not_snapshot_path, snapshot_path-log,
}
use baerly_storage.Compactor.Runs.{Ran, compact-Ran}
use baerly_storage.Compactor.Reads.{
  own_snapshot, ReadsOf, read_fold-ReadsOf, load_base-Distinct, load_base_unique, snapshot_key-ok,
}
use baerly_storage.Compactor.Shown.{
  run-SlotsKept, put-SlotsKept, Publication, IsOrderly, viewed-next,
}

module _ (hash : Body → Text) (byte_length : Body → ℕ) where
  module _ (Known : Body → Type 0)
      (distinct : (a b : Body) → Known a → Known b → hash a ≡ hash b → a ≡ b) where
    module _ (s s' : MemoryStorage Body) (c : Course) (options : CompactOptions) (key k : Text)
        (n : ℕ) (ran : Ran hash byte_length s s' c options key k n)
        (reads : ReadsOf hash
          (run c.before_probe s)
          c
          ran.current
          (collection_prefix key)
          (after_last b'/' (collection_prefix key))
          (probed_tail ran.probe)
          ran.f)
        (stores : Stores Known s) (orderly : IsOrderly hash byte_length Known key k c)
        (own : (b : Body) → own_snapshot hash s c options key ≡ ok b → Known b) where
      abbrev prefix : Text
      prefix = collection_prefix key

      abbrev next : CurrentJson
      next =
          next_manifest hash byte_length ran.current (after_last b'/' (collection_prefix key)) k
            (probed_tail ran.probe) ran.f

      next-IsValid : IsValid ran.current → IsValid next
      unfolding next_manifest log_seq_start_of
      next-IsValid v = record {
        supported = v.supported;
        ordered = ground (arith, v.ordered, reads.few, reads.applied);
        hex = v.hex;
      }

      abbrev content : Body
      content = snapshot_json (snapshot_body (after_last b'/' (collection_prefix key)) n ran.f.base)

      is_snapshot : (k ≡ snapshot_path prefix 0 n (hash content)) × (expected_hash k ≡ hash content)
      is_snapshot = snapshot_key-ok (collection_prefix key) (hash content) k 0 n ran.named

      fetched_kept :
          SlotsKept prefix
            (run c.before_fetch (run c.before_load (run c.before_probe s)))
            (run c.before_cas ran.stored)
      fetched_kept = run-SlotsKept prefix c.before_cas _ ran.stored orderly.slots_cas (
          put-SlotsKept prefix _ _ ran.stored k _ none ran.stored_etag ran.put_snapshot
            (λ i e. snapshot_path-log prefix 0 n i (hash content) (sym is_snapshot.0 ∙ e))
            (run-SlotsKept prefix c.before_put _ _ orderly.slots_put (λ i o held. held)))

      abbrev before : MemoryStorage Body
      before = run c.before_cas ran.stored

      content-Known : Known content
      unfolding own_snapshot or_missing
      content-Known = own content own_it
        where
          own_it : own_snapshot hash s c options key ≡ ok content
          own_it =
              unfold own_snapshot or_missing in rw (ran.read, ran.probed, ran.folded, ran.end) refl

      new_held : Holds s' k content
      new_held =
          let stored : Holds ran.stored k content =
            (_, at-put _ ran.stored k content false none ran.stored_etag ran.put_snapshot, refl) in
          let sha : expected_hash k ≡ hash content = is_snapshot.1 in
          let (o, held, is) =
            run-Holds hash Known distinct c.before_cas ran.stored k content content-Known
              orderly.known_cas (rw sha at orderly.addressed) stored in
          (
            o,
            at-put-other before s' key k _ false (some ran.etag) ran.next_etag ran.put_manifest
                  (λ e. not_snapshot_path key 0 n (hash content) (e ∙ is_snapshot.0))
                ∙ held,
            is,
          )

      -- The calls between the manifest's read and its write.
      abbrev since : List (Op Body)
      since =
          c.before_probe
          ++ (c.before_load
              ++ (c.before_fetch ++ (c.before_put ++ (put_op k content false none ∷ c.before_cas))))

      since-before : run since s ≡ before
      since-before =
          run-append c.before_probe _ s
          ∙ run-append c.before_load _ (run c.before_probe s)
          ∙ run-append c.before_fetch _ (run c.before_load (run c.before_probe s))
          ∙ run-append c.before_put _
              (run c.before_fetch (run c.before_load (run c.before_probe s)))
          ∙ run-put _ ran.stored k content false none ran.stored_etag c.before_cas ran.put_snapshot

      loaded-Stores : Stores Known (run c.before_load (run c.before_probe s))
      loaded-Stores =
          run-Stores Known c.before_load _ orderly.known_load
            (run-Stores Known c.before_probe s orderly.known_probe stores)

      before-Stores : Stores Known before
      before-Stores = subst (Stores Known) after_put (
          run-Stores Known (put_op k content false none ∷ c.before_cas) _
            (content-Known, orderly.known_cas)
            (run-Stores Known c.before_put _ orderly.known_put
              (run-Stores Known c.before_fetch _ orderly.known_fetch loaded-Stores)))
        where
          after_put :
              run
                (put_op k content false none ∷ c.before_cas)
                (run c.before_put (run c.before_fetch (run c.before_load (run c.before_probe s))))
              ≡ before
          after_put =
              run-put _ ran.stored k content false none ran.stored_etag c.before_cas
                ran.put_snapshot

      swapped_from :
          IsFresh s
          → (from : ReadFrom s key ran.current ran.etag) → at before key ≡ some from.object
      swapped_from fresh from =
          let all : run since s ≡ before = since-before in
          ap (λ t. at t key) (sym all)
          ∙ put-if_match s s' since key from.object (manifest (encode_json next)) ran.next_etag
              fresh from.held
              (ap (λ t. put t key (manifest (encode_json next)) false (some from.object.etag)) all
                ∙ ap (λ e. put before key (manifest (encode_json next)) false (some e)) from.named
                ∙ ran.put_manifest)

      new_base :
          load_base hash s' (some k) (after_last b'/' (collection_prefix key))
          ≡ ok (rows_onto (sorted_docs ran.f.base) [])
      unfolding load_base
      new_base =
          let (o, held, is) = new_held in
          load_snapshot_as_map-written hash s' k (after_last b'/' (collection_prefix key)) o
            (snapshot_body (after_last b'/' (collection_prefix key)) n ran.f.base)
            (put-valid _ ran.stored k content false none ran.stored_etag ran.put_snapshot) held is
            (sym is_snapshot.1) refl refl

      folded-SameDocs :
          SameDocs
            (rows_onto (sorted_docs ran.f.base) [])
            (fold_bodies (after_last b'/' (collection_prefix key)) reads.front reads.base)
      folded-SameDocs id =
          let distinct : Distinct ran.f.base = rw (reads.map) (
            fold_bodies-Distinct (after_last b'/' (collection_prefix key)) reads.front reads.base
              (load_base-Distinct hash _ ran.current.snapshot _ reads.base reads.loaded)) in
          doc_get-loaded id (sorted_docs ran.f.base) (sorted_docs-Distinct ran.f.base distinct)
          ∙ doc_get-sorted_docs id ran.f.base
          ∙ ap (doc_get id) reads.map

      published : IsFresh s → Publication hash byte_length s s' key k n
      unfolding next_manifest log_seq_start_of
      published fresh =
          let from = read_current_json-ok s key ran.current ran.etag ran.read in
          record {
            before = before;
            current = ran.current;
            next = next;
            etag = ran.etag;
            next_etag = ran.next_etag;
            read = ran.read;
            reread =
                read_current_json-held s before key ran.current ran.etag from
                  (put-valid before s' key _ false (some ran.etag) ran.next_etag ran.put_manifest)
                  (swapped_from fresh from);
            swap = ran.put_manifest;
            published =
                read-after-write before s' key next false (some ran.etag) ran.next_etag
                  (next-IsValid (ReadFrom-IsValid s key ran.current ran.etag from))
                  ran.put_manifest;
            points = refl;
            start = sym ran.end;
            keeps = λ tail m within shown.
                viewed-next hash before s' prefix (after_last b'/' (collection_prefix key))
                  ran.current next reads.base reads.front (rows_onto (sorted_docs ran.f.base) [])
                  tail m
                  (put-SlotsKept prefix before before s' key _ (some ran.etag) ran.next_etag
                    ran.put_manifest (not_log_object_key key) (λ i o held. held))
                  (read_range-kept prefix _ before (log_seq_start_of ran.current)
                    (length reads.front) reads.front fetched_kept reads.range)
                  (λ m1 loaded.
                    load_base_unique hash before _ ran.current.snapshot _ m1 reads.base
                      (λ j x y there here.
                        distinct x.body y.body (before-Stores j x there) (loaded-Stores j y here))
                      loaded reads.loaded)
                  new_base folded-SameDocs
                  (ap (λ x. log_seq_start_of ran.current + x) reads.applied)
                  (omega (arith, ran.end)) shown;
          }

    -- Where bodies of a kind have different hashes if they differ, and the store's objects, what other
    -- clients write and the snapshot that the run would write are of that kind; in a store without an
    -- ETag ahead of its counter; where other clients, while the run writes, neither delete nor
    -- overwrite slots of the log, and between its two writes neither delete the new snapshot nor write
    -- what has another hash under its key:
    -- A run that publishes replaces the manifest that it read, and that the key still held, in one
    -- write. The new manifest names the new snapshot and the end of the fold. With each tail from that
    -- end on, if the old manifest showed the documents of the collection just before the write, then
    -- the new one shows the same documents after it.
    pub compact-Publication :
        (s s' : MemoryStorage Body) (c : Course) (options : CompactOptions) (key k : Text) (n : ℕ)
        → IsFresh s
        → Stores Known s
        → IsOrderly hash byte_length Known key k c
        → ((b : Body) → own_snapshot hash s c options key ≡ ok b → Known b)
        → compact hash byte_length s c options key ≡ (s', ok (written k n))
        → Publication hash byte_length s s' key k n
    compact-Publication s s' c options key k n fresh stores orderly own h =
        let ran = compact-Ran hash byte_length s s' c options key k n h in
        let reads =
          read_fold-ReadsOf hash (run c.before_probe s) c options ran.current
            (collection_prefix key) (after_last b'/' (collection_prefix key))
            (probed_tail ran.probe) ran.f ran.folded in
        published s s' c options key k n ran reads stores orderly own fresh
