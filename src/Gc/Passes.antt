-- ===== src/Gc/Passes.antt =====
-- What a whole pass leaves in the store, beside the ledger.
use baerly_storage.Common.{
  ℕ, ◌≡◌, ◌≢◌, refl, ap, ◌∙◌, Text, Option, none, some, List, ◌++◌, Bool-cases, ◌⊎◌, inl, inr,
  get_or, All, In-All, All-In,
}
use baerly_storage.Errors.{ok, err, Result-cases, >>=-eq-ok, ok-inj}
use baerly_storage.Storage.{MemoryStorage, at, run}
use baerly_storage.CurrentJson.Bodies.{Body, CurrentJson}
use baerly_storage.CurrentJson.{read_current_json}
use baerly_storage.Log.{collection_prefix}
use baerly_storage.GcPending.{
  GcCandidate, GcPending, gc_pending_key, read_gc_pending, cas_update_gc_pending, keys_of,
}
use baerly_storage.Writer.Attempt.{After}
use baerly_storage.Gc.{arm_of, dropped_keys, split_candidates}
use baerly_storage.Gc.Dead.{Swept}
use baerly_storage.Gc.Safe.{split_candidates-Swept, split_candidates-All}
use baerly_storage.Gc.Marks.{snapshots_at, Candidate, candidates_of_pass}
use baerly_storage.Gc.Deletes.{delete_candidates-others}
use baerly_storage.Gc.Run.{
  GcCourse, RunGcOptions, ensure_pending, delete_candidates, is_due, has_due_snapshot, record_pass,
  sweep_pass, fresh_current, mark_pass, merged, mark_orphans, gc_with, run_gc, json_of,
}
use baerly_storage.Gc.Elsewhere.{
  run-Elsewhere, cas_attempts-at, ensure_pending-at, report-at, AllElsewhere,
}

All_both :
    (P Q : GcCandidate → Type 0) (l : List GcCandidate) → All P l → All Q l → All (λ d. P d × Q d) l
All_both P Q l p q = In-All (λ d. P d × Q d) l (λ d i. (All-In P d p i, All-In Q d q i))

module _ (date_parse : Text → Option ℕ) (to_iso : ℕ → Text) where
  -- The ledger that a pass reads or creates, and the store then.
  abbrev pub ledger_of : MemoryStorage Body → GcCourse → Text → After GcPending
  ledger_of s c key =
      let t = run c.before_pending s in
      let pending_key = gc_pending_key (collection_prefix key) in
      ensure_pending t c pending_key (read_gc_pending t pending_key)

  -- Why a pass took the key away: `current` is the manifest that it began with, `pending` the ledger,
  -- and `fresh` the manifest that it read again behind its listing, if it did.
  pub record TakenBy (s : MemoryStorage Body) (c : GcCourse) (options : RunGcOptions) (key : Text)
      (ledger : After GcPending) (j : Text) : Type 0 where
    pub current : CurrentJson
    pub fresh : Option CurrentJson
    pub pending : GcPending
    pub candidate : GcCandidate
    pub etag : ℕ
    pub read : read_current_json s key ≡ ok (some (current, etag))
    pub loaded : ledger.1 ≡ ok pending
    pub origin :
        Candidate date_parse to_iso c options
          (collection_prefix key)
          current
          pending
          (snapshots_at c options key ledger.0)
          candidate
    pub fresh_read :
        (f : CurrentJson)
        → fresh ≡ some f
        → (e : ℕ) × (read_current_json (run c.before_fresh (run c.before_list ledger.0)) key
            ≡ ok (some (f, e)))
    pub named : candidate.key ≡ j
    pub swept :
        Swept
          (is_due date_parse to_iso c.sweep_time)
          (collection_prefix key)
          (get_or fresh current)
          fresh
          candidate

  record_pass-at :
      (j key : Text) (c : GcCourse) (marks to_sweep remaining : List GcCandidate)
      (dropped : List Text) (stale still_live : ℕ) (a : After (Unit {0}))
      → key ≢ j
      → AllElsewhere j c
      → at
          (record_pass date_parse to_iso c key marks to_sweep remaining dropped stale still_live
            a).0
          j
        ≡ at a.0 j
  unfolding record_pass cas_update_gc_pending
  record_pass-at j key c marks to_sweep remaining dropped stale still_live (s, err code) apart
        away =
      refl
  record_pass-at j key c marks to_sweep remaining dropped stale still_live (s, ok t) apart away =
      report-at j marks to_sweep remaining stale still_live _
      ∙ cas_attempts-at j key apart 3 c.between s
          (merged date_parse to_iso c to_sweep dropped marks) away.reads away.writes

  fresh_current-read :
      (t : MemoryStorage Body) (now : ℕ) (key : Text) (candidates : List GcCandidate)
      (fresh : Option CurrentJson) (f : CurrentJson)
      → fresh_current date_parse to_iso t now key candidates ≡ ok fresh
      → fresh ≡ some f
      → (e : ℕ) × (read_current_json t key ≡ ok (some (f, e)))
  unfolding fresh_current
  fresh_current-read t now key candidates fresh f h is =
      elim (Bool-cases (has_due_snapshot date_parse to_iso now candidates)) [
        | inr e ↦ cc (rw (e, fresh_current) at h, is)
        | inl e ↦
            let (r, h1, h2) = >>=-eq-ok (read_current_json t key) _ (rw (e, fresh_current) at h) in
            from r h1 (ok-inj h2 ∙ is)
      ]
    where
      from :
          (r : Option (CurrentJson × ℕ))
          → read_current_json t key ≡ ok r
          → json_of r ≡ some f
          → (e : ℕ) × (read_current_json t key ≡ ok (some (f, e)))
      from none h1 q = cc
      from (some (json, e)) h1 q = (e, h1 ∙ ap (λ (x : CurrentJson). ok (some (x, e))) (cc (q)))

  sweep_pass-Taken :
      (j : Text) (s v : MemoryStorage Body) (c : GcCourse) (options : RunGcOptions) (key : Text)
      (current : CurrentJson) (etag : ℕ) (pending : GcPending) (marks candidates : List GcCandidate)
      → gc_pending_key (collection_prefix key) ≢ j
      → AllElsewhere j c
      → read_current_json s key ≡ ok (some (current, etag))
      → All
          (Candidate date_parse to_iso c options
            (collection_prefix key)
            current
            pending
            (snapshots_at c options key v))
          candidates
      → (at
            (sweep_pass date_parse to_iso
              (run c.before_fresh (run c.before_list v))
              c
              options
              (collection_prefix key)
              current
              marks
              candidates
              (fresh_current date_parse to_iso
                (run c.before_fresh (run c.before_list v))
                c.sweep_time
                key
                candidates)).0
            j
          ≡ at (run c.before_fresh (run c.before_list v)) j)
        ⊎ TakenBy s c options key (v, ok pending) j
  unfolding sweep_pass
  sweep_pass-Taken j s v c options key current etag pending marks candidates apart away read
        origins =
      let t = run c.before_fresh (run c.before_list v) in
      elim (Result-cases (fresh_current date_parse to_iso t c.sweep_time key candidates)) [
        | inr (code, e) ↦ rw (e, sweep_pass) (inl refl)
        | inl (fresh, e) ↦
            let prefix = collection_prefix key in
            let fence = get_or fresh current in
            let due = is_due date_parse to_iso c.sweep_time in
            let dropped = dropped_keys (arm_of prefix fence fresh) candidates in
            let parts =
              split_candidates due prefix fresh dropped options.max_sweeps_per_run 0 candidates in
            let u = run c.before_delete t in
            let same_at : at u j ≡ at t j = run-Elsewhere j c.before_delete t away.delete in
            let Origin =
              Candidate date_parse to_iso c options prefix current pending
                (snapshots_at c options key v) in
            let all_origins =
              split_candidates-All Origin due prefix fresh dropped options.max_sweeps_per_run 0
                candidates origins in
            let all_swept =
              split_candidates-Swept due prefix fence fresh options.max_sweeps_per_run candidates in
            let both =
              All_both Origin (Swept due prefix fence fresh) parts.0 all_origins all_swept in
            elim (delete_candidates-others (λ d. Origin d × Swept due prefix fence fresh d) u
              parts.0 j both) [
                | inl unchanged ↦ inl (
                    rw (e, sweep_pass)
                      (record_pass-at j (gc_pending_key prefix) c marks parts.0 parts.1 dropped _ _
                          (delete_candidates u parts.0) apart away
                        ∙ unchanged
                        ∙ same_at))
                | inr (candidate, named, (origin, swept)) ↦ inr (record {
                  current = current;
                  fresh = fresh;
                  pending = pending;
                  candidate = candidate;
                  etag = etag;
                  read = read;
                  loaded = refl;
                  origin = origin;
                  fresh_read =
                      λ f is. fresh_current-read t c.sweep_time key candidates fresh f e is;
                  named = named;
                  swept = swept;
                })
              ]
      ]

  mark_pass-Taken :
      (j : Text) (s : MemoryStorage Body) (c : GcCourse) (options : RunGcOptions) (key : Text)
      (current : CurrentJson) (etag : ℕ) (a : After GcPending)
      → gc_pending_key (collection_prefix key) ≢ j
      → AllElsewhere j c
      → read_current_json s key ≡ ok (some (current, etag))
      → (at (mark_pass date_parse to_iso c options key current a).0 j ≡ at a.0 j)
        ⊎ TakenBy s c options key a j
  unfolding mark_pass
  mark_pass-Taken j s c options key current etag (t, err code) apart away read = inl refl
  mark_pass-Taken j s c options key current etag (t, ok pending) apart away read =
      let marks =
        mark_orphans date_parse to_iso c options (collection_prefix key) current
          (keys_of pending.candidates) (snapshots_at c options key t) in
      let u = run c.before_fresh (run c.before_list t) in
      let same_at : at u j ≡ at t j =
        run-Elsewhere j c.before_fresh (run c.before_list t) away.fresh
        ∙ run-Elsewhere j c.before_list t away.listing in
      elim (sweep_pass-Taken j s t c options key current etag pending marks
        (pending.candidates ++ marks) apart away read
        (candidates_of_pass date_parse to_iso c options key current pending t)) [
          | inl unchanged ↦ inl (unchanged ∙ same_at)
          | inr taken ↦ inr taken
        ]

  -- Where other clients only call other keys, and the key is not the ledger's:
  -- A pass of garbage collection, whether or not it ends with an error, leaves the key as it was,
  -- unless a candidate of the ledger that it read or created, or a mark of its own, names it that is
  -- due, was marked under the generation of the manifest that the pass holds, and is dead: a snapshot that the manifest, read again during the pass, does not
  -- name and that ends below the start of its live range, or a slot of the log below the start of the
  -- live range.
  -- A mark of its own names a listed snapshot that neither the manifest nor the ledger names.
  pub run_gc-Taken :
      (j : Text) (s : MemoryStorage Body) (c : GcCourse) (options : RunGcOptions) (key : Text)
      → gc_pending_key (collection_prefix key) ≢ j
      → AllElsewhere j c
      → (at (run_gc date_parse to_iso s c options key).0 j ≡ at s j)
        ⊎ TakenBy s c options key (ledger_of s c key) j
  unfolding run_gc gc_with
  run_gc-Taken j s c options key apart away = elim (Result-cases (read_current_json s key)) [
    | inr (code, e) ↦ rw (e, run_gc, gc_with) (inl refl)
    | inl (none, e) ↦ rw (e, run_gc, gc_with) (inl refl)
    | inl (some (current, etag), e) ↦
        let t = run c.before_pending s in
        let pending_key = gc_pending_key (collection_prefix key) in
        let ledger = ledger_of s c key in
        let same_at : at ledger.0 j ≡ at s j =
          ensure_pending-at j pending_key apart t c (read_gc_pending t pending_key) away.create
            away.reread
          ∙ run-Elsewhere j c.before_pending s away.pending in
        elim (mark_pass-Taken j s c options key current etag ledger apart away e) [
          | inl unchanged ↦ inl (rw (e, run_gc, gc_with) (unchanged ∙ same_at))
          | inr taken ↦ inr taken
        ]
  ]
