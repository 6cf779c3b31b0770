-- ===== src/Gc/Marks.antt =====
-- Where the candidates of a pass come from: the ledger, or the marks of the pass.
use baerly_storage.Common.{
  ℕ, ◌+◌, ◌≡◌, ◌≢◌, refl, ap, sym, Text, text_eq, text_eq_sound, Bool, false, ◌||◌, Option, none,
  some, List, [], ◌∷◌, All, arith, Bool-cases, Option-cases, ◌⊎◌, inl, inr, In, here, there, get_or,
  All-In, In-All, All-append, ◌↔◌, ◌++◌, codes,
}
use mathlib.Core.Path.{subst}
use baerly_storage.CurrentJson.Bodies.{Body, CurrentJson}
use baerly_storage.Storage.{MemoryStorage, list, run}
use baerly_storage.Log.{collection_prefix}
use baerly_storage.GcPending.{orphan_snapshot, GcCandidate, GcPending, holds_key, keys_of}
use baerly_storage.Gc.{parse_max_seq_from_canonical_snapshot_key, is_text}
use baerly_storage.Gc.Dead.{not_named}
use baerly_storage.Gc.Run.{GcCourse, RunGcOptions, gc_grace_period_millis, mark_orphans}

-- The snapshots that a pass lists.
abbrev pub snapshots_at : GcCourse → RunGcOptions → Text → MemoryStorage Body → List (Text × ℕ)
snapshots_at c options key s =
    list (run c.before_list s) (collection_prefix key ++ codes "/snapshot/L9/") []
      options.max_marks_per_run

not_text : (o : Option Text) (key : Text) → o ≢ some key → is_text o key ≡ false
not_text none key h = refl
not_text (some t) key h = elim (Bool-cases (text_eq key t)) [
  | inl e ↦ absurd (h (ap some (sym (text_eq_sound key t e))))
  | inr e ↦ e
]

module _ (date_parse : Text → Option ℕ) (to_iso : ℕ → Text) (c : GcCourse) (options : RunGcOptions)
    (prefix : Text) (current : CurrentJson) where
  -- A mark names a listed snapshot that neither the manifest nor the ledger names, for the time when
  -- its grace period is over.
  pub record Marked (known : List Text) (listed : List (Text × ℕ)) (d : GcCandidate) : Type 0 where
    pub etag : ℕ
    pub max_seq : ℕ
    pub found : In (d.key, etag) listed
    pub canonical : parse_max_seq_from_canonical_snapshot_key d.key prefix ≡ some max_seq
    pub unnamed : current.snapshot ≢ some d.key
    pub not_known : holds_key d.key known ≡ false
    pub snapshot : d.reason ≡ orphan_snapshot
    pub marked_under : d.generation ≡ current.generation
    pub after_grace :
        d.due_at ≡ to_iso (c.mark_time d.key + get_or options.grace_millis gc_grace_period_millis)

  or_false : (a b : Bool) → (a || b) ≡ false → (a ≡ false) × (b ≡ false)
  or_false a b h = ground arith

  marks_among :
      (known : List Text) (listed entries : List (Text × ℕ))
      → ((x : Text × ℕ) → In x entries → In x listed)
      → All
          (Marked known listed)
          (mark_orphans date_parse to_iso c options prefix current known entries)
  unfolding mark_orphans
  marks_among known listed [] h = tt
  marks_among known listed ((key, etag) ∷ entries) h =
      let rest = marks_among known listed entries (λ x i. h x (there i)) in
      elim (Option-cases (parse_max_seq_from_canonical_snapshot_key key prefix)) [
        | inl e ↦ rw (e, mark_orphans) rest
        | inr (max_seq, e) ↦
            elim (Bool-cases (is_text current.snapshot key || holds_key key known)) [
              | inl f ↦ rw (e, f, mark_orphans) rest
              | inr f ↦
                  let (apart, new) =
                    or_false (is_text current.snapshot key) (holds_key key known) f in
                  rw (e, f, mark_orphans)
                    (
                      record {
                        etag = etag;
                        max_seq = max_seq;
                        found = h (key, etag) (here refl);
                        canonical = e;
                        unnamed = not_named current.snapshot key apart;
                        not_known = new;
                        snapshot = refl;
                        marked_under = refl;
                        after_grace = refl;
                      },
                      rest,
                    )
            ]
      ]

  pub mark_orphans-Marked :
      (known : List Text) (listed : List (Text × ℕ))
      → All
          (Marked known listed)
          (mark_orphans date_parse to_iso c options prefix current known listed)
  mark_orphans-Marked known listed = marks_among known listed listed (λ x i. i)

  -- The mark of a key.
  abbrev mark_of : Text → GcCandidate
  mark_of key = record {
    key = key;
    due_at = to_iso (c.mark_time key + get_or options.grace_millis gc_grace_period_millis);
    reason = orphan_snapshot;
    generation = current.generation;
  }

  marked_among :
      (known : List Text) (listed : List (Text × ℕ)) (key : Text) (etag max_seq : ℕ)
      → In (key, etag) listed
      → parse_max_seq_from_canonical_snapshot_key key prefix ≡ some max_seq
      → (is_text current.snapshot key || holds_key key known) ≡ false
      → In (mark_of key) (mark_orphans date_parse to_iso c options prefix current known listed)
  unfolding mark_orphans
  marked_among known [] key etag max_seq i canonical new = elim i [ ]
  marked_among known ((k, e) ∷ entries) key etag max_seq (here q) canonical new =
      let same : key ≡ k = ap (λ (x : Text × ℕ). x.0) q in
      let read : parse_max_seq_from_canonical_snapshot_key k prefix ≡ some max_seq =
        rw (← same) canonical in
      let kept : (is_text current.snapshot k || holds_key k known) ≡ false = rw (← same) new in
      rw (read, kept, mark_orphans) (here (ap mark_of same))
  marked_among known ((k, e) ∷ entries) key etag max_seq (there i) canonical new =
      later (marked_among known entries key etag max_seq i canonical new)
    where
      later :
          In (mark_of key) (mark_orphans date_parse to_iso c options prefix current known entries)
          → In
              (mark_of key)
              (mark_orphans date_parse to_iso c options prefix current known ((k, e) ∷ entries))
      later among = elim (Option-cases (parse_max_seq_from_canonical_snapshot_key k prefix)) [
        | inl p ↦ rw (p, mark_orphans) among
        | inr (m, p) ↦ elim (Bool-cases (is_text current.snapshot k || holds_key k known)) [
          | inl f ↦ rw (p, f, mark_orphans) among
          | inr f ↦ rw (p, f, mark_orphans) (there among)
        ]
      ]

  marked_back :
      (known : List Text) (listed : List (Text × ℕ)) (d : GcCandidate)
      → Marked known listed d
      → In d (mark_orphans date_parse to_iso c options prefix current known listed)
  marked_back known listed d m =
      let new : (is_text current.snapshot d.key || holds_key d.key known) ≡ false =
        rw (not_text current.snapshot d.key m.unnamed) m.not_known in
      let same : mark_of d.key ≡ d = λ i. record {
        key = d.key;
        due_at = sym m.after_grace i;
        reason = sym m.snapshot i;
        generation = sym m.marked_under i;
      } in
      subst (λ x. In x (mark_orphans date_parse to_iso c options prefix current known listed)) same
        (marked_among known listed d.key m.etag m.max_seq m.found m.canonical new)

  -- The marks of a pass are exactly the candidates that name a listed snapshot, with a canonical name
  -- and named neither by the manifest nor by a candidate of the ledger, as an orphan of the manifest's
  -- generation, due when the grace period is over.
  pub In-mark_orphans :
      (known : List Text) (listed : List (Text × ℕ)) (d : GcCandidate)
      → In d (mark_orphans date_parse to_iso c options prefix current known listed)
        ↔ Marked known listed d
  In-mark_orphans known listed d = (
    All-In (Marked known listed) d (mark_orphans-Marked known listed),
    marked_back known listed d,
  )

  -- Of the ledger that the pass read, or of its marks.
  abbrev pub Candidate : GcPending → List (Text × ℕ) → GcCandidate → Type 0
  Candidate pending listed d =
      In d pending.candidates ⊎ Marked (keys_of pending.candidates) listed d

module _ (date_parse : Text → Option ℕ) (to_iso : ℕ → Text) where
  -- Every candidate of a pass comes from one of the two.
  pub candidates_of_pass :
      (c : GcCourse) (options : RunGcOptions) (key : Text) (current : CurrentJson)
      (pending : GcPending) (v : MemoryStorage Body)
      → All
          (Candidate date_parse to_iso c options
            (collection_prefix key)
            current
            pending
            (snapshots_at c options key v))
          (pending.candidates
            ++ mark_orphans date_parse to_iso c options
                (collection_prefix key)
                current
                (keys_of pending.candidates)
                (snapshots_at c options key v))
  candidates_of_pass c options key current pending v =
      let prefix = collection_prefix key in
      let listed = snapshots_at c options key v in
      let known = keys_of pending.candidates in
      let P = Candidate date_parse to_iso c options prefix current pending listed in
      let marks = mark_orphans date_parse to_iso c options prefix current known listed in
      let all_marked =
        mark_orphans-Marked date_parse to_iso c options prefix current known listed in
      All-append P pending.candidates marks (In-All P pending.candidates (λ d i. inl i)) (
        In-All P marks (λ d i.
          inr (
            All-In (Marked date_parse to_iso c options prefix current known listed) d all_marked
              i)))
