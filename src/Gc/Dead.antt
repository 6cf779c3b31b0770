-- ===== src/Gc/Dead.antt =====
-- What a candidate that no arm drops is: dead, by the manifest that the pass holds.
use baerly_storage.Common.{
  ℕ, ◌<◌, ◌≡◌, refl, ap, ◌∙◌, Text, text_eq, text_eq_sound, text_eq_refl, Bool, true, false, ◌&&◌,
  not, leb, Option, none, some, arith, Bool-cases, Option-cases, inl, inr, ◌⊎◌, ◌≢◌, ltb→lt,
}
use baerly_storage.CurrentJson.{log_seq_start_of}
use baerly_storage.CurrentJson.Bodies.{CurrentJson}
use baerly_storage.GcPending.{GcReason, stale_log, orphan_snapshot, orphan_content, GcCandidate}
use baerly_storage.Gc.{
  parse_seq_from_canonical_log_key, parse_max_seq_from_canonical_snapshot_key, generation_or_none,
  kept, arm_of, is_text, is_orphan_snapshot, obsolete,
}

-- What the manifest proves dead. A snapshot ends below the start of the live range of a fresh manifest
-- that does not name it; a slot of the log lies below the start.
abbrev pub Dead : Text → CurrentJson → Option CurrentJson → GcCandidate → Type 0
Dead prefix fence fresh c =
    ((c.reason ≡ orphan_snapshot)
      × ((f : CurrentJson) × (fresh ≡ some f)
          × (f.snapshot ≢ some c.key)
          × ((max_seq : ℕ) × (parse_max_seq_from_canonical_snapshot_key c.key prefix ≡ some max_seq)
              × (max_seq < log_seq_start_of f))))
    ⊎ ((c.reason ≡ stale_log)
        × ((seq : ℕ) × (parse_seq_from_canonical_log_key c.key prefix ≡ some seq)
            × (seq < log_seq_start_of fence)))

pub record Swept (due : GcCandidate → Bool) (prefix : Text) (fence : CurrentJson)
    (fresh : Option CurrentJson) (c : GcCandidate) : Type 0 where
  pub is_due : due c ≡ true
  pub same_generation : generation_or_none c.generation ≡ generation_or_none fence.generation
  pub dead : Dead prefix fence fresh c

pub not_named : (o : Option Text) (key : Text) → is_text o key ≡ false → o ≢ some key
not_named none key h e = cc (e)
not_named (some t) key h e =
    let same : t ≡ key = cc (e) in
    let true_too : text_eq key t ≡ true = ap (text_eq key) same ∙ text_eq_refl key in
    cc (h, true_too)

-- A snapshot that no arm drops and that the sweep takes for obsolete.
kept_snapshot :
    (prefix : Text) (fence : CurrentJson) (fresh : Option CurrentJson) (c : GcCandidate)
    → c.reason ≡ orphan_snapshot
    → arm_of prefix fence fresh c ≡ kept
    → obsolete prefix fresh c ≡ true
    → (generation_or_none c.generation ≡ generation_or_none fence.generation)
      × Dead prefix fence fresh c
unfolding arm_of log_seq_start_of
kept_snapshot prefix fence fresh c r h old =
    elim (Option-cases (parse_max_seq_from_canonical_snapshot_key c.key prefix)) [
      | inl e ↦ cc (rw (r, e, arm_of) at h)
      | inr (max_seq, e) ↦
          elim (Bool-cases
            (text_eq (generation_or_none c.generation) (generation_or_none fence.generation))) [
              | inr g ↦ cc (rw (r, e, g, arm_of) at h)
              | inl g ↦ elim (Option-cases fresh) [
                | inl n ↦ absurd (omega (arith, ltb→lt max_seq 0 (rw (e, n, obsolete) at old)))
                | inr (f, n) ↦ elim (Bool-cases (is_text f.snapshot c.key)) [
                  | inl t ↦ cc (rw (r, e, g, n, t, arm_of) at h)
                  | inr t ↦ (
                    text_eq_sound _ _ g,
                    inl (
                      r,
                      (
                        f,
                        n,
                        not_named f.snapshot c.key t,
                        (max_seq, e, ltb→lt max_seq f.log_seq_start (rw (e, n, obsolete) at old)),
                      ),
                    ),
                  )
                ]
              ]
            ]
    ]

kept_log :
    (prefix : Text) (fence : CurrentJson) (fresh : Option CurrentJson) (c : GcCandidate)
    → c.reason ≡ stale_log
    → arm_of prefix fence fresh c ≡ kept
    → (generation_or_none c.generation ≡ generation_or_none fence.generation)
      × Dead prefix fence fresh c
unfolding arm_of
kept_log prefix fence fresh c r h =
    elim (Option-cases (parse_seq_from_canonical_log_key c.key prefix)) [
      | inl e ↦ cc (rw (r, e, arm_of) at h)
      | inr (seq, e) ↦
          elim (Bool-cases
            (text_eq (generation_or_none c.generation) (generation_or_none fence.generation))) [
              | inr g ↦ cc (rw (r, e, g, arm_of) at h)
              | inl g ↦ elim (Bool-cases (leb (log_seq_start_of fence) seq)) [
                | inl t ↦ cc (rw (r, e, g, t, arm_of) at h)
                | inr t ↦ (text_eq_sound _ _ g, inr (r, (seq, e, ground (arith, t))))
              ]
            ]
    ]

negated : (b : Bool) → not b ≡ false → b ≡ true
negated true h = refl
negated false h = cc (h)

pub kept-Swept :
    (due : GcCandidate → Bool) (prefix : Text) (fence : CurrentJson) (fresh : Option CurrentJson)
    (c : GcCandidate)
    → due c ≡ true
    → arm_of prefix fence fresh c ≡ kept
    → (is_orphan_snapshot c.reason && not (obsolete prefix fresh c)) ≡ false
    → Swept due prefix fence fresh c
unfolding arm_of
kept-Swept due prefix fence fresh c d h old = by_reason c.reason refl
  where
    by_reason : (r : GcReason) → c.reason ≡ r → Swept due prefix fence fresh c
    by_reason orphan_content e = cc (rw (e, arm_of) at h)
    by_reason stale_log e =
        let (g, dead) = kept_log prefix fence fresh c e h in
        record { is_due = d; same_generation = g; dead = dead }
    by_reason orphan_snapshot e =
        let (g, dead) =
          kept_snapshot prefix fence fresh c e h
            (negated (obsolete prefix fresh c) (rw e at old)) in
        record { is_due = d; same_generation = g; dead = dead }
