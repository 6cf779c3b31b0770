-- ===== src/Gc/Safe.antt =====
-- What a pass sweeps is dead.
use baerly_storage.Common.{
  ℕ, ◌+◌, ◌≤◌, ◌<◌, ◌≡◌, refl, ap, sym, ◌∙◌, Text, text_eq, text_eq_refl, Bool, true, false, ◌&&◌,
  not, Option, some, List, [], ◌∷◌, All, arith, length, Bool-cases, inl, inr, In, here, there, ◌⊎◌,
  ltb→lt, ◌-◌,
}
use baerly_storage.CurrentJson.Bodies.{CurrentJson}
use baerly_storage.Compactor.{below}
use baerly_storage.GcPending.{GcCandidate, holds_key}
use baerly_storage.Gc.{
  Arm, evicted, stale_generation, rescued, kept, arm_of, is_kept, is_orphan_snapshot, dropped_keys,
  Verdict, skip, wait, sweep, obsolete, verdict, split_candidates,
}
use baerly_storage.Gc.Dead.{Swept, kept-Swept}

is_kept-kept : (a : Arm) → is_kept a ≡ true → a ≡ kept
is_kept-kept evicted h = cc
is_kept-kept stale_generation h = cc
is_kept-kept rescued h = cc
is_kept-kept kept h = refl

-- What is not dropped was kept.
undropped :
    (arm : GcCandidate → Arm) (c : GcCandidate) (cs : List GcCandidate)
    → In c cs
    → holds_key c.key (dropped_keys arm cs) ≡ false
    → arm c ≡ kept
unfolding dropped_keys holds_key
undropped arm c [] i h = elim i [ ]
undropped arm c (d ∷ cs) (here e) h = elim (Bool-cases (is_kept (arm d))) [
  | inl k ↦ ap arm e ∙ is_kept-kept (arm d) k
  | inr k ↦
      let found : holds_key c.key (d.key ∷ dropped_keys arm cs) ≡ false =
        (rw (k, dropped_keys) at h) in
      let named : text_eq d.key c.key ≡ true =
        ap (λ x. text_eq x.key c.key) (sym e) ∙ text_eq_refl c.key in
      absurd (ground (arith, found, named))
]
undropped arm c (d ∷ cs) (there i) h = elim (Bool-cases (is_kept (arm d))) [
  | inl k ↦ undropped arm c cs i (rw (k, dropped_keys) at h)
  | inr k ↦
      let found : holds_key c.key (d.key ∷ dropped_keys arm cs) ≡ false =
        (rw (k, dropped_keys) at h) in
      undropped arm c cs i (ground (arith, found))
]

-- A candidate whose verdict is to sweep.
verdict_sweep :
    (prefix : Text) (fresh : Option CurrentJson) (dropped : List Text) (max_sweeps : Option ℕ)
    (due : Bool) (taken : ℕ) (c : GcCandidate)
    → verdict prefix fresh dropped max_sweeps due taken c ≡ sweep
    → (holds_key c.key dropped ≡ false)
      × (below taken max_sweeps ≡ true)
      × (due ≡ true)
      × ((is_orphan_snapshot c.reason && not (obsolete prefix fresh c)) ≡ false)
unfolding verdict
verdict_sweep prefix fresh dropped max_sweeps due taken c h =
    elim (Bool-cases (holds_key c.key dropped)) [
      | inl e ↦ cc (rw (e, verdict) at h)
      | inr e ↦ elim (Bool-cases (below taken max_sweeps)) [
        | inr f ↦ cc (rw (e, f, verdict) at h)
        | inl f ↦ elim (Bool-cases due) [
          | inr g ↦ cc (rw (e, f, g, verdict) at h)
          | inl g ↦
              elim (Bool-cases (is_orphan_snapshot c.reason && not (obsolete prefix fresh c))) [
                | inl k ↦ cc (rw (e, f, g, k, verdict) at h)
                | inr k ↦ (e, f, g, k)
              ]
        ]
      ]
    ]

Verdict-cases : (v : Verdict) → (v ≡ sweep) ⊎ ((v ≡ wait) ⊎ (v ≡ skip))
Verdict-cases sweep = inl refl
Verdict-cases wait = inr (inl refl)
Verdict-cases skip = inr (inr refl)

module _ (due : GcCandidate → Bool) (prefix : Text) (fence : CurrentJson)
    (fresh : Option CurrentJson) (max_sweeps : Option ℕ) where
  split-Swept :
      (dropped : List Text) (taken : ℕ) (cs : List GcCandidate)
      → ((c : GcCandidate)
          → In c cs
          → holds_key c.key dropped ≡ false
          → arm_of prefix fence fresh c ≡ kept)
      → All
          (Swept due prefix fence fresh)
          (split_candidates due prefix fresh dropped max_sweeps taken cs).0
  unfolding split_candidates
  split-Swept dropped taken [] h = tt
  split-Swept dropped taken (c ∷ cs) h =
      elim (Verdict-cases (verdict prefix fresh dropped max_sweeps (due c) taken c)) [
        | inl e ↦
            let (undropped_key, room, is_due, old) =
              verdict_sweep prefix fresh dropped max_sweeps (due c) taken c e in
            rw (e, split_candidates)
              (
                kept-Swept due prefix fence fresh c is_due (h c (here refl) undropped_key) old,
                split-Swept dropped (taken + 1) cs (λ d i. h d (there i)),
              )
        | inr (inl e) ↦
            rw (e, split_candidates) (split-Swept dropped taken cs (λ d i. h d (there i)))
        | inr (inr e) ↦
            rw (e, split_candidates) (split-Swept dropped taken cs (λ d i. h d (there i)))
      ]

  -- Every candidate that a pass sweeps is due, was marked under the generation of the manifest that
  -- the pass holds, and is dead: a snapshot that the freshly read manifest does not name and that
  -- ends below the start of its live range, or a slot of the log below the start of the live range.
  pub split_candidates-Swept :
      (cs : List GcCandidate)
      → All
          (Swept due prefix fence fresh)
          (split_candidates due prefix fresh
            (dropped_keys (arm_of prefix fence fresh) cs)
            max_sweeps
            0
            cs).0
  split_candidates-Swept cs =
      split-Swept (dropped_keys (arm_of prefix fence fresh) cs) 0 cs
        (λ c i h. undropped (arm_of prefix fence fresh) c cs i h)

module _ (P : GcCandidate → Type 0) (due : GcCandidate → Bool) (prefix : Text)
    (fresh : Option CurrentJson) (dropped : List Text) (max_sweeps : Option ℕ) where
  -- What is swept is among the candidates.
  pub split_candidates-All :
      (taken : ℕ) (cs : List GcCandidate)
      → All P cs
      → All P (split_candidates due prefix fresh dropped max_sweeps taken cs).0
  unfolding split_candidates
  split_candidates-All taken [] h = tt
  split_candidates-All taken (c ∷ cs) h =
      elim (Verdict-cases (verdict prefix fresh dropped max_sweeps (due c) taken c)) [
        | inl e ↦ rw (e, split_candidates) (h.0, split_candidates-All (taken + 1) cs h.1)
        | inr (inl e) ↦ rw (e, split_candidates) (split_candidates-All taken cs h.1)
        | inr (inr e) ↦ rw (e, split_candidates) (split_candidates-All taken cs h.1)
      ]

-- A pass sweeps no more candidates than its budget leaves room for.
pub length-split_candidates :
    (due : GcCandidate → Bool) (prefix : Text) (fresh : Option CurrentJson) (dropped : List Text)
    (max_sweeps taken : ℕ) (cs : List GcCandidate)
    → length (split_candidates due prefix fresh dropped (some max_sweeps) taken cs).0
      ≤ max_sweeps - taken
unfolding split_candidates
length-split_candidates due prefix fresh dropped max_sweeps taken [] = omega arith
length-split_candidates due prefix fresh dropped max_sweeps taken (c ∷ cs) =
    elim (Verdict-cases (verdict prefix fresh dropped (some max_sweeps) (due c) taken c)) [
      | inl e ↦
          let (_, room, _, _) =
            verdict_sweep prefix fresh dropped (some max_sweeps) (due c) taken c e in
          let rest = length-split_candidates due prefix fresh dropped max_sweeps (taken + 1) cs in
          let more : taken < max_sweeps = ltb→lt taken max_sweeps room in
          rw (e, split_candidates) (omega (arith, rest, more))
      | inr (inl e) ↦
          rw (e, split_candidates)
            (length-split_candidates due prefix fresh dropped max_sweeps taken cs)
      | inr (inr e) ↦
          rw (e, split_candidates)
            (length-split_candidates due prefix fresh dropped max_sweeps taken cs)
    ]
