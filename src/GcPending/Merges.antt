-- ===== src/GcPending/Merges.antt =====
-- What a merge leaves in the ledger.
use baerly_storage.Common.{
  ℕ, zero, suc, ◌≤◌, ◌≡◌, refl, ap, ◌∙◌, Text, text_eq, text_eq_iff, text_eq_refl, text_lt,
  text_lt_irrefl, text_lt_trans, true, false, ◌||◌, List, [], ◌∷◌, ◌++◌, arith, length, Bool-cases,
  inl, inr, All, All-append,
}
use baerly_storage.GcPending.{
  GcCandidate, GcPending, holds_key, keys_of, without, appended, first_candidates, merge_gc_pending,
}

-- Each key stands once.
abbrev pub KeysDiffer : List GcCandidate → Type 0
KeysDiffer [] = Unit
KeysDiffer (c ∷ cs) = (holds_key c.key (keys_of cs) ≡ false) × KeysDiffer cs

length-first_candidates : (n : ℕ) (cs : List GcCandidate) → length (first_candidates n cs) ≤ n
unfolding first_candidates
length-first_candidates zero cs = omega arith
length-first_candidates (suc n) [] = omega arith
length-first_candidates (suc n) (c ∷ cs) = omega (arith, length-first_candidates n cs)

module _ (P : GcCandidate → Type 0) where
  All-first_candidates : (n : ℕ) (cs : List GcCandidate) → All P cs → All P (first_candidates n cs)
  unfolding first_candidates
  All-first_candidates zero cs h = tt
  All-first_candidates (suc n) [] h = tt
  All-first_candidates (suc n) (c ∷ cs) h = (h.0, All-first_candidates n cs h.1)

abbrev pub Unswept : List Text → GcCandidate → Type 0
Unswept swept c = holds_key c.key swept ≡ false

without-Unswept :
    (swept : List Text) (cs : List GcCandidate) → All (Unswept swept) (without swept cs)
unfolding without
without-Unswept swept [] = tt
without-Unswept swept (c ∷ cs) = elim (Bool-cases (holds_key c.key swept)) [
  | inl e ↦ rw (e, without) (without-Unswept swept cs)
  | inr e ↦ rw (e, without) (e, without-Unswept swept cs)
]

appended-Unswept :
    (swept present : List Text) (cs : List GcCandidate)
    → All (Unswept swept) (appended swept present cs)
unfolding appended
appended-Unswept swept present [] = tt
appended-Unswept swept present (c ∷ cs) = elim (Bool-cases (holds_key c.key swept)) [
  | inl e ↦ rw (e, appended) (appended-Unswept swept present cs)
  | inr e ↦ elim (Bool-cases (holds_key c.key present)) [
    | inl f ↦ rw (e, f, appended) (appended-Unswept swept present cs)
    | inr f ↦ rw (e, f, appended) (e, appended-Unswept swept (c.key ∷ present) cs)
  ]
]

holds_key-without :
    (k : Text) (swept : List Text) (cs : List GcCandidate)
    → holds_key k (keys_of cs) ≡ false
    → holds_key k (keys_of (without swept cs)) ≡ false
unfolding without holds_key
holds_key-without k swept [] h = refl
holds_key-without k swept (c ∷ cs) h = elim (Bool-cases (holds_key c.key swept)) [
  | inl e ↦ rw (e, without) (holds_key-without k swept cs (ground (arith, h)))
  | inr e ↦ rw (e, without) (ground (arith, h, holds_key-without k swept cs))
]

without-KeysDiffer :
    (swept : List Text) (cs : List GcCandidate) → KeysDiffer cs → KeysDiffer (without swept cs)
unfolding without
without-KeysDiffer swept [] d = tt
without-KeysDiffer swept (c ∷ cs) d = elim (Bool-cases (holds_key c.key swept)) [
  | inl e ↦ rw (e, without) (without-KeysDiffer swept cs d.1)
  | inr e ↦ rw (e, without) (holds_key-without c.key swept cs d.0, without-KeysDiffer swept cs d.1)
]

-- What is appended is not present before.
holds_key-appended :
    (k : Text) (swept present : List Text) (cs : List GcCandidate)
    → holds_key k present ≡ true
    → holds_key k (keys_of (appended swept present cs)) ≡ false
unfolding appended holds_key
holds_key-appended k swept present [] h = refl
holds_key-appended k swept present (c ∷ cs) h = elim (Bool-cases (holds_key c.key swept)) [
  | inl e ↦ rw (e, appended) (holds_key-appended k swept present cs h)
  | inr e ↦ elim (Bool-cases (holds_key c.key present)) [
    | inl f ↦ rw (e, f, appended) (holds_key-appended k swept present cs h)
    | inr f ↦
        rw (e, f, appended)
          (let other : text_eq c.key k ≡ false = elim (Bool-cases (text_eq c.key k)) [
            | inr g ↦ g
            | inl g ↦
                absurd
                  (ground (arith, ap (λ x. holds_key x present) ((text_eq_iff c.key k).0 g), f, h))
          ] in
            rw other (holds_key-appended k swept (c.key ∷ present) cs (ground (arith, h))))
  ]
]

appended-KeysDiffer :
    (swept present : List Text) (cs : List GcCandidate) → KeysDiffer (appended swept present cs)
unfolding appended
appended-KeysDiffer swept present [] = tt
appended-KeysDiffer swept present (c ∷ cs) = elim (Bool-cases (holds_key c.key swept)) [
  | inl e ↦ rw (e, appended) (appended-KeysDiffer swept present cs)
  | inr e ↦ elim (Bool-cases (holds_key c.key present)) [
    | inl f ↦ rw (e, f, appended) (appended-KeysDiffer swept present cs)
    | inr f ↦
        rw (e, f, appended)
          (
            holds_key-appended c.key swept (c.key ∷ present) cs
                (ground (arith, text_eq_refl c.key)),
            appended-KeysDiffer swept (c.key ∷ present) cs,
          )
  ]
]

holds_key-append :
    (k : Text) (a b : List GcCandidate)
    → holds_key k (keys_of (a ++ b)) ≡ (holds_key k (keys_of a) || holds_key k (keys_of b))
unfolding holds_key
holds_key-append k [] b = refl
holds_key-append k (c ∷ a) b = ground (arith, holds_key-append k a b)

-- No key of the first list stands in the second one.
abbrev Apart : List GcCandidate → List GcCandidate → Type 0
Apart a b = All (λ (c : GcCandidate). holds_key c.key (keys_of b) ≡ false) a

append-KeysDiffer :
    (a b : List GcCandidate) → KeysDiffer a → KeysDiffer b → Apart a b → KeysDiffer (a ++ b)
append-KeysDiffer [] b d e apart = e
append-KeysDiffer (c ∷ a) b d e apart =
    (holds_key-append c.key a b ∙ ground (arith, d.0, apart.0), append-KeysDiffer a b d.1 e apart.1)

holds_key-first_candidates :
    (k : Text) (n : ℕ) (cs : List GcCandidate)
    → holds_key k (keys_of cs) ≡ false
    → holds_key k (keys_of (first_candidates n cs)) ≡ false
unfolding first_candidates holds_key
holds_key-first_candidates k zero cs h = refl
holds_key-first_candidates k (suc n) [] h = refl
holds_key-first_candidates k (suc n) (c ∷ cs) h =
    ground (arith, h, holds_key-first_candidates k n cs)

first_candidates-KeysDiffer :
    (n : ℕ) (cs : List GcCandidate) → KeysDiffer cs → KeysDiffer (first_candidates n cs)
unfolding first_candidates
first_candidates-KeysDiffer zero cs d = tt
first_candidates-KeysDiffer (suc n) [] d = tt
first_candidates-KeysDiffer (suc n) (c ∷ cs) d =
    (holds_key-first_candidates c.key n cs d.0, first_candidates-KeysDiffer n cs d.1)

-- The keys that are present are those of a list: nothing with such a key is appended.
appended-Apart :
    (swept : List Text) (a rest cs : List GcCandidate)
    → ((k : Text) → holds_key k (keys_of a) ≡ true → holds_key k (keys_of rest) ≡ true)
    → Apart a (appended swept (keys_of rest) cs)
unfolding holds_key
appended-Apart swept [] rest cs h = tt
appended-Apart swept (c ∷ a) rest cs h = (
  holds_key-appended c.key swept (keys_of rest) cs (h c.key (ground (arith, text_eq_refl c.key))),
  appended-Apart swept a rest cs (λ k e. h k (ground (arith, e))),
)

-- The ledger after a merge.
pub record Merged (latest : GcPending) (swept : List Text) (max_candidates : ℕ) (merged : GcPending)
    : Type 0 where
  pub few : length merged.candidates ≤ max_candidates
  pub unswept : All (Unswept swept) merged.candidates
  pub differ : KeysDiffer merged.candidates
  pub later : text_lt merged.last_swept_at latest.last_swept_at ≡ false

-- Merging a pass into a ledger whose keys differ leaves a ledger whose keys differ, with at most as
-- many candidates as the cap, none of them resolved by the pass, and with a sweep date that is no
-- earlier.
pub merge_gc_pending-Merged :
    (latest : GcPending) (swept : List Text) (new_candidates : List GcCandidate)
    (last_swept_at : Text) (max_candidates : ℕ)
    → KeysDiffer latest.candidates
    → Merged latest swept max_candidates
        (merge_gc_pending latest swept new_candidates last_swept_at max_candidates)
unfolding merge_gc_pending
merge_gc_pending-Merged latest swept new_candidates last_swept_at max_candidates d =
    let surviving = without swept latest.candidates in
    let added = appended swept (keys_of surviving) new_candidates in
    record {
      few = length-first_candidates max_candidates (surviving ++ added);
      unswept = All-first_candidates (Unswept swept) max_candidates (surviving ++ added) (
          All-append (Unswept swept) surviving added (without-Unswept swept latest.candidates)
            (appended-Unswept swept (keys_of surviving) new_candidates));
      differ = first_candidates-KeysDiffer max_candidates (surviving ++ added) (
          append-KeysDiffer surviving added (without-KeysDiffer swept latest.candidates d)
            (appended-KeysDiffer swept (keys_of surviving) new_candidates)
            (appended-Apart swept surviving surviving new_candidates (λ k h. h)));
      later = elim (Bool-cases (text_lt latest.last_swept_at last_swept_at)) [
        | inr e ↦ rw e (text_lt_irrefl latest.last_swept_at)
        | inl e ↦ rw e (no_earlier e)
      ];
    }
  where
    no_earlier :
        text_lt latest.last_swept_at last_swept_at ≡ true
        → text_lt last_swept_at latest.last_swept_at ≡ false
    no_earlier e = elim (Bool-cases (text_lt last_swept_at latest.last_swept_at)) [
      | inr f ↦ f
      | inl f ↦
          let round = text_lt_trans latest.last_swept_at last_swept_at latest.last_swept_at e f in
          cc (round, text_lt_irrefl latest.last_swept_at)
    ]
