-- ===== src/Gc/Deletes.antt =====
-- What the deletes of a pass leave in the store.
use baerly_storage.Common.{
  ℕ, ◌≡◌, refl, sym, ◌∙◌, Text, text_eq, text_eq_sound, text_eq_refl, Bool, Option, none, List, [],
  ◌∷◌, All, Bool-cases, ◌⊎◌, inl, inr,
}
use mathlib.Core.Path.{subst}
use baerly_storage.Writer.Attempt.{After}
use baerly_storage.Errors.{ok, Result-cases}
use baerly_storage.Storage.{MemoryStorage, at, delete}
use baerly_storage.Storage.Laws.{delete-ok}
use baerly_storage.CurrentJson.Bodies.{Body, CurrentJson}
use baerly_storage.GcPending.{GcCandidate}
use baerly_storage.Gc.{arm_of, dropped_keys, split_candidates}
use baerly_storage.Gc.Run.{delete_candidates}
use baerly_storage.Gc.Dead.{Swept}
use baerly_storage.Gc.Safe.{split_candidates-Swept}

-- A key is as it was, or it is the one of a candidate.
pub delete_candidates-others :
    (P : GcCandidate → Type 0) (s : MemoryStorage Body) (cs : List GcCandidate) (j : Text)
    → All P cs
    → (at (delete_candidates s cs).0 j ≡ at s j) ⊎ ((c : GcCandidate) × (c.key ≡ j) × P c)
unfolding delete_candidates
delete_candidates-others P s [] j h = inl refl
delete_candidates-others P s (c ∷ cs) j h = elim (Result-cases (delete s c.key)) [
  | inr (code, e) ↦ rw (e, delete_candidates) (delete_candidates-others P s cs j h.1)
  | inl (s', e) ↦ elim (Bool-cases (text_eq c.key j)) [
    | inl f ↦ inr (c, text_eq_sound c.key j f, h.0)
    | inr f ↦
        let here : at s' j ≡ at s j = (delete-ok s s' c.key j e).0 ∙ rw f refl in
        elim (delete_candidates-others P s' cs j h.1) [
          | inl g ↦ rw (e, delete_candidates) (inl (g ∙ here))
          | inr g ↦ inr g
        ]
  ]
]

-- An empty key stays empty.
delete_candidates_empty :
    (s : MemoryStorage Body) (cs : List GcCandidate) (j : Text)
    → at s j ≡ none
    → at (delete_candidates s cs).0 j ≡ none
unfolding delete_candidates
delete_candidates_empty s [] j h = h
delete_candidates_empty s (c ∷ cs) j h = elim (Result-cases (delete s c.key)) [
  | inr (code, e) ↦ rw (e, delete_candidates) (delete_candidates_empty s cs j h)
  | inl (s', e) ↦
      let left : at s' j ≡ none =
        (delete-ok s s' c.key j e).0
        ∙ elim (Bool-cases (text_eq c.key j)) [ inl f ↦ rw f refl | inr f ↦ rw f h ] in
      rw (e, delete_candidates) (delete_candidates_empty s' cs j left)
]

delete_candidates_gone :
    (s : MemoryStorage Body) (cs : List GcCandidate)
    → (delete_candidates s cs).1 ≡ ok tt
    → All (λ (c : GcCandidate). at (delete_candidates s cs).0 c.key ≡ none) cs
unfolding delete_candidates
delete_candidates_gone s [] h = tt
delete_candidates_gone s (c ∷ cs) h = elim (Result-cases (delete s c.key)) [
  | inr (code, e) ↦ cc (rw (e, delete_candidates) at h)
  | inl (s', e) ↦
      let left : at s' c.key ≡ none =
        (delete-ok s s' c.key c.key e).0 ∙ rw (text_eq_refl c.key) refl in
      let same : delete_candidates s (c ∷ cs) ≡ delete_candidates s' cs =
        rw (e, delete_candidates) refl in
      subst (λ (a : After (Unit {0})). All (λ (d : GcCandidate). at a.0 d.key ≡ none) (c ∷ cs))
        (sym same)
        (
          delete_candidates_empty s' cs c.key left,
          delete_candidates_gone s' cs (rw (e, delete_candidates) at h),
        )
]

-- The store behind the deletes of a pass.
pub record Collected (due : GcCandidate → Bool) (prefix : Text) (fence : CurrentJson)
    (fresh : Option CurrentJson) (to_sweep : List GcCandidate) (s : MemoryStorage Body)
    : Type 0 where
  pub others :
      (j : Text)
      → (at (delete_candidates s to_sweep).0 j ≡ at s j)
        ⊎ ((c : GcCandidate) × (c.key ≡ j) × Swept due prefix fence fresh c)
  pub gone :
      (delete_candidates s to_sweep).1 ≡ ok tt
      → All (λ (c : GcCandidate). at (delete_candidates s to_sweep).0 c.key ≡ none) to_sweep

-- The deletes of a pass, whether or not one of them fails, leave every key as it was but those of
-- candidates that are due, were marked under the generation of the manifest that the pass holds, and
-- are dead: a snapshot that the freshly read manifest does not name and that ends below the start of
-- its live range, or a slot of the log below the start of the live range. If none fails, the keys of
-- all that the pass sweeps are empty.
pub delete_candidates-Collected :
    (due : GcCandidate → Bool) (prefix : Text) (fence : CurrentJson) (fresh : Option CurrentJson)
    (max_sweeps : Option ℕ) (candidates : List GcCandidate) (s : MemoryStorage Body)
    → Collected due prefix fence fresh
        (split_candidates due prefix fresh
          (dropped_keys (arm_of prefix fence fresh) candidates)
          max_sweeps
          0
          candidates).0
        s
delete_candidates-Collected due prefix fence fresh max_sweeps candidates s =
    let to_sweep =
      (split_candidates due prefix fresh (dropped_keys (arm_of prefix fence fresh) candidates)
        max_sweeps 0 candidates).0 in
    record {
      others = λ j.
          delete_candidates-others (Swept due prefix fence fresh) s to_sweep j
            (split_candidates-Swept due prefix fence fresh max_sweeps candidates);
      gone = delete_candidates_gone s to_sweep;
    }
