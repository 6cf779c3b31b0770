-- ===== src/Log/Retention/Deletes.antt =====
-- The deletes of a retirement pass: its slots are gone, and every other key is kept.
use baerly_storage.Common.{
  ℕ, zero, suc, ◌+◌, ◌≤◌, ◌<◌, ◌==◌, ◌≡◌, ◌≢◌, refl, ap, sym, ◌∙◌, Text, text_eq, text_eq_refl,
  text_eq_sound, false, none, inl, inr, arith, Bool-cases,
}
use baerly_storage.Errors.{ok, >>=-eq-ok, ok-inj}
use baerly_storage.Storage.{MemoryStorage, at, delete}
use baerly_storage.Storage.Laws.{delete-ok}
use baerly_storage.CurrentJson.Bodies.{Body}
use baerly_storage.Log.{log_object_key}
use baerly_storage.Log.Keys.{log_object_key-injective}
use baerly_storage.Log.Retention.{delete_slots}

-- The key is none of the slots `[start, end)`.
pub Outside : Text → ℕ → ℕ → Text → Type 0
Outside prefix start end k = (n : ℕ) → start ≤ n → n < end → k ≢ log_object_key prefix n

ne-text_eq : (j k : Text) → k ≢ j → text_eq j k ≡ false
ne-text_eq j k h = elim (Bool-cases (text_eq j k)) [
  | inl e ↦ absurd (h (sym (text_eq_sound j k e)))
  | inr e ↦ e
]

pub delete_slots-kept :
    (s s' : MemoryStorage Body) (prefix : Text) (start count : ℕ) (k : Text)
    → delete_slots s prefix start count ≡ ok s'
    → Outside prefix start (start + count) k
    → at s' k ≡ at s k
unfolding delete_slots Outside
delete_slots-kept s s' p start zero k h out = ap (λ t. at t k) (sym (ok-inj h))
delete_slots-kept s s' p start (suc count) k h out =
    let (t, d, r) = >>=-eq-ok (delete s (log_object_key p start)) _ h in
    delete_slots-kept t s' p (start + 1) count k r (λ n a b. out n (omega arith) (omega arith))
    ∙ (delete-ok s t (log_object_key p start) k d).0
    ∙ rw (ne-text_eq (log_object_key p start) k (out start (omega arith) (omega arith))) refl

pub delete_slots-removed :
    (s s' : MemoryStorage Body) (prefix : Text) (start count n : ℕ)
    → delete_slots s prefix start count ≡ ok s'
    → start ≤ n
    → n < start + count
    → at s' (log_object_key prefix n) ≡ none
unfolding delete_slots Outside
delete_slots-removed s s' p start zero n h a b = absurd (omega arith)
delete_slots-removed s s' p start (suc count) n h a b =
    let (t, d, r) = >>=-eq-ok (delete s (log_object_key p start)) _ h in
    elim (Bool-cases (n == start)) [
      | inl e ↦
          let same : start ≡ n = ground arith in
          delete_slots-kept t s' p (start + 1) count (log_object_key p n) r
            (λ m c f eq. omega (arith, log_object_key-injective p n m eq))
          ∙ (delete-ok s t (log_object_key p start) (log_object_key p n) d).0
          ∙ rw (same, text_eq_refl) refl
      | inr e ↦ delete_slots-removed t s' p (start + 1) count n r (ground arith) (omega arith)
    ]
