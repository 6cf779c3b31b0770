-- ===== src/Log/Retention/Safe.antt =====
-- A retirement pass deletes only slots that folds left behind, under a floor that is published first.
use baerly_storage.Common.{
  ℕ, ◌+◌, ◌-◌, ◌≤◌, ◌<◌, ◌==◌, ◌≡◌, ◌≢◌, refl, ap, sym, ◌∙◌, Text, false, leb, not, Option, none,
  some, List, min, max, ◌⊎◌, inl, inr, arith, Bool-cases,
}
use mathlib.Core.Path.{subst}
use baerly_storage.Errors.{Result, ok, internal, write_conflict, >>=-eq-ok, >>-eq-ok, ok-inj}
use baerly_storage.Storage.{MemoryStorage, at, Op, run}
use baerly_storage.Storage.Etags.{IsFresh, IsFresh-run}
use baerly_storage.CurrentJson.Bodies.{CurrentJson, Body}
use baerly_storage.CurrentJson.{
  certified_delete_floor, log_seq_start_of, log_delete_floor_of, read_current_json, or_missing,
  decode_current, cas_update_current_json,
}
use baerly_storage.CurrentJson.Updates.{
  ReadFrom, Updated, read_current_json-ok, or_missing-ok, cas_update_current_json-ok,
  cas_update_current_json-others,
}
use baerly_storage.Log.{log_object_key, collection_prefix}
use baerly_storage.Log.Retention.{
  RetirableRange, compute_retirable_range, raise_floor, delete_slots, retire_range, gate,
  retire_log_range,
}
use baerly_storage.Log.Retention.Deletes.{Outside, delete_slots-kept, delete_slots-removed}

-- What a pass that deletes does: `s` is the store of the update's read, `published` the one its write
-- leaves, `before` and `next` the manifests.
pub record Retired (s : MemoryStorage Body) (between before_deletes : List (Op Body)) (key : Text)
    (window max_deletes : ℕ) (s' : MemoryStorage Body) (deleted : ℕ) : Type 0 where
  pub before : CurrentJson
  pub next : CurrentJson
  pub start : ℕ
  pub published : MemoryStorage Body
  pub before_etag : ℕ
  pub etag : ℕ
  pub read : ReadFrom s key before before_etag
  pub from_floor : start ≡ certified_delete_floor before
  pub some_slot : 0 < deleted
  pub budgeted : deleted ≤ max_deletes
  pub windowed : start + deleted + window ≤ before.log_seq_start
  pub floor : log_delete_floor_of next ≡ start + deleted
  pub announced : read_current_json published key ≡ ok (some (next, etag))
  pub published_alone : (k : Text) → key ≢ k → at published k ≡ at (run between s) k
  pub removed :
      (n : ℕ)
      → start ≤ n
      → n < start + deleted
      → at s' (log_object_key (collection_prefix key) n) ≡ none
  pub kept :
      (k : Text)
      → Outside (collection_prefix key) start (start + deleted) k
      → at s' k ≡ at (run before_deletes published) k

capped_bounds :
    (c l w m : ℕ)
    → c < max c (min (min (l - w) l) (c + m))
    → (max c (min (min (l - w) l) (c + m)) ≤ c + m) × (max c (min (min (l - w) l) (c + m)) + w ≤ l)
capped_bounds c l w m h = (omega arith, omega arith)

range_bounds :
    (current : CurrentJson) (window max_deletes : ℕ)
    → (compute_retirable_range current window max_deletes).start
      < (compute_retirable_range current window max_deletes).end
    → ((compute_retirable_range current window max_deletes).end
        ≤ certified_delete_floor current + max_deletes)
      × ((compute_retirable_range current window max_deletes).end + window ≤ current.log_seq_start)
unfolding compute_retirable_range log_seq_start_of
range_bounds current window max_deletes h =
    capped_bounds (certified_delete_floor current) current.log_seq_start window max_deletes h

leb-false : (a b : ℕ) → leb a b ≡ false → b < a
leb-false a b h = ground arith

some-inj {ℓ} : {A : Type ℓ} {a b : A} → some a ≡ some b → a ≡ b
some-inj h = cc

range_start :
    (current : CurrentJson) (window max_deletes : ℕ)
    → (compute_retirable_range current window max_deletes).start ≡ certified_delete_floor current
unfolding compute_retirable_range
range_start current window max_deletes = refl

raise_floor-ok :
    (window max_deletes : ℕ) (current next : CurrentJson)
    → raise_floor window max_deletes current ≡ ok next
    → ((compute_retirable_range current window max_deletes).start
        < (compute_retirable_range current window max_deletes).end)
      × (log_delete_floor_of next ≡ (compute_retirable_range current window max_deletes).end)
unfolding raise_floor log_delete_floor_of
raise_floor-ok window max_deletes current next h =
    let range : RetirableRange = compute_retirable_range current window max_deletes in
    let (a, b) =
      >>-eq-ok (leb range.end range.start) write_conflict
        (ok (record current { log_delete_floor = some range.end })) h in
    (
      leb-false range.end range.start a,
      ap (λ c. log_delete_floor_of c)
          (sym (ok-inj {a = record current { log_delete_floor = some range.end }} b)),
    )

ReadFrom-unique :
    (s : MemoryStorage Body) (key : Text) (c d : CurrentJson) (m n : ℕ)
    → ReadFrom s key c m
    → ReadFrom s key d n
    → c ≡ d
ReadFrom-unique s key c d m n r q =
    let same : r.object ≡ q.object = some-inj (sym r.held ∙ q.held) in
    ok-inj (sym r.decoded ∙ ap (λ o. decode_current o.body) same ∙ q.decoded)

Updated-Retired :
    (s s1 s' : MemoryStorage Body) (between before_deletes : List (Op Body)) (key : Text)
    (window max_deletes : ℕ) (current json : CurrentJson) (e etag : ℕ)
    → ReadFrom s key current e
    → Updated s between key (raise_floor window max_deletes) s1 json etag
    → delete_slots
        (run before_deletes s1)
        (collection_prefix key)
        (compute_retirable_range current window max_deletes).start
        ((compute_retirable_range current window max_deletes).end
          - (compute_retirable_range current window max_deletes).start)
      ≡ ok s'
    → ((k : Text) → key ≢ k → at s1 k ≡ at (run between s) k)
    → Retired s between before_deletes key window max_deletes s' (
        (compute_retirable_range current window max_deletes).end
        - (compute_retirable_range current window max_deletes).start)
Updated-Retired s s1 s' between before_deletes key window max_deletes current json e etag read up
      del alone =
    let start : ℕ = (compute_retirable_range current window max_deletes).start in
    let end : ℕ = (compute_retirable_range current window max_deletes).end in
    let same : up.before ≡ current =
      ReadFrom-unique s key up.before current up.before_etag e up.read read in
    let (wide, floor) =
      raise_floor-ok window max_deletes current json
        (ap (raise_floor window max_deletes) (sym same) ∙ up.mutated) in
    let (budget, far) = range_bounds current window max_deletes wide in
    let total : start + (end - start) ≡ end = omega (arith, wide) in
    record {
      before = current;
      next = json;
      start = start;
      published = s1;
      before_etag = e;
      etag = etag;
      read = read;
      from_floor = range_start current window max_deletes;
      some_slot = omega (arith, wide);
      budgeted = omega (arith, wide, budget, range_start current window max_deletes);
      windowed = omega (arith, wide, far);
      floor = floor ∙ sym total;
      announced = up.reread;
      published_alone = alone;
      removed = λ n.
          delete_slots-removed (run before_deletes s1) s' (collection_prefix key) start
            (end - start) n del;
      kept = λ k.
          delete_slots-kept (run before_deletes s1) s' (collection_prefix key) start (end - start) k
            del;
    }

retire_range-ok :
    (s s' : MemoryStorage Body) (between before_deletes : List (Op Body)) (key : Text)
    (window max_deletes deleted : ℕ)
    → IsFresh s
    → retire_range s between before_deletes key window max_deletes ≡ ok (s', deleted)
    → Retired s between before_deletes key window max_deletes s' deleted
unfolding retire_range
retire_range-ok s s' between before_deletes key window max_deletes deleted fresh h =
    let (r, h1, t1) = >>=-eq-ok (read_current_json s key) _ h in
    let ((current, e), h2, t2) = >>=-eq-ok (or_missing r) _ t1 in
    let ((s1, json, etag), h3, t3) =
      >>=-eq-ok (cas_update_current_json s between key (raise_floor window max_deletes)) _ t2 in
    let (_, t4) =
      >>-eq-ok
        (not (log_delete_floor_of json == (compute_retirable_range current window max_deletes).end))
        internal _ t3 in
    let (s2, h5, t5) =
      >>=-eq-ok (delete_slots (run before_deletes s1) (collection_prefix key) _ _) _ t4 in
    let same : ◌≡◌ {A = MemoryStorage Body × ℕ} (s2, _) (s', deleted) = ok-inj t5 in
    subst
      (λ (q : MemoryStorage Body × ℕ).
        Retired s between before_deletes key window max_deletes q.0 q.1)
      same
      (Updated-Retired s s1 s2 between before_deletes key window max_deletes current json e etag
        (read_current_json-ok s key current e (h1 ∙ ap ok (or_missing-ok r (current, e) h2)))
        (cas_update_current_json-ok s s1 between key (raise_floor window max_deletes) json etag
          fresh h3)
        h5
        (λ k apart.
          cas_update_current_json-others s s1 between key k (raise_floor window max_deletes) json
            etag h3 apart))

nothing :
    (s s' : MemoryStorage Body) (deleted : ℕ)
    → ◌≡◌ {A = Result (MemoryStorage Body × ℕ)} (ok (s, 0)) (ok (s', deleted))
    → (s' ≡ s) × (deleted ≡ 0)
nothing s s' deleted e =
    let p : ◌≡◌ {A = MemoryStorage Body × ℕ} (s, 0) (s', deleted) = ok-inj e in
    (sym (ap (λ q. q.0) p), sym (ap (λ q. q.1) p))

gate-ok :
    (s s' : MemoryStorage Body) (window max_deletes deleted : ℕ)
    (pass : Result (MemoryStorage Body × ℕ)) (r : Option (CurrentJson × ℕ))
    → gate s window max_deletes pass r ≡ ok (s', deleted)
    → ((s' ≡ s) × (deleted ≡ 0)) ⊎ (pass ≡ ok (s', deleted))
unfolding gate
gate-ok s s' window max_deletes deleted pass none h = inl (nothing s s' deleted h)
gate-ok s s' window max_deletes deleted pass (some (json, etag)) h =
    let range : RetirableRange = compute_retirable_range json window max_deletes in
    elim (Bool-cases (leb range.end range.start)) [
      | inl e ↦ inl (nothing s s' deleted (rw (e, gate) at h))
      | inr e ↦ inr (rw (e, gate) at h)
    ]

-- In a store without an ETag ahead of its counter:
-- A pass that ends without an error either changes nothing and reports nothing, or it read a manifest
-- and published one whose delete floor is the end of the range, in a store where every other key, the
-- slots of the range too, is still as other clients left it. The range begins at the certified floor
-- and is at least the window below the start of the live range, and it is no longer than the budget.
-- Every slot of the range is then empty, and every other key is as the calls of other clients behind
-- the published manifest left it.
pub retire_log_range-ok :
    (s s' : MemoryStorage Body) (after_gate between before_deletes : List (Op Body)) (key : Text)
    (window max_deletes deleted : ℕ)
    → IsFresh s
    → retire_log_range s after_gate between before_deletes key window max_deletes ≡ ok (s', deleted)
    → ((s' ≡ s) × (deleted ≡ 0))
      ⊎ Retired (run after_gate s) between before_deletes key window max_deletes s' deleted
unfolding retire_log_range
retire_log_range-ok s s' after_gate between before_deletes key window max_deletes deleted fresh h =
    let (r, h1, t1) = >>=-eq-ok (read_current_json s key) _ h in
    elim (gate-ok s s' window max_deletes deleted _ r t1) [
      | inl e ↦ inl e
      | inr e ↦ inr (
          retire_range-ok (run after_gate s) s' between before_deletes key window max_deletes
            deleted (IsFresh-run after_gate s fresh) e)
    ]
