-- ===== src/Gc/Elsewhere.antt =====
-- The steps of a pass that write the ledger, and the calls of other clients to other keys, leave a key
-- as it was.
use baerly_storage.Common.{
  ℕ, zero, suc, ◌≡◌, ◌≢◌, refl, ap, sym, ◌∙◌, Text, true, false, Option, none, some, List, [], ◌∷◌,
  All, Bool-cases, inl, inr,
}
use baerly_storage.Errors.{Result, ok, err, Result-cases, >>=-eq-ok, is_write_conflict, ok-inj}
use baerly_storage.Storage.{MemoryStorage, at, put, Op, put_op, delete_op, apply_op, run}
use baerly_storage.Storage.Laws.{Change, same, written, removed, apply_op-Change, at-put-other}
use baerly_storage.CurrentJson.Bodies.{Body, pending_json}
use baerly_storage.GcPending.{
  GcCandidate, GcPending, Between, read_gc_pending, create_gc_pending, assert_gc_pending,
  encode_pending, settled, cas_attempts,
}
use baerly_storage.Writer.Attempt.{After}
use baerly_storage.Gc.Run.{GcCourse, reread_pending, created_pending, ensure_pending, report}

-- The call is to another key.
abbrev pub Elsewhere : Text → Op Body → Type 0
Elsewhere j (put_op k b create_only if_match) = k ≢ j
Elsewhere j (delete_op k) = k ≢ j

apply_op-Elsewhere :
    (j : Text) (op : Op Body) (s : MemoryStorage Body)
    → Elsewhere j op
    → at (apply_op op s) j ≡ at s j
apply_op-Elsewhere j op s away = step op away (apply_op-Change op s j)
  where
    step :
        (p : Op Body) → Elsewhere j p → Change s j p (apply_op op s) → at (apply_op op s) j ≡ at s j
    step p a (same q) = q
    step (put_op k c create_only if_match) a (written d _ _ q _ _ _) = absurd (a (cc (q)))
    step (delete_op k) a (written d _ _ q _ _ _) = cc
    step (put_op k c create_only if_match) a (removed q _) = cc
    step (delete_op k) a (removed q _) = absurd (a (cc (q)))

pub run-Elsewhere :
    (j : Text) (ops : List (Op Body)) (s : MemoryStorage Body)
    → All (Elsewhere j) ops
    → at (run ops s) j ≡ at s j
unfolding run
run-Elsewhere j [] s a = refl
run-Elsewhere j (op ∷ ops) s a =
    run-Elsewhere j ops (apply_op op s) a.1 ∙ apply_op-Elsewhere j op s a.0

module _ (j key : Text) (apart : key ≢ j) where
  settled-at :
      (s : MemoryStorage Body) (retry : After (GcPending × ℕ)) (next : GcPending) (b : Body)
      (etag : Option ℕ)
      → at retry.0 j ≡ at s j
      → at (settled s retry next (put s key b false etag)).0 j ≡ at s j
  unfolding settled
  settled-at s retry next b etag h = elim (Result-cases (put s key b false etag)) [
    | inl ((s', e), p) ↦ rw (p, settled) (at-put-other s s' key j b false etag e p apart)
    | inr (code, p) ↦ elim (Bool-cases (is_write_conflict code)) [
      | inl c ↦ rw (p, c, settled) h
      | inr c ↦ rw (p, c, settled) refl
    ]
  ]

  pub cas_attempts-at :
      (left : ℕ) (between : ℕ → Between) (s : MemoryStorage Body) (mutator : GcPending → GcPending)
      → ((n : ℕ) → All (Elsewhere j) (between n).before_read)
      → ((n : ℕ) → All (Elsewhere j) (between n).before_write)
      → at (cas_attempts left between s key mutator).0 j ≡ at s j
  unfolding cas_attempts
  cas_attempts-at zero between s mutator reads writes = refl
  cas_attempts-at (suc left) between s mutator reads writes =
      let t = run (between left).before_read s in
      let u = run (between left).before_write t in
      let first : at t j ≡ at s j = run-Elsewhere j (between left).before_read s (reads left) in
      let second : at u j ≡ at t j = run-Elsewhere j (between left).before_write t (writes left) in
      elim (Result-cases (read_gc_pending t key)) [
        | inr (code, e) ↦ rw (e, cas_attempts) first
        | inl (none, e) ↦ rw (e, cas_attempts) first
        | inl (some (json, etag), e) ↦
            elim (Result-cases (assert_gc_pending (encode_pending (mutator json)))) [
              | inr (code, f) ↦ rw (e, f, cas_attempts) first
              | inl (checked, f) ↦
                  rw (e, f, cas_attempts)
                    (settled-at u (cas_attempts left between u key mutator) (mutator json) _
                        (some etag) (cas_attempts-at left between u mutator reads writes)
                      ∙ second
                      ∙ first)
            ]
      ]

  reread_pending-at :
      (s : MemoryStorage Body) (r : Result (Option (GcPending × ℕ)))
      → at (reread_pending s r).0 j ≡ at s j
  unfolding reread_pending
  reread_pending-at s (err code) = refl
  reread_pending-at s (ok none) = refl
  reread_pending-at s (ok (some (json, etag))) = refl

  create_gc_pending-at :
      (s s' : MemoryStorage Body) (initial json : GcPending) (etag : ℕ)
      → create_gc_pending s key initial ≡ ok (s', json, etag)
      → at s' j ≡ at s j
  unfolding create_gc_pending
  create_gc_pending-at s s' initial json etag h =
      let (checked, h1, t1) = >>=-eq-ok (assert_gc_pending (encode_pending initial)) _ h in
      let ((t, e), h2, t2) =
        >>=-eq-ok (put s key (pending_json (encode_pending initial)) true none) _ t1 in
      ap (λ (x : MemoryStorage Body × GcPending × ℕ). at x.0 j) (sym (ok-inj t2))
      ∙ at-put-other s t key j (pending_json (encode_pending initial)) true none e h2 apart

  created_pending-at :
      (s : MemoryStorage Body) (before_reread : List (Op Body)) (initial : GcPending)
      → All (Elsewhere j) before_reread
      → at (created_pending s before_reread key (create_gc_pending s key initial)).0 j ≡ at s j
  unfolding created_pending
  created_pending-at s before_reread initial away =
      elim (Result-cases (create_gc_pending s key initial)) [
        | inl ((s', json, etag), e) ↦
            rw (e, created_pending) (create_gc_pending-at s s' initial json etag e)
        | inr (code, e) ↦ elim (Bool-cases (is_write_conflict code)) [
          | inl f ↦
              rw (e, f, created_pending)
                (reread_pending-at (run before_reread s) (read_gc_pending (run before_reread s) key)
                  ∙ run-Elsewhere j before_reread s away)
          | inr f ↦ rw (e, f, created_pending) refl
        ]
      ]

  pub ensure_pending-at :
      (s : MemoryStorage Body) (c : GcCourse) (r : Result (Option (GcPending × ℕ)))
      → All (Elsewhere j) c.before_create
      → All (Elsewhere j) c.before_reread
      → at (ensure_pending s c key r).0 j ≡ at s j
  unfolding ensure_pending
  ensure_pending-at s c (err code) create reread = refl
  ensure_pending-at s c (ok (some (json, etag))) create reread = refl
  ensure_pending-at s c (ok none) create reread =
      created_pending-at (run c.before_create s) c.before_reread _ reread
      ∙ run-Elsewhere j c.before_create s create

pub report-at :
    (j : Text) (marks to_sweep remaining : List GcCandidate) (stale still_live : ℕ)
    (a : After (GcPending × ℕ))
    → at (report marks to_sweep remaining stale still_live a).0 j ≡ at a.0 j
unfolding report
report-at j marks to_sweep remaining stale still_live (s, ok (json, etag)) = refl
report-at j marks to_sweep remaining stale still_live (s, err code) = refl

-- What other clients do is to other keys.
pub record AllElsewhere (j : Text) (c : GcCourse) : Type 0 where
  pub pending : All (Elsewhere j) c.before_pending
  pub create : All (Elsewhere j) c.before_create
  pub reread : All (Elsewhere j) c.before_reread
  pub listing : All (Elsewhere j) c.before_list
  pub fresh : All (Elsewhere j) c.before_fresh
  pub delete : All (Elsewhere j) c.before_delete
  pub reads : (n : ℕ) → All (Elsewhere j) (c.between n).before_read
  pub writes : (n : ℕ) → All (Elsewhere j) (c.between n).before_write
