-- ===== src/Storage/Etags.antt =====
-- A conditional write is atomic against every other client: ETags are never used twice.
use baerly_storage.Common.{
  ℕ, ◌≤◌, ◌<◌, ◌≡◌, refl, ap, sym, ◌∙◌, ◌⊎◌, inl, inr, Text, Bool, true, false, Option, none, some,
  List, [], ◌∷◌, ◌++◌, All, arith, ◌≢◌,
}
use baerly_storage.Errors.{ok, err, write_conflict}
use baerly_storage.Storage.{
  StoredObject, MemoryStorage, at, put, Op, put_op, delete_op, apply_op, run, check_create,
  assert_valid_storage_key,
}
use baerly_storage.Storage.Laws.{
  put-ok, put-valid, at-put, check_match-ok, check_create-ok, Change, same, written, removed,
  apply_op-Change, counter-apply_op,
}

module _ {B : Type 0} where
  -- No object has an ETag that the counter has not reached.
  pub record IsFresh (s : MemoryStorage B) : Type 0 where
    pub bounded : (k : Text) (o : StoredObject B) → at s k ≡ some o → o.etag ≤ s.etag_counter

  -- What a key may hold after calls of others, if it held `o` when the counter stood at `n`: the
  -- same object, one with a later ETag, or nothing.
  abbrev pub Since : ℕ → StoredObject B → Option (StoredObject B) → Type 0
  Since n o none = Unit
  Since n o (some p) = (p ≡ o) ⊎ (n < p.etag)

  pub apply_op-Since :
      (n : ℕ) (o : StoredObject B) (op : Op B) (s : MemoryStorage B) (k : Text)
      → n ≤ s.etag_counter
      → Since n o (at s k)
      → Since n o (at (apply_op op s) k)
  apply_op-Since n o op s k h since = step (apply_op-Change op s k)
    where
      step : Change s k op (apply_op op s) → Since n o (at (apply_op op s) k)
      step (same e) = rw e since
      step (written b c m _ e counter _) = rw e (inr (omega arith))
      step (removed _ e) = rw e tt

  pub run-Since :
      (n : ℕ) (o : StoredObject B) (ops : List (Op B)) (s : MemoryStorage B) (k : Text)
      → n ≤ s.etag_counter
      → Since n o (at s k)
      → Since n o (at (run ops s) k)
  unfolding run
  run-Since n o [] s k h since = since
  run-Since n o (op ∷ ops) s k h since =
      run-Since n o ops (apply_op op s) k (omega (arith, counter-apply_op op s))
        (apply_op-Since n o op s k h since)

  pub run-append : (a b : List (Op B)) (s : MemoryStorage B) → run (a ++ b) s ≡ run b (run a s)
  unfolding run
  run-append [] b s = refl
  run-append (op ∷ a) b s = run-append a b (apply_op op s)

  -- A write that was accepted is one of the calls of a run.
  pub run-put :
      (s s' : MemoryStorage B) (k : Text) (b : B) (c : Bool) (m : Option ℕ) (etag : ℕ)
      (ops : List (Op B))
      → put s k b c m ≡ ok (s', etag)
      → run (put_op k b c m ∷ ops) s ≡ run ops s'
  unfolding run apply_op
  run-put s s' k b c m etag ops h = rw h refl

  -- In a store without an ETag ahead of its counter:
  -- A write that names the ETag of an object read earlier is accepted, whatever other clients did
  -- since, only if the key still holds that very object.
  pub put-if_match :
      (s s' : MemoryStorage B) (ops : List (Op B)) (k : Text) (o : StoredObject B) (b : B)
      (etag : ℕ)
      → IsFresh s
      → at s k ≡ some o
      → put (run ops s) k b false (some o.etag) ≡ ok (s', etag)
      → at (run ops s) k ≡ some o
  put-if_match s s' ops k o b etag fresh read h =
      let f = put-ok (run ops s) s' k b false (some o.etag) etag h in
      let (p, held, named) = check_match-ok o.etag (at (run ops s) k) f.3 in
      finish p held named
        (rw held at (run-Since s.etag_counter o ops s k (omega arith) (rw read (inl refl))))
    where
      finish :
          (p : StoredObject B)
          → at (run ops s) k ≡ some p
          → p.etag ≡ o.etag
          → (p ≡ o) ⊎ (s.etag_counter < p.etag)
          → at (run ops s) k ≡ some o
      finish p held named (inl e) = held ∙ ap some e
      finish p held named (inr late) = absurd (omega (arith, fresh.bounded k o read))

  pub IsFresh-apply_op : (op : Op B) (s : MemoryStorage B) → IsFresh s → IsFresh (apply_op op s)
  IsFresh-apply_op op s fresh = record { bounded = λ k o e. bound k o e (apply_op-Change op s k) }
    where
      bound :
          (k : Text) (o : StoredObject B)
          → at (apply_op op s) k ≡ some o
          → Change s k op (apply_op op s)
          → o.etag ≤ (apply_op op s).etag_counter
      bound k o e (same p) = omega (arith, fresh.bounded k o (sym p ∙ e), counter-apply_op op s)
      bound k o e (written b c m _ p counter _) = ground (arith, sym p ∙ e)
      bound k o e (removed _ p) = cc

  pub IsFresh-run : (ops : List (Op B)) (s : MemoryStorage B) → IsFresh s → IsFresh (run ops s)
  unfolding run
  IsFresh-run [] s fresh = fresh
  IsFresh-run (op ∷ ops) s fresh = IsFresh-run ops (apply_op op s) (IsFresh-apply_op op s fresh)

  -- The call neither removes the key nor writes over what it holds.
  abbrev pub LeavesCreated : Text → Op B → Type 0
  LeavesCreated k (put_op j b create_only if_match) = (j ≡ k → create_only ≡ true)
  LeavesCreated k (delete_op j) = j ≢ k

  apply_op-created :
      (op : Op B) (s : MemoryStorage B) (k : Text) (o : StoredObject B)
      → LeavesCreated k op
      → at s k ≡ some o
      → at (apply_op op s) k ≡ some o
  apply_op-created op s k o leaves e = step op leaves (apply_op-Change op s k)
    where
      step :
          (p : Op B)
          → LeavesCreated k p
          → Change s k p (apply_op op s)
          → at (apply_op op s) k ≡ some o
      step p l (same q) = q ∙ e
      step (put_op j b create_only if_match) l (written b' c m q _ _ check) =
          let same_key : j ≡ k = cc (q) in
          let create : c ≡ true = cc (l same_key, q) in
          let empty : at s k ≡ none = check_create-ok (at s k) (rw (← create) check) in
          cc (empty, e)
      step (delete_op j) l (written b' c m q _ _ check) = cc
      step (put_op j b create_only if_match) l (removed q _) = cc
      step (delete_op j) l (removed q _) = absurd (l (cc (q)))

  -- An object that was created stays as it is under any calls of other clients that neither delete
  -- its key nor write it without the create-only precondition.
  pub run-created :
      (ops : List (Op B)) (s : MemoryStorage B) (k : Text) (o : StoredObject B)
      → All (LeavesCreated k) ops
      → at s k ≡ some o
      → at (run ops s) k ≡ some o
  unfolding run
  run-created [] s k o l e = e
  run-created (op ∷ ops) s k o l e =
      run-created ops (apply_op op s) k o l.1 (apply_op-created op s k o l.0 e)

  pub put-taken :
      (s : MemoryStorage B) (k : Text) (o : StoredObject B) (b : B)
      → assert_valid_storage_key k ≡ ok tt
      → at s k ≡ some o
      → put s k b true none ≡ err write_conflict
  unfolding put check_create
  put-taken s k o b v e = rw (v, e)

  -- Of two creates of one key the later one is refused, and what the earlier one wrote is still
  -- there, whatever other clients did between them that neither deletes the key nor overwrites it.
  pub create-exclusive :
      (s s' : MemoryStorage B) (ops : List (Op B)) (k : Text) (b c : B) (etag : ℕ)
      → put s k b true none ≡ ok (s', etag)
      → All (LeavesCreated k) ops
      → (put (run ops s') k c true none ≡ err write_conflict)
        × (at (run ops s') k ≡ some (record { body = b; etag = etag }))
  create-exclusive s s' ops k b c etag won leaves =
      let held : at (run ops s') k ≡ some (record { body = b; etag = etag }) =
        run-created ops s' k (record { body = b; etag = etag }) leaves
          (at-put s s' k b true none etag won) in
      (
        put-taken (run ops s') k (record { body = b; etag = etag }) c
            (put-valid s s' k b true none etag won) held,
        held,
      )
