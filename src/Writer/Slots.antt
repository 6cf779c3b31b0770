-- ===== src/Writer/Slots.antt =====
-- What other clients and one send leave in the slots of a log.
use baerly_storage.Common.{
  ℕ, ◌≡◌, ◌≢◌, refl, ap, sym, ◌∙◌, Text, Bool, true, Option, none, some, List, [], ◌∷◌, All, ◌⊎◌,
  inl, inr,
}
use mathlib.Core.Path.{subst}
use baerly_storage.Errors.{Code, ok, err, write_conflict, Result-cases}
use baerly_storage.Storage.{MemoryStorage, StoredObject, at, put, Op, put_op, apply_op, run}
use baerly_storage.Storage.Laws.{
  Change, same, written, removed, apply_op-Change, put-ok, at-put, at-store,
}
use baerly_storage.Storage.Etags.{LeavesCreated, run-created, put-taken}
use baerly_storage.CurrentJson.Bodies.{Body, entry, LogEntry}
use baerly_storage.Log.{log_object_key}
use baerly_storage.Log.Keys.{IsPrefix, log_object_key-valid, log_object_key-ne}
use baerly_storage.Writer.{
  Send, delivered, resent, ack_lost, dropped, late, throttled, denied, Fate, created, conflict,
  uncertain, refused, answered, arrive, send_create,
}

-- The object, if there is one, is no entry of the session.
abbrev pub Foreign : Text → Option (StoredObject Body) → Type 0
Foreign session o =
    (p : StoredObject Body) (e : LogEntry) → o ≡ some p → p.body ≡ entry e → e.session ≢ session

-- Another client neither writes entries of the session, nor deletes or overwrites slots.
pub record IsPeer (prefix session : Text) (op : Op Body) : Type 0 where
  pub foreign :
      (k : Text) (e : LogEntry) (c : Bool) (m : Option ℕ)
      → op ≡ put_op k (entry e) c m
      → e.session ≢ session
  pub leaves : (n : ℕ) → LeavesCreated (log_object_key prefix n) op

module _ (prefix session : Text) where
  pub apply_op-Foreign :
      (op : Op Body) (s : MemoryStorage Body) (k : Text)
      → IsPeer prefix session op
      → Foreign session (at s k)
      → Foreign session (at (apply_op op s) k)
  apply_op-Foreign op s k peer f p e held body = step (apply_op-Change op s k)
    where
      step : Change s k op (apply_op op s) → e.session ≢ session
      step (same q) = f p e (sym q ∙ held) body
      step (written b c m q held' _ _) =
          peer.foreign k e c m (q ∙ ap (λ x. put_op k x c m) (cc (held, held', body)))
      step (removed _ q) = cc

  run-Foreign :
      (ops : List (Op Body)) (s : MemoryStorage Body) (k : Text)
      → All (IsPeer prefix session) ops
      → Foreign session (at s k)
      → Foreign session (at (run ops s) k)
  unfolding run
  run-Foreign [] s k peers f = f
  run-Foreign (op ∷ ops) s k peers f =
      run-Foreign ops (apply_op op s) k peers.1 (apply_op-Foreign op s k peers.0 f)

  All-leaves :
      (n : ℕ) (ops : List (Op Body))
      → All (IsPeer prefix session) ops
      → All (LeavesCreated (log_object_key prefix n)) ops
  All-leaves n [] h = tt
  All-leaves n (op ∷ ops) h = (h.0.leaves n, All-leaves n ops h.1)

  -- No slot holds an entry of the session.
  abbrev pub Unwritten : MemoryStorage Body → Type 0
  Unwritten s = (n : ℕ) → Foreign session (at s (log_object_key prefix n))

  -- The slot holds the entry, and no other slot holds one of the session.
  pub record WrittenAt (seq : ℕ) (self : LogEntry) (s : MemoryStorage Body) : Type 0 where
    pub object : StoredObject Body
    pub held : at s (log_object_key prefix seq) ≡ some object
    pub body : object.body ≡ entry self
    pub only : (n : ℕ) → n ≢ seq → Foreign session (at s (log_object_key prefix n))

  pub run-Unwritten :
      (ops : List (Op Body)) (s : MemoryStorage Body)
      → All (IsPeer prefix session) ops
      → Unwritten s
      → Unwritten (run ops s)
  run-Unwritten ops s peers u n = run-Foreign ops s (log_object_key prefix n) peers (u n)

  pub run-WrittenAt :
      (ops : List (Op Body)) (s : MemoryStorage Body) (seq : ℕ) (self : LogEntry)
      → All (IsPeer prefix session) ops
      → WrittenAt seq self s
      → WrittenAt seq self (run ops s)
  run-WrittenAt ops s seq self peers w = record {
    object = w.object;
    held = run-created ops s (log_object_key prefix seq) w.object (All-leaves seq ops peers) w.held;
    body = w.body;
    only = λ n ne. run-Foreign ops s (log_object_key prefix n) peers (w.only n ne);
  }

  put-WrittenAt :
      (s s' : MemoryStorage Body) (seq : ℕ) (self : LogEntry) (etag : ℕ)
      → Unwritten s
      → put s (log_object_key prefix seq) (entry self) true none ≡ ok (s', etag)
      → WrittenAt seq self s'
  put-WrittenAt s s' seq self etag u h = record {
    object = record { body = entry self; etag = etag };
    held = at-put s s' (log_object_key prefix seq) (entry self) true none etag h;
    body = refl;
    only = λ n ne.
        subst (Foreign session)
          (sym (
            ap (λ t. at t (log_object_key prefix n))
              (put-ok s s' (log_object_key prefix seq) (entry self) true none etag h).0
            ∙ at-store s (log_object_key prefix seq) (log_object_key prefix n) (entry self)
            ∙ rw (log_object_key-ne prefix seq n (λ q. ne (sym q))) refl))
          (u n);
  }

  -- The create that arrives is stored, or leaves the store as it is because the slot is taken.
  pub arrive-cases :
      (s : MemoryStorage Body) (seq : ℕ) (self : LogEntry)
      → Unwritten s
      → (arrive s (log_object_key prefix seq) self ≡ s)
        ⊎ WrittenAt seq self (arrive s (log_object_key prefix seq) self)
  unfolding arrive apply_op
  arrive-cases s seq self u =
      elim (Result-cases (put s (log_object_key prefix seq) (entry self) true none)) [
        | inl ((s', etag), e) ↦ inr (rw e (put-WrittenAt s s' seq self etag u e))
        | inr (code, e) ↦ inl (rw e refl)
      ]

  pub arrive-taken :
      (s : MemoryStorage Body) (seq : ℕ) (self : LogEntry) (p : StoredObject Body)
      → IsPrefix prefix
      → at s (log_object_key prefix seq) ≡ some p
      → arrive s (log_object_key prefix seq) self ≡ s
  unfolding arrive apply_op
  arrive-taken s seq self p valid held =
      rw
        (put-taken s (log_object_key prefix seq) p (entry self)
          (log_object_key-valid prefix seq valid) held)
        refl

  -- What the end of a send promises.
  abbrev pub Sent : ℕ → LogEntry → MemoryStorage Body × Fate → Type 0
  Sent seq self (s, created) = WrittenAt seq self s
  Sent seq self (s, refused code) = Unwritten s
  Sent seq self (s, conflict) = Unwritten s ⊎ WrittenAt seq self s
  Sent seq self (s, uncertain) = Unwritten s ⊎ WrittenAt seq self s

  answered-Sent :
      (s : MemoryStorage Body) (seq : ℕ) (self : LogEntry) (code : Code)
      → Unwritten s
      → Sent seq self (answered s (err code))
  unfolding answered
  answered-Sent s seq self write_conflict u = inl u
  answered-Sent s seq self _ u = u

  delivered-Sent :
      (s : MemoryStorage Body) (seq : ℕ) (self : LogEntry)
      → Unwritten s
      → Sent seq self (answered s (put s (log_object_key prefix seq) (entry self) true none))
  unfolding answered
  delivered-Sent s seq self u =
      elim (Result-cases (put s (log_object_key prefix seq) (entry self) true none)) [
        | inl ((s', etag), e) ↦ rw e (put-WrittenAt s s' seq self etag u e)
        | inr (code, e) ↦ rw e (answered-Sent s seq self code u)
      ]

  pub unchanged-or :
      (s t : MemoryStorage Body) (seq : ℕ) (self : LogEntry)
      → Unwritten s
      → (t ≡ s) ⊎ WrittenAt seq self t
      → Unwritten t ⊎ WrittenAt seq self t
  unchanged-or s t seq self u (inl e) = inl (subst Unwritten (sym e) u)
  unchanged-or s t seq self u (inr w) = inr w

  pub send_create-Sent :
      (send : Send) (s : MemoryStorage Body) (seq : ℕ) (self : LogEntry)
      → IsPrefix prefix
      → Unwritten s
      → Sent seq self (send_create send s (log_object_key prefix seq) self)
  unfolding send_create answered
  send_create-Sent delivered s seq self v u = delivered-Sent s seq self u
  send_create-Sent resent s seq self v u = elim (arrive-cases s seq self u) [
    | inl e ↦ rw e (delivered-Sent s seq self u)
    | inr w ↦
        rw
          (put-taken (arrive s (log_object_key prefix seq) self) (log_object_key prefix seq)
            w.object (entry self) (log_object_key-valid prefix seq v) w.held)
          (inr w)
  ]
  send_create-Sent ack_lost s seq self v u =
      unchanged-or s (arrive s (log_object_key prefix seq) self) seq self u
        (arrive-cases s seq self u)
  send_create-Sent dropped s seq self v u = inl u
  send_create-Sent late s seq self v u = inl u
  send_create-Sent throttled s seq self v u = u
  send_create-Sent denied s seq self v u = u
