-- ===== src/Writer/Attempt/Acknowledged.antt =====
-- What an attempt to commit leaves in the log, and where an acknowledged write stands.
use baerly_storage.Common.{
  ℕ, ◌≤◌, ◌<◌, ◌≡◌, refl, sym, ◌∙◌, Text, Bool, true, false, leb, ◌||◌, Option, none, some, All,
  length, ◌⊎◌, inl, inr, arith, Bool-cases,
}
use mathlib.Core.Path.{subst}
use baerly_storage.Errors.{Result, ok, err, ◌>>=◌, ambiguous_commit, Result-cases}
use baerly_storage.Storage.{MemoryStorage, run}
use baerly_storage.CurrentJson.Bodies.{Body, CurrentJson, LogEntry}
use baerly_storage.CurrentJson.{read_current_json, certified_delete_floor}
use baerly_storage.Log.Keys.{IsPrefix}
use baerly_storage.Log.Tail.{find_log_tail, log_forward_probe_cap}
use baerly_storage.Log.Tail.Found.{find_log_tail-Searched}
use baerly_storage.Writer.Slots.{IsPeer, Unwritten, WrittenAt, run-Unwritten, run-WrittenAt}
use baerly_storage.Writer.Rounds.{PeersOnly}
use baerly_storage.Writer.Once.{Committed, commit_loop-Committed}
use baerly_storage.Writer.Attempt.{
  After, above_floor, assert_commit_above_delete_floor, Course, checked, create_at, commit_from,
  single_attempt_commit,
}
use baerly_storage.Writer.Attempt.Kept.{read_or_provision-Unwritten, cleaned-either}

floor_le : (floor seq : ℕ) → (leb floor 0 || leb floor seq) ≡ true → floor ≤ seq
floor_le floor seq h = ground arith

module _ (prefix session : Text) where
  -- Every call of the course is of other clients, and the rounds suffice for the cap on probes.
  pub record IsCourse (c : Course) : Type 0 where
    pub provision : All (IsPeer prefix session) c.before_provision
    pub recovery : All (IsPeer prefix session) c.before_recovery
    pub tail : All (IsPeer prefix session) c.before_tail
    pub peers : All (PeersOnly prefix session) c.rounds
    pub check : All (IsPeer prefix session) c.before_check
    pub enough : log_forward_probe_cap < length c.rounds

  -- The slot of an acknowledged write is not below the floor of the manifest.
  abbrev pub AboveFloor : Course → Text → MemoryStorage Body → Result (ℕ × LogEntry) → Type 0
  AboveFloor c key s (err code) = Unit
  AboveFloor c key s (ok (seq, e)) =
      c.check_fails ≡ false
      → (json : CurrentJson) (etag : ℕ) → read_current_json s key ≡ ok (some (json, etag))
      → certified_delete_floor json ≤ seq

  -- What the check leaves of a written slot.
  abbrev Checked : Course → Text → LogEntry → ℕ → After Unit → Type 0
  Checked c key self seq (s, ok t) =
      WrittenAt prefix session seq self s × AboveFloor c key s (ok (seq, self))
  Checked c key self seq (s, err code) =
      (Unwritten prefix session s ⊎ WrittenAt prefix session seq self s) × (code ≡ ambiguous_commit)

  above_floor-Checked :
      (c : Course) (fails : Bool) (s : MemoryStorage Body) (key : Text) (seq : ℕ) (self : LogEntry)
      → IsPrefix prefix
      → WrittenAt prefix session seq self s
      → Checked c key self seq (above_floor fails s prefix seq (read_current_json s key))
  unfolding above_floor
  above_floor-Checked c fails s key seq self valid w =
      elim (Result-cases (read_current_json s key)) [
        | inr (code, e) ↦ rw e (w, λ on json etag r. cc (e, r))
        | inl (none, e) ↦ rw e (w, λ on json etag r. cc (e, r))
        | inl (some (json, etag), e) ↦ rw (e, above_floor) (by_floor json etag e)
      ]
    where
      by_floor :
          (json : CurrentJson) (etag : ℕ)
          → read_current_json s key ≡ ok (some (json, etag))
          → Checked c key self seq (above_floor fails s prefix seq (ok (some (json, etag))))
      by_floor json etag e =
          elim (Bool-cases
            (leb (certified_delete_floor json) 0 || leb (certified_delete_floor json) seq)) [
              | inl t ↦
                  rw (t, above_floor)
                    (
                      w,
                      λ on j m r.
                          let q : ◌≡◌ {A = CurrentJson} json j = cc (sym e ∙ r) in
                          subst (λ x. certified_delete_floor x ≤ seq) q
                            (floor_le (certified_delete_floor json) seq t),
                    )
              | inr t ↦
                  rw (t, above_floor) (cleaned-either prefix session fails s seq self valid w, refl)
            ]

  assert-Checked :
      (c : Course) (skip fails : Bool) (s : MemoryStorage Body) (key : Text) (seq : ℕ)
      (self : LogEntry)
      → IsPrefix prefix
      → c.check_fails ≡ skip
      → WrittenAt prefix session seq self s
      → Checked c key self seq (assert_commit_above_delete_floor skip fails s key prefix seq)
  unfolding assert_commit_above_delete_floor
  assert-Checked c true fails s key seq self valid f w = (w, λ on. cc)
  assert-Checked c false fails s key seq self valid f w =
      above_floor-Checked c fails s key seq self valid w

  -- The end of an attempt.
  abbrev pub Attempted : (ℕ → LogEntry) → Course → Text → Option (After (ℕ × LogEntry)) → Type 0
  Attempted mint c key attempt =
      (s : MemoryStorage Body) × (result : Result (ℕ × LogEntry)) × (attempt ≡ some (s, result))
      × Committed prefix session mint s result
      × AboveFloor c key s result

  Checked-Attempted :
      (mint : ℕ → LogEntry) (c : Course) (key : Text) (seq : ℕ) (after : After Unit)
      → Checked c key (mint seq) seq after
      → Attempted mint c key (some (after.0, after.1 >>= λ t. ok (seq, mint seq)))
  Checked-Attempted mint c key seq (s, ok t) h = (s, ok (seq, mint seq), refl, (refl, h.0), h.1)
  Checked-Attempted mint c key seq (s, err code) h =
      (s, err code, refl, elim h.0 [ inl u ↦ inl u | inr w ↦ inr (h.1, (seq, w)) ], tt)

  checked-Attempted :
      (mint : ℕ → LogEntry) (c : Course) (key : Text) (s : MemoryStorage Body)
      (result : Result (ℕ × LogEntry))
      → IsPrefix prefix
      → IsCourse c
      → Committed prefix session mint s result
      → Attempted mint c key (checked c key prefix (some (s, result)))
  unfolding checked
  checked-Attempted mint c key s (err code) valid course h = (s, err code, refl, h, tt)
  checked-Attempted mint c key s (ok (seq, e)) valid course h = rw h.0 (
      Checked-Attempted mint c key seq
        (assert_commit_above_delete_floor c.check_fails c.delete_fails (run c.before_check s) key
          prefix seq)
        (assert-Checked c c.check_fails c.delete_fails (run c.before_check s) key seq (mint seq)
          valid refl
          (run-WrittenAt prefix session c.before_check s seq (mint seq) course.check h.1)))

  create_at-Attempted :
      (mint : ℕ → LogEntry) (c : Course) (s : MemoryStorage Body) (key : Text) (hint : ℕ)
      → IsPrefix prefix
      → ((n : ℕ) → (mint n).session ≡ session)
      → IsCourse c
      → Unwritten prefix session s
      → Attempted mint c key (create_at mint c s key prefix (find_log_tail s prefix hint))
  unfolding create_at
  create_at-Attempted mint c s key hint valid own course u =
      elim (find_log_tail-Searched s prefix hint valid) [
        | inl (t, e, found) ↦
            let (s', result, loop, ended) =
              commit_loop-Committed prefix session valid mint c.rounds s t 0 own course.peers u
                (omega (arith, course.enough)) (omega arith) in
            rw (e, loop) (checked-Attempted mint c key s' result valid course ended)
        | inr (n, e, far, o) ↦ rw e (s, err _, refl, inl u, tt)
      ]

  commit_from-Attempted :
      (mint : ℕ → LogEntry) (c : Course) (key : Text) (read : After (CurrentJson × ℕ))
      → IsPrefix prefix
      → ((n : ℕ) → (mint n).session ≡ session)
      → IsCourse c
      → Unwritten prefix session read.0
      → Attempted mint c key (commit_from mint c key prefix read)
  unfolding commit_from
  commit_from-Attempted mint c key (s, err code) valid own course u = (s, err code, refl, inl u, tt)
  commit_from-Attempted mint c key (s, ok (current, etag)) valid own course u =
      create_at-Attempted mint c (run c.before_tail s) key _ valid own course
        (run-Unwritten prefix session c.before_tail s course.tail u)

  -- Where the prefix has no `.` or `..` between its slashes, all minted entries carry the session and
  -- there are rounds for as many probes as the cap allows:
  -- An attempt to commit, with other clients that neither write entries of its session nor delete or
  -- overwrite slots, in a log without an entry of its session, ends. If it acknowledges a slot, that
  -- slot holds the minted entry, no other slot holds one of the session, and, unless the last check
  -- could not read it, the slot is not below the certified delete floor of the manifest that the store
  -- then holds. If it throws, no slot holds an entry of the session, or the error is the one of an
  -- ambiguous commit and exactly one slot does.
  pub single_attempt_commit-Attempted :
      (mint : ℕ → LogEntry) (c : Course) (s : MemoryStorage Body) (key generation : Text)
      → IsPrefix prefix
      → ((n : ℕ) → (mint n).session ≡ session)
      → IsCourse c
      → Unwritten prefix session s
      → Attempted mint c key (single_attempt_commit mint c s key prefix generation)
  unfolding single_attempt_commit
  single_attempt_commit-Attempted mint c s key generation valid own course u =
      commit_from-Attempted mint c key _ valid own course (
        read_or_provision-Unwritten prefix session (run c.before_provision s) c.before_recovery key
          generation (read_current_json s key) course.recovery
          (run-Unwritten prefix session c.before_provision s course.provision u))
