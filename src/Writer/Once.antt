-- ===== src/Writer/Once.antt =====
-- A commit lands at most once: no fault of the network and no writer racing it gives its session two
-- slots, and the slot that the commit reports holds its entry.
use baerly_storage.Common.{
  ℕ, ◌+◌, ◌≤◌, ◌<◌, ◌≡◌, refl, Text, some, List, [], ◌∷◌, All, length, ◌⊎◌, inl, inr, arith,
}
use baerly_storage.Errors.{Result, ok, err, ambiguous_commit}
use baerly_storage.Storage.{MemoryStorage}
use baerly_storage.CurrentJson.Bodies.{Body, LogEntry}
use baerly_storage.Log.Keys.{IsPrefix}
use baerly_storage.Log.Tail.{log_forward_probe_cap}
use baerly_storage.Writer.{Round, RoundEnd, done, again, stuck, commit_round, commit_loop}
use baerly_storage.Writer.Slots.{Unwritten, WrittenAt}
use baerly_storage.Writer.Rounds.{PeersOnly, RoundOk, commit_round-RoundOk}

RoundEnd-cases :
    (end : RoundEnd)
    → ((s : MemoryStorage Body) × (result : Result (ℕ × LogEntry)) × (end ≡ done s result))
      ⊎ (((s : MemoryStorage Body) × (t : ℕ) × (end ≡ again s t)) ⊎ (end ≡ stuck))
RoundEnd-cases (done s result) = inl (s, result, refl)
RoundEnd-cases (again s t) = inr (inl (s, t, refl))
RoundEnd-cases stuck = inr (inr refl)

module _ (prefix session : Text) where
  -- The end of a commit.
  abbrev pub Committed : (ℕ → LogEntry) → MemoryStorage Body → Result (ℕ × LogEntry) → Type 0
  Committed mint s (ok (seq, e)) = (e ≡ mint seq) × WrittenAt prefix session seq (mint seq) s
  Committed mint s (err c) =
      Unwritten prefix session s
      ⊎ ((c ≡ ambiguous_commit) × ((seq : ℕ) × WrittenAt prefix session seq (mint seq) s))

module _ (prefix session : Text) (valid : IsPrefix prefix) where
  round-Committed :
      (mint : ℕ → LogEntry) (seq probes : ℕ) (s : MemoryStorage Body)
      (result : Result (ℕ × LogEntry))
      → RoundOk prefix session valid seq probes (mint seq) (done s result)
      → Committed prefix session mint s result
  round-Committed mint seq probes s (ok (q, e)) h = rw h.0 (h.1, h.2)
  round-Committed mint seq probes s (err c) (inl u) = inl u
  round-Committed mint seq probes s (err c) (inr h) = inr (h.0, (seq, h.1))

  -- Where the prefix has no `.` or `..` between its slashes:
  -- With rounds for as many probes as the cap allows, a commit whose entries all carry its session,
  -- in a log without an entry of this session, ends, whatever each send meets and whatever other
  -- clients do that neither write entries of the session nor delete or overwrite slots. If it reports
  -- a slot, that slot holds the entry minted for it and no other slot holds one of the session. If it
  -- throws, no slot does, or the error is the one of an ambiguous commit and exactly one slot does,
  -- with the entry minted for it.
  pub commit_loop-Committed :
      (mint : ℕ → LogEntry) (rounds : List Round) (s : MemoryStorage Body) (seq probes : ℕ)
      → ((n : ℕ) → (mint n).session ≡ session)
      → All (PeersOnly prefix session) rounds
      → Unwritten prefix session s
      → log_forward_probe_cap < probes + length rounds
      → probes ≤ log_forward_probe_cap
      → (s' : MemoryStorage Body) × (result : Result (ℕ × LogEntry)) × (commit_loop mint prefix
            rounds s seq probes
          ≡ some (s', result))
        × Committed prefix session mint s' result
  unfolding commit_loop
  commit_loop-Committed mint [] s seq probes own peers u enough few = absurd (omega arith)
  commit_loop-Committed mint (r ∷ rounds) s seq probes own peers u enough few =
      let ended =
        commit_round-RoundOk prefix session valid r s seq probes (mint seq) (own seq) peers.0 u in
      elim (RoundEnd-cases (commit_round r s prefix (mint seq) seq probes)) [
        | inl (s', result, e) ↦
            rw (e, commit_loop)
              (s', result, refl, round-Committed mint seq probes s' result (rw e at ended))
        | inr (inl (s', t, e)) ↦
            let next : RoundOk prefix session valid seq probes (mint seq) (again s' t) =
              (rw e at ended) in
            rw (e, commit_loop)
              (commit_loop-Committed mint rounds s' t (probes + 1) own peers.1 next.0 (omega arith)
                next.1)
        | inr (inr e) ↦ absurd (rw e at ended)
      ]
