-- ===== src/Writer/Rounds.antt =====
-- What one round of a commit leaves in the slots of the log.
use baerly_storage.Common.{
  ℕ, ◌+◌, ◌≤◌, ◌≡◌, ◌≢◌, refl, ap, sym, ◌∙◌, Text, Bool, true, false, ltb, Option, none, some, List,
  All, ◌⊎◌, inl, inr, arith, Bool-cases,
}
use mathlib.Core.Path.{subst}
use baerly_storage.Errors.{
  Code, Result, ok, err, ◌>>=◌, ambiguous_commit, Result-cases, >>=-eq-ok, ok-inj,
}
use baerly_storage.Storage.{MemoryStorage, StoredObject, at, get, Op, run}
use baerly_storage.CurrentJson.Bodies.{Body, entry, LogEntry}
use baerly_storage.CurrentJson.Updates.{get-ok}
use baerly_storage.Log.{log_object_key}
use baerly_storage.Log.Keys.{IsPrefix}
use baerly_storage.Log.Tail.{find_log_tail, log_forward_probe_cap}
use baerly_storage.Log.Tail.Found.{find_log_tail-Searched}
use baerly_storage.Log.Adoption.{
  AdoptionDecision, adopt, try_adopt_own_session_log_entry, adopts, adopts_self,
}
use baerly_storage.Writer.{
  Send, late, Fate, created, conflict, uncertain, refused, Round, arrive, arrive_late, identified,
  occupant_of, read_log_occupant, RoundEnd, done, again, stuck, next_slot, decide, read_back,
  after_send, commit_round,
}
use baerly_storage.Writer.Slots.{
  IsPeer, Unwritten, WrittenAt, run-Unwritten, run-WrittenAt, arrive-cases, arrive-taken,
  unchanged-or, Sent, send_create-Sent,
}

identified-ok : (b : Body) (e : LogEntry) → identified b ≡ ok e → b ≡ entry e
unfolding identified
identified-ok (entry d) e h = ground arith
identified-ok _ e h = cc

occupant_of-ok :
    (o : Option (StoredObject Body)) (e : LogEntry)
    → occupant_of o ≡ ok e
    → (p : StoredObject Body) × (o ≡ some p) × (p.body ≡ entry e)
unfolding occupant_of
occupant_of-ok none e h = cc
occupant_of-ok (some o) e h = (o, refl, identified-ok o.body e h)

read_log_occupant-ok :
    (fails : Bool) (s : MemoryStorage Body) (key : Text) (e : LogEntry)
    → read_log_occupant fails s key ≡ ok e
    → (p : StoredObject Body) × (at s key ≡ some p) × (p.body ≡ entry e)
unfolding read_log_occupant
read_log_occupant-ok true s key e h = cc
read_log_occupant-ok false s key e h =
    let (o, g, t) = >>=-eq-ok (get s key none) occupant_of h in
    let (p, q, b) = occupant_of-ok o e t in (p, get-ok s key o g ∙ q, b)

-- Every list of calls is of other clients.
abbrev pub PeersOnly : Text → Text → Round → Type 0
PeersOnly prefix session r =
    All (IsPeer prefix session) r.before_create
    × All (IsPeer prefix session) r.before_read
    × All (IsPeer prefix session) r.before_probe

module _ (prefix session : Text) (valid : IsPrefix prefix) where
  -- The end of a round at a slot.
  abbrev pub RoundOk : ℕ → ℕ → LogEntry → RoundEnd → Type 0
  RoundOk seq probes self (done s (ok (q, e))) =
      (q ≡ seq) × (e ≡ self) × WrittenAt prefix session seq self s
  RoundOk seq probes self (done s (err c)) =
      Unwritten prefix session s ⊎ ((c ≡ ambiguous_commit) × WrittenAt prefix session seq self s)
  RoundOk seq probes self (again s t) =
      Unwritten prefix session s × (probes + 1 ≤ log_forward_probe_cap)
  RoundOk seq probes self stuck = ⊥

  next_slot-RoundOk :
      (s : MemoryStorage Body) (seq probes : ℕ) (self : LogEntry)
      → Unwritten prefix session s
      → probes + 1 ≤ log_forward_probe_cap
      → RoundOk seq probes self (next_slot s (find_log_tail s prefix (seq + 1)))
  unfolding next_slot
  next_slot-RoundOk s seq probes self u few =
      elim (find_log_tail-Searched s prefix (seq + 1) valid) [
        | inl (t, e, found) ↦ rw e (u, few)
        | inr (n, e, far, o) ↦ rw e (inl u)
      ]

  decide-again :
      (s : MemoryStorage Body) (seq probes : ℕ) (self : LogEntry) (d : Result AdoptionDecision)
      → ((e : LogEntry) → d ≢ ok (adopt e))
      → Unwritten prefix session s
      → RoundOk seq probes self (decide s prefix seq probes d)
  unfolding decide
  decide-again s seq probes self (err c) never u = inl u
  decide-again s seq probes self (ok (adopt e)) never u = absurd (never e refl)
  decide-again s seq probes self (ok _) never u =
      elim (Bool-cases (ltb log_forward_probe_cap (probes + 1))) [
        | inl t ↦ rw (t, decide) (inl u)
        | inr f ↦ rw (f, decide) (next_slot-RoundOk s seq probes self u (ground arith))
      ]

  abbrev decision : Round → MemoryStorage Body → ℕ → LogEntry → Result AdoptionDecision
  decision r seen seq self =
      read_log_occupant r.read_fails seen (log_object_key prefix seq) >>= λ occupant.
      ok (try_adopt_own_session_log_entry self occupant)

  read_back-WrittenAt :
      (r : Round) (seen s : MemoryStorage Body) (seq probes : ℕ) (self : LogEntry)
      → WrittenAt prefix session seq self seen
      → WrittenAt prefix session seq self s
      → RoundOk seq probes self (decide s prefix seq probes (decision r seen seq self))
  unfolding decide
  read_back-WrittenAt r seen s seq probes self before after =
      elim (Result-cases (read_log_occupant r.read_fails seen (log_object_key prefix seq))) [
        | inl (occupant, e) ↦
            let (p, held, body) =
              read_log_occupant-ok r.read_fails seen (log_object_key prefix seq) occupant e in
            let mine : occupant ≡ self = cc (held, body, before.held, before.body) in
            rw (e, mine, adopts_self) (refl, refl, after)
        | inr (c, e) ↦ rw e (inr (refl, after))
      ]

  arrive_late-cases :
      (send : Send) (s : MemoryStorage Body) (seq : ℕ) (self : LogEntry)
      → Unwritten prefix session s
      → Unwritten prefix session (arrive_late send s (log_object_key prefix seq) self)
        ⊎ WrittenAt prefix session seq self (arrive_late send s (log_object_key prefix seq) self)
  unfolding arrive_late
  arrive_late-cases late s seq self u =
      unchanged-or prefix session s (arrive s (log_object_key prefix seq) self) seq self u
        (arrive-cases prefix session s seq self u)
  arrive_late-cases _ s seq self u = inl u

  arrive_late-taken :
      (send : Send) (s : MemoryStorage Body) (seq : ℕ) (self : LogEntry) (p : StoredObject Body)
      → at s (log_object_key prefix seq) ≡ some p
      → arrive_late send s (log_object_key prefix seq) self ≡ s
  unfolding arrive_late
  arrive_late-taken late s seq self p held = arrive-taken prefix session s seq self p valid held
  arrive_late-taken _ s seq self p held = refl

  read_back-Unwritten :
      (r : Round) (seen : MemoryStorage Body) (seq probes : ℕ) (self : LogEntry)
      → self.session ≡ session
      → All (IsPeer prefix session) r.before_probe
      → Unwritten prefix session seen
      → RoundOk seq probes self (
          decide
            (run r.before_probe (arrive_late r.send seen (log_object_key prefix seq) self))
            prefix
            seq
            probes
            (decision r seen seq self))
  unfolding decide
  read_back-Unwritten r seen seq probes self own peers u =
      elim (Result-cases (read_log_occupant r.read_fails seen (log_object_key prefix seq))) [
        | inl (occupant, e) ↦
            let (p, held, body) =
              read_log_occupant-ok r.read_fails seen (log_object_key prefix seq) occupant e in
            rw (e, arrive_late-taken r.send seen seq self p held)
              (decide-again (run r.before_probe seen) seq probes self
                (ok (try_adopt_own_session_log_entry self occupant))
                (λ d q.
                  u seq p occupant held body
                    (ap (λ x. x.session) (adopts self occupant d (ok-inj q)).0 ∙ own))
                (run-Unwritten prefix session r.before_probe seen peers u))
        | inr (c, e) ↦ rw e (
            ambiguous seq probes self c _ (
              run-either r.before_probe _ seq self peers
                (arrive_late-cases r.send seen seq self u)))
      ]
    where
      ambiguous :
          (seq probes : ℕ) (self : LogEntry) (c : Code) (s : MemoryStorage Body)
          → Unwritten prefix session s ⊎ WrittenAt prefix session seq self s
          → RoundOk seq probes self (decide s prefix seq probes (err c))
      ambiguous seq probes self c s (inl u) = inl u
      ambiguous seq probes self c s (inr w) = inr (refl, w)

      run-either :
          (ops : List (Op Body)) (s : MemoryStorage Body) (seq : ℕ) (self : LogEntry)
          → All (IsPeer prefix session) ops
          → Unwritten prefix session s ⊎ WrittenAt prefix session seq self s
          → Unwritten prefix session (run ops s) ⊎ WrittenAt prefix session seq self (run ops s)
      run-either ops s seq self peers (inl u) = inl (run-Unwritten prefix session ops s peers u)
      run-either ops s seq self peers (inr w) =
          inr (run-WrittenAt prefix session ops s seq self peers w)

  read_back-RoundOk :
      (r : Round) (s : MemoryStorage Body) (seq probes : ℕ) (self : LogEntry)
      → self.session ≡ session
      → PeersOnly prefix session r
      → Unwritten prefix session s ⊎ WrittenAt prefix session seq self s
      → RoundOk seq probes self (read_back r s prefix self seq probes)
  unfolding read_back
  read_back-RoundOk r s seq probes self own peers (inl u) =
      read_back-Unwritten r (run r.before_read s) seq probes self own peers.2
        (run-Unwritten prefix session r.before_read s peers.1 u)
  read_back-RoundOk r s seq probes self own peers (inr w) =
      let seen = run-WrittenAt prefix session r.before_read s seq self peers.1 w in
      read_back-WrittenAt r (run r.before_read s) _ seq probes self seen (
        run-WrittenAt prefix session r.before_probe _ seq self peers.2 (
          subst (WrittenAt prefix session seq self)
            (sym (arrive_late-taken r.send (run r.before_read s) seq self seen.object seen.held))
            seen))

  after_send-RoundOk :
      (r : Round) (seq probes : ℕ) (self : LogEntry) (sent : MemoryStorage Body × Fate)
      → self.session ≡ session
      → PeersOnly prefix session r
      → Sent prefix session seq self sent
      → RoundOk seq probes self (after_send r prefix self seq probes sent)
  unfolding after_send
  after_send-RoundOk r seq probes self (s, created) own peers w = (refl, refl, w)
  after_send-RoundOk r seq probes self (s, refused c) own peers u = inl u
  after_send-RoundOk r seq probes self (s, conflict) own peers h =
      read_back-RoundOk r s seq probes self own peers h
  after_send-RoundOk r seq probes self (s, uncertain) own peers h =
      read_back-RoundOk r s seq probes self own peers h

  pub commit_round-RoundOk :
      (r : Round) (s : MemoryStorage Body) (seq probes : ℕ) (self : LogEntry)
      → self.session ≡ session
      → PeersOnly prefix session r
      → Unwritten prefix session s
      → RoundOk seq probes self (commit_round r s prefix self seq probes)
  unfolding commit_round
  commit_round-RoundOk r s seq probes self own peers u =
      after_send-RoundOk r seq probes self _ own peers (
        send_create-Sent prefix session r.send (run r.before_create s) seq self valid
          (run-Unwritten prefix session r.before_create s peers.0 u))
