-- ===== src/Writer.antt =====
-- server/src/writer.ts: the committing create of an unguarded write, `#singleAttemptCommit` from the
-- minted entry to the slot that holds it, and the check against the delete floor.
-- A round of the loop gets what its one send meets on the way and what other clients do meanwhile.
pub mod Slots
pub mod Rounds
pub mod Once
pub mod Attempt
use baerly_storage.Common.{
  ℕ, ◌+◌, ◌≤◌, Text, codes, Bool, true, false, ltb, leb, Option, none, some, List, [], ◌∷◌, ◌++◌,
  if◌then◌else◌, ◌||◌,
}
use baerly_storage.Errors.{
  Code, Result, ok, err, ◌>>=◌, ◌>>◌, network_error, access_denied, write_conflict,
  ambiguous_commit, internal, invalid_response, not_found,
}
use baerly_storage.Json.{Fields}
use baerly_storage.Storage.{
  MemoryStorage, StoredObject, get, put, delete, Op, put_op, apply_op, run,
}
use baerly_storage.CurrentJson.Bodies.{Body, entry, LogEntry, LogOp, insert, update, CurrentJson}
use baerly_storage.CurrentJson.{read_current_json, certified_delete_floor}
use baerly_storage.Log.{log_object_key}
use baerly_storage.Log.Lsn.{count_key}
use baerly_storage.Log.Tail.{find_log_tail, log_forward_probe_cap}
use baerly_storage.Log.Adoption.{
  AdoptionDecision, adopt, foreign_session, wrong_seq, intent_mismatch,
  try_adopt_own_session_log_entry,
}

pub record CommitInput : Type 0 where
  pub op : LogOp
  pub collection : Text
  pub doc_id : Text
  pub body : Option Fields
  pub origin : Option Text

abbrev pub post_image : LogOp → Option Fields → Option Fields
post_image LogOp.delete body = none
post_image _ body = body

-- One clock read gives the timestamp of the LSN and the commit time.
unfoldable pub mint_entry : CommitInput → Text → Text → Text → ℕ → LogEntry
unfolding count_key
mint_entry input lsn_timestamp commit_ts session at_seq = record {
  lsn = lsn_timestamp ++ codes "_" ++ session ++ codes "_" ++ count_key at_seq;
  commit_ts = commit_ts;
  op = input.op;
  collection = input.collection;
  doc_id = input.doc_id;
  after = post_image input.op input.body;
  before = none;
  key_old = none;
  origin = input.origin;
  session = session;
  seq = at_seq;
}

-- What the one `storage.put` of a slot meets: it arrives; it arrives and the adapter sends it once
-- more; it arrives and the answer is lost; it is lost; it arrives only after the slot was read back;
-- every attempt is throttled; it is denied.
pub data Send : Type 0 where
  delivered resent ack_lost dropped late throttled denied : Send

-- How the call ends. `refused` promises that nothing was applied.
pub data Fate : Type 0 where
  created conflict uncertain : Fate
  refused : Code → Fate

pub record Round : Type 0 where
  pub send : Send
  pub read_fails : Bool
  pub before_create : List (Op Body)
  pub before_read : List (Op Body)
  pub before_probe : List (Op Body)

unfoldable pub answered :
    MemoryStorage Body → Result (MemoryStorage Body × ℕ) → MemoryStorage Body × Fate
answered s (ok (s', etag)) = (s', created)
answered s (err write_conflict) = (s, conflict)
answered s (err code) = (s, refused code)

-- The create arrives, and the store may change.
unfoldable pub arrive : MemoryStorage Body → Text → LogEntry → MemoryStorage Body
arrive s key e = apply_op (put_op key (entry e) true none) s

unfoldable pub send_create : Send → MemoryStorage Body → Text → LogEntry → MemoryStorage Body × Fate
unfolding answered
send_create delivered s key e = answered s (put s key (entry e) true none)
send_create resent s key e =
    answered (arrive s key e) (put (arrive s key e) key (entry e) true none)
send_create ack_lost s key e = (arrive s key e, uncertain)
send_create dropped s key e = (s, uncertain)
send_create late s key e = (s, uncertain)
send_create throttled s key e = (s, refused network_error)
send_create denied s key e = (s, refused access_denied)

unfoldable pub arrive_late : Send → MemoryStorage Body → Text → LogEntry → MemoryStorage Body
arrive_late late s key e = arrive s key e
arrive_late _ s key e = s

abbrev is_empty : Text → Bool
is_empty [] = true
is_empty _ = false

-- `hasWriterIdentity` of what `JSON.parse` gives.
unfoldable pub identified : Body → Result LogEntry
identified (entry e) = if is_empty e.session then err invalid_response else ok e
identified _ = err invalid_response

unfoldable pub occupant_of : Option (StoredObject Body) → Result LogEntry
unfolding identified
occupant_of none = err not_found
occupant_of (some o) = identified o.body

unfoldable pub read_log_occupant : Bool → MemoryStorage Body → Text → Result LogEntry
read_log_occupant true s key = err network_error
read_log_occupant false s key = get s key none >>= occupant_of

-- The end of a round: the commit is over, or it goes on at another slot. `stuck` is a tail search
-- without fuel.
pub data RoundEnd : Type 0 where
  done : MemoryStorage Body → Result (ℕ × LogEntry) → RoundEnd
  again : MemoryStorage Body → ℕ → RoundEnd
  stuck : RoundEnd

unfoldable pub next_slot : MemoryStorage Body → Option (Result ℕ) → RoundEnd
next_slot s none = stuck
next_slot s (some (err code)) = done s (err code)
next_slot s (some (ok tail)) = again s tail

unfoldable pub decide : MemoryStorage Body → Text → ℕ → ℕ → Result AdoptionDecision → RoundEnd
unfolding next_slot
decide s prefix seq probes (err code) = done s (err ambiguous_commit)
decide s prefix seq probes (ok (adopt e)) = done s (ok (seq, e))
decide s prefix seq probes (ok _) =
    if ltb log_forward_probe_cap (probes + 1)
    then done s (err internal)
    else next_slot s (find_log_tail s prefix (seq + 1))

unfoldable pub read_back : Round → MemoryStorage Body → Text → LogEntry → ℕ → ℕ → RoundEnd
unfolding decide
read_back r s prefix self seq probes =
    let key = log_object_key prefix seq in
    let seen = run r.before_read s in
    decide (run r.before_probe (arrive_late r.send seen key self)) prefix seq probes (do
      occupant ← read_log_occupant r.read_fails seen key
      ok (try_adopt_own_session_log_entry self occupant))

unfoldable pub after_send : Round → Text → LogEntry → ℕ → ℕ → MemoryStorage Body × Fate → RoundEnd
unfolding read_back
after_send r prefix self seq probes (s, created) = done s (ok (seq, self))
after_send r prefix self seq probes (s, refused code) = done s (err code)
after_send r prefix self seq probes (s, conflict) = read_back r s prefix self seq probes
after_send r prefix self seq probes (s, uncertain) = read_back r s prefix self seq probes

unfoldable pub commit_round : Round → MemoryStorage Body → Text → LogEntry → ℕ → ℕ → RoundEnd
unfolding after_send
commit_round r s prefix self seq probes =
    after_send r prefix self seq probes
      (send_create r.send (run r.before_create s) (log_object_key prefix seq) self)

-- `none`: the list of rounds is over.
unfoldable pub commit_loop :
    (ℕ → LogEntry)
    → Text
    → List Round
    → MemoryStorage Body
    → ℕ
    → ℕ
    → Option (MemoryStorage Body × Result (ℕ × LogEntry))
commit_loop mint prefix [] s seq probes = none
commit_loop mint prefix (r ∷ rounds) s seq probes =
    elim (commit_round r s prefix (mint seq) seq probes) [
      | done s' result ↦ some (s', result)
      | again s' tail ↦ commit_loop mint prefix rounds s' tail (probes + 1)
      | stuck ↦ none
    ]
