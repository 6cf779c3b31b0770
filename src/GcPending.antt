-- ===== src/GcPending.antt =====
-- protocol/src/coordination/gc-pending.ts: the ledger of objects that wait for their deletion, its
-- shape guard, its compare-and-swap and the merge of a pass into it. `lastSweptAt` is compared in the
-- order of code units.
pub mod Merges
use baerly_storage.Common.{
  ℕ, zero, suc, ◌-◌, ◌==◌, Text, codes, text_eq, text_lt, Bool, true, false, ◌&&◌, ◌||◌, not,
  Option, none, some, List, [], ◌∷◌, ◌++◌, map, if◌then◌else◌,
}
use baerly_storage.Common.Int.{pos}
use baerly_storage.Errors.{
  Code, Result, ok, err, ◌>>=◌, ◌>>◌, throw_if, is_write_conflict, write_conflict, invalid_response,
}
use baerly_storage.Storage.{MemoryStorage, StoredObject, get, put, Op, run}
use baerly_storage.CurrentJson.Bodies.{
  Body, pending_json, malformed, RawPending, RawCandidate, RawField, absent, text, int,
}
use baerly_storage.CurrentJson.{string, string_if_present}
use baerly_storage.Writer.Attempt.{After}

abbrev gc_pending_cas_max_attempts : ℕ
gc_pending_cas_max_attempts = 3

pub data GcReason : Type 0 where
  stale_log orphan_snapshot orphan_content : GcReason

pub record GcCandidate : Type 0 where
  pub key : Text
  pub due_at : Text
  pub reason : GcReason
  pub generation : Option Text

pub record GcPending : Type 0 where
  pub schema_version : ℕ
  pub candidates : List GcCandidate
  pub last_swept_at : Text

abbrev pub gc_pending_key : Text → Text
gc_pending_key prefix = prefix ++ codes "/gc/pending.json"

abbrev reason_text : GcReason → Text
reason_text stale_log = codes "stale-log"
reason_text orphan_snapshot = codes "orphan-snapshot"
reason_text orphan_content = codes "orphan-content"

unfoldable pub reason_of : Text → Result GcReason
reason_of s =
    if text_eq s (codes "stale-log")
    then ok stale_log
    else if text_eq s (codes "orphan-snapshot")
    then ok orphan_snapshot
    else if text_eq s (codes "orphan-content")
    then ok orphan_content
    else err invalid_response

unfoldable pub is_empty : Text → Bool
is_empty [] = true
is_empty (c ∷ s) = false

unfoldable pub assert_candidate : Option RawCandidate → Result GcCandidate
unfolding reason_of is_empty
assert_candidate none = err invalid_response
assert_candidate (some c) = do
  key ← string c.key
  throw_if (is_empty key) invalid_response
  due_at ← string c.due_at
  said ← string c.reason
  reason ← reason_of said
  generation ← string_if_present c.generation
  ok (record { key = key; due_at = due_at; reason = reason; generation = generation })

unfoldable pub assert_candidates : List (Option RawCandidate) → Result (List GcCandidate)
unfolding assert_candidate
assert_candidates [] = ok []
assert_candidates (c ∷ cs) = do
  first ← assert_candidate c
  rest ← assert_candidates cs
  ok (first ∷ rest)

unfoldable pub first_version : RawField → Result ℕ
first_version (int (pos n)) = if n == 1 then ok n else err invalid_response
first_version _ = err invalid_response

unfoldable pub an_array : Option (List (Option RawCandidate)) → Result (List (Option RawCandidate))
an_array none = err invalid_response
an_array (some cs) = ok cs

unfoldable pub assert_gc_pending : RawPending → Result GcPending
unfolding assert_candidates first_version an_array
assert_gc_pending r = do
  version ← first_version r.schema_version
  listed ← an_array r.candidates
  candidates ← assert_candidates listed
  last_swept_at ← string r.last_swept_at
  cursor ← string_if_present r.log_scan_cursor
  ok (record { schema_version = version; candidates = candidates; last_swept_at = last_swept_at })

abbrev field_of : Option Text → RawField
field_of none = absent
field_of (some s) = text s

abbrev encode_candidate : GcCandidate → Option RawCandidate
encode_candidate c = some (record {
  key = text c.key;
  due_at = text c.due_at;
  reason = text (reason_text c.reason);
  generation = field_of c.generation;
})

abbrev pub encode_pending : GcPending → RawPending
encode_pending p = record {
  schema_version = int (pos p.schema_version);
  candidates = some (map encode_candidate p.candidates);
  last_swept_at = text p.last_swept_at;
  log_scan_cursor = absent;
}

unfoldable pub decode_pending : Body → Result GcPending
unfolding assert_gc_pending
decode_pending (pending_json r) = assert_gc_pending r
decode_pending _ = err invalid_response

unfoldable pub decode_pending_read : Option (StoredObject Body) → Result (Option (GcPending × ℕ))
unfolding decode_pending
decode_pending_read none = ok none
decode_pending_read (some o) = do json ← decode_pending o.body; ok (some (json, o.etag))

unfoldable pub read_gc_pending : MemoryStorage Body → Text → Result (Option (GcPending × ℕ))
unfolding decode_pending_read
read_gc_pending s key = get s key none >>= decode_pending_read

unfoldable pub create_gc_pending :
    MemoryStorage Body → Text → GcPending → Result (MemoryStorage Body × GcPending × ℕ)
unfolding assert_gc_pending
create_gc_pending s key initial = do
  checked ← assert_gc_pending (encode_pending initial)
  (s', etag) ← put s key (pending_json (encode_pending initial)) true none
  ok (s', initial, etag)

-- The calls of other clients before an attempt's read and before its write.
pub record Between : Type 0 where
  pub before_read : List (Op Body)
  pub before_write : List (Op Body)

unfoldable pub settled :
    MemoryStorage Body
    → After (GcPending × ℕ)
    → GcPending
    → Result (MemoryStorage Body × ℕ)
    → After (GcPending × ℕ)
settled s retry next (ok (s', etag)) = (s', ok (next, etag))
settled s retry next (err code) = if is_write_conflict code then retry else (s, err code)

-- With `left` attempts left; they are the last ones of the list of what other clients do.
unfoldable pub cas_attempts :
    ℕ → (ℕ → Between) → MemoryStorage Body → Text → (GcPending → GcPending) → After (GcPending × ℕ)
unfolding settled read_gc_pending assert_gc_pending
cas_attempts zero between s key mutator = (s, err write_conflict)
cas_attempts (suc left) between s key mutator =
    let t = run (between left).before_read s in
    let u = run (between left).before_write t in
    let retry = cas_attempts left between u key mutator in
    elim (read_gc_pending t key) [
      | err code ↦ (t, err code)
      | ok none ↦ (t, err write_conflict)
      | ok (some (json, etag)) ↦ elim (assert_gc_pending (encode_pending (mutator json))) [
        | err code ↦ (t, err code)
        | ok checked ↦
            settled u retry (mutator json)
              (put u key (pending_json (encode_pending (mutator json))) false (some etag))
      ]
    ]

unfoldable pub cas_update_gc_pending :
    (ℕ → Between) → MemoryStorage Body → Text → (GcPending → GcPending) → After (GcPending × ℕ)
unfolding cas_attempts
cas_update_gc_pending between s key mutator =
    cas_attempts gc_pending_cas_max_attempts between s key mutator

-- A set of keys.
unfoldable pub holds_key : Text → List Text → Bool
holds_key key [] = false
holds_key key (k ∷ keys) = let rest = holds_key key keys in text_eq k key || rest

abbrev pub keys_of : List GcCandidate → List Text
keys_of [] = []
keys_of (c ∷ cs) = c.key ∷ keys_of cs

unfoldable pub without : List Text → List GcCandidate → List GcCandidate
unfolding holds_key
without swept [] = []
without swept (c ∷ cs) =
    let rest = without swept cs in if holds_key c.key swept then rest else c ∷ rest

-- `present` grows with what is appended.
unfoldable pub appended : List Text → List Text → List GcCandidate → List GcCandidate
unfolding holds_key
appended swept present [] = []
appended swept present (c ∷ cs) =
    let with_it = c ∷ appended swept (c.key ∷ present) cs in
    let rest = appended swept present cs in
    if not (holds_key c.key swept) && not (holds_key c.key present) then with_it else rest

unfoldable pub first_candidates : ℕ → List GcCandidate → List GcCandidate
first_candidates zero cs = []
first_candidates (suc n) [] = []
first_candidates (suc n) (c ∷ cs) = c ∷ first_candidates n cs

unfoldable pub merge_gc_pending : GcPending → List Text → List GcCandidate → Text → ℕ → GcPending
unfolding without appended first_candidates
merge_gc_pending latest swept new_candidates last_swept_at max_candidates = record {
  schema_version = 1;
  candidates = first_candidates max_candidates (
      without swept latest.candidates
      ++ appended swept (keys_of (without swept latest.candidates)) new_candidates);
  last_swept_at =
      (if text_lt latest.last_swept_at last_swept_at then last_swept_at else latest.last_swept_at);
}
