-- ===== src/Gc.antt =====
-- server/src/gc.ts: one pass of garbage collection over the snapshots of a collection and what older
-- ledgers still hold.
pub mod Run
pub mod Dead
pub mod Safe
pub mod Deletes
pub mod Elsewhere
pub mod Marks
pub mod Passes
use baerly_storage.Common.{
  ℕ, zero, suc, ◌+◌, ◌-◌, ◌*◌, ◌==◌, ltb, leb, Text, text_eq, codes, starts_with, length, Bool,
  true, false, ◌&&◌, ◌||◌, not, Option, none, some, List, [], ◌∷◌, ◌++◌, if◌then◌else◌, get_or,
}
use baerly_storage.CurrentJson.{log_seq_start_of, all_hex}
use baerly_storage.CurrentJson.Bodies.{CurrentJson}
use baerly_storage.Log.{log_object_key}
use baerly_storage.GcPending.{
  GcReason, stale_log, orphan_snapshot, orphan_content, GcCandidate, holds_key, keys_of,
}
use baerly_storage.Compactor.{below}

abbrev is_digit : ℕ → Bool
is_digit c = leb b'0' c && leb c b'9'

-- `n` digits, read onto `acc`, and the text behind them.
unfoldable pub take_digits : ℕ → ℕ → Text → Option (ℕ × Text)
take_digits zero acc s = some (acc, s)
take_digits (suc n) acc [] = none
take_digits (suc n) acc (c ∷ s) =
    let rest = take_digits n (acc * 10 + (c - b'0')) s in if is_digit c then rest else none

-- As many digits as there are.
unfoldable pub all_digits : ℕ → Text → ℕ × Text
all_digits acc [] = (acc, [])
all_digits acc (c ∷ s) =
    let rest = all_digits (acc * 10 + (c - b'0')) s in if is_digit c then rest else (acc, c ∷ s)

-- `n` hexadecimal digits, and then `.json`.
unfoldable pub hex_name : ℕ → Text → Bool
hex_name zero s = text_eq s (codes ".json")
hex_name (suc n) [] = false
hex_name (suc n) (c ∷ s) = let rest = hex_name n s in all_hex (c ∷ []) && rest

-- The text behind the character `c`.
abbrev behind : ℕ → Text → Option Text
behind c [] = none
behind c (x ∷ s) = if x == c then some s else none

unfoldable pub drop : ℕ → Text → Text
drop zero s = s
drop (suc n) [] = []
drop (suc n) (c ∷ s) = drop n s

abbrev max_safe_integer : ℕ
max_safe_integer = 9007199254740991

unfoldable pub parse_seq_from_canonical_log_key : Text → Text → Option ℕ
unfolding all_digits drop
parse_seq_from_canonical_log_key key prefix =
    let file = drop (length (prefix ++ codes "/log/")) key in
    let (seq, rest) = all_digits 0 file in
    if starts_with key (prefix ++ codes "/log/")
      && not (length rest == length file)
      && text_eq rest (codes ".json")
      && leb seq max_safe_integer
      && text_eq (log_object_key prefix seq) key
    then some seq
    else none

-- The name of a file below the snapshots: its range, where it is one.
unfoldable pub max_seq_of_name : Text → Option ℕ
unfolding take_digits hex_name
max_seq_of_name name = elim (take_digits 12 0 name) [
  | none ↦ none
  | some (min_seq, s) ↦ elim (behind b'-' s) [
    | none ↦ none
    | some t ↦ elim (take_digits 12 0 t) [
      | none ↦ none
      | some (max_seq, u) ↦ elim (behind b'-' u) [
        | none ↦ none
        | some v ↦ if hex_name 64 v && leb min_seq max_seq then some max_seq else none
      ]
    ]
  ]
]

unfoldable pub parse_max_seq_from_canonical_snapshot_key : Text → Text → Option ℕ
unfolding max_seq_of_name drop
parse_max_seq_from_canonical_snapshot_key key prefix =
    let range = max_seq_of_name (drop (length (prefix ++ codes "/snapshot/L9/")) key) in
    if starts_with key (prefix ++ codes "/snapshot/L9/") then range else none

abbrev pub is_text : Option Text → Text → Bool
is_text none s = false
is_text (some t) s = text_eq s t

abbrev present : Option ℕ → Bool
present none = false
present (some n) = true

abbrev pub is_orphan_snapshot : GcReason → Bool
is_orphan_snapshot orphan_snapshot = true
is_orphan_snapshot _ = false

-- `candidate.generation ?? NO_GENERATION`
abbrev pub generation_or_none : Option Text → Text
generation_or_none g = get_or g (codes "-")

-- Why a candidate leaves the ledger without a delete, if it does.
pub data Arm : Type 0 where
  evicted stale_generation rescued kept : Arm

-- The first manifest is the fence, the second one the fresh read, if there was one.
unfoldable pub arm_of : Text → CurrentJson → Option CurrentJson → GcCandidate → Arm
unfolding parse_seq_from_canonical_log_key parse_max_seq_from_canonical_snapshot_key
    log_seq_start_of
arm_of prefix fence fresh c = elim c.reason [
  | orphan_content ↦ evicted
  | stale_log ↦ elim (parse_seq_from_canonical_log_key c.key prefix) [
    | none ↦ evicted
    | some seq ↦
        if not (text_eq (generation_or_none c.generation) (generation_or_none fence.generation))
        then stale_generation
        else if leb (log_seq_start_of fence) seq
        then rescued
        else kept
  ]
  | orphan_snapshot ↦ elim (parse_max_seq_from_canonical_snapshot_key c.key prefix) [
    | none ↦ evicted
    | some max_seq ↦
        if not (text_eq (generation_or_none c.generation) (generation_or_none fence.generation))
        then stale_generation
        else if elim fresh [ none ↦ false | some f ↦ is_text f.snapshot c.key ]
        then rescued
        else kept
  ]
]

abbrev pub is_kept : Arm → Bool
is_kept kept = true
is_kept _ = false

-- `droppedKeys`
unfoldable pub dropped_keys : (GcCandidate → Arm) → List GcCandidate → List Text
dropped_keys arm [] = []
dropped_keys arm (c ∷ cs) =
    let rest = dropped_keys arm cs in if is_kept (arm c) then rest else c.key ∷ rest

pub data Verdict : Type 0 where
  skip wait sweep : Verdict

-- Strictly below the start of the live range that was read last.
abbrev pub obsolete : Text → Option CurrentJson → GcCandidate → Bool
obsolete prefix fresh c = elim (parse_max_seq_from_canonical_snapshot_key c.key prefix) [
  | none ↦ false
  | some max_seq ↦ ltb max_seq (elim fresh [ none ↦ 0 | some f ↦ f.log_seq_start ])
]

unfoldable pub verdict :
    Text → Option CurrentJson → List Text → Option ℕ → Bool → ℕ → GcCandidate → Verdict
verdict prefix fresh dropped max_sweeps due taken c =
    if holds_key c.key dropped
    then skip
    else if below taken max_sweeps && due
    then if is_orphan_snapshot c.reason && not (obsolete prefix fresh c) then wait else sweep
    else wait

abbrev pub place :
    Verdict
    → GcCandidate
    → List GcCandidate × List GcCandidate
    → List GcCandidate × List GcCandidate
place skip c (to_sweep, remaining) = (to_sweep, remaining)
place wait c (to_sweep, remaining) = (to_sweep, c ∷ remaining)
place sweep c (to_sweep, remaining) = (c ∷ to_sweep, remaining)

abbrev pub next_taken : Verdict → ℕ → ℕ
next_taken sweep taken = taken + 1
next_taken _ taken = taken

-- `toSweep` and `remaining`, behind `taken` candidates to sweep.
unfoldable pub split_candidates :
    (GcCandidate → Bool)
    → Text
    → Option CurrentJson
    → List Text
    → Option ℕ
    → ℕ
    → List GcCandidate
    → List GcCandidate × List GcCandidate
unfolding verdict
split_candidates due prefix fresh dropped max_sweeps taken [] = ([], [])
split_candidates due prefix fresh dropped max_sweeps taken (c ∷ cs) =
    let v = verdict prefix fresh dropped max_sweeps (due c) taken c in
    place v c (split_candidates due prefix fresh dropped max_sweeps (next_taken v taken) cs)
