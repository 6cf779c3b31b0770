-- ===== src/Log/Tail.antt =====
-- server/src/log-tail.ts: the search for the first empty slot of a log.
-- A loop runs on fuel, and `none` is a loop that has none left. A galloping probe that is not
-- refused doubles its step at most 17 times, and a bisection halves a gap that is at least as wide
-- as the fuel it gets.
pub mod Found
use baerly_storage.Common.{
  ℕ, zero, suc, ◌+◌, ◌-◌, ◌*◌, ◌/◌, Text, Bool, true, false, ltb, Option, none, some, List, [], ◌∷◌,
  ◌++◌,
}
use baerly_storage.Errors.{Result, ok, err, ◌>>=◌, ◌>>◌, internal, invalid_response}
use baerly_storage.Storage.{MemoryStorage, StoredObject, get}
use baerly_storage.CurrentJson.Bodies.{Body}
use baerly_storage.Log.{log_object_key, decode_json_bytes, is_some}

abbrev pub log_forward_probe_cap : ℕ
log_forward_probe_cap = 100000

pub data TailProbeChunk : Type 0 where
  exact : ℕ → List Body → Bool → TailProbeChunk
  at_least : ℕ → List Body → Bool → TailProbeChunk

-- The loop of `probeTailChunk` at slot `seq`, with `left` rounds left.
unfoldable pub probe_onto :
    MemoryStorage Body → Text → Bool → ℕ → ℕ → List Body → Bool → Result TailProbeChunk
unfolding log_object_key decode_json_bytes
probe_onto s prefix tolerate_malformed zero seq entries complete =
    ok (at_least seq entries complete)
probe_onto s prefix tolerate_malformed (suc left) seq entries complete = do
  got ← get s (log_object_key prefix seq) none
  elim got [
    | none ↦ ok (exact seq entries complete)
    | some o ↦ elim (decode_json_bytes o.body) [
      | ok b ↦ probe_onto s prefix tolerate_malformed left (seq + 1) (entries ++ (b ∷ [])) complete
      | err c ↦ elim tolerate_malformed [
        | true ↦ probe_onto s prefix tolerate_malformed left (seq + 1) entries false
        | false ↦ err invalid_response
      ]
    ]
  ]

unfoldable pub probe_tail_chunk : MemoryStorage Body → Text → ℕ → ℕ → Bool → Result TailProbeChunk
unfolding probe_onto
probe_tail_chunk s prefix hint cap tolerate_malformed =
    probe_onto s prefix tolerate_malformed cap hint [] true

unfoldable pub exact_only : TailProbeChunk → Result (ℕ × List Body)
exact_only (exact tail entries complete) = ok (tail, entries)
exact_only (at_least lower_bound entries complete) = err internal

unfoldable pub probe_tail_from : MemoryStorage Body → Text → ℕ → ℕ → Result (ℕ × List Body)
unfolding probe_tail_chunk exact_only
probe_tail_from s prefix hint cap = probe_tail_chunk s prefix hint cap false >>= exact_only

unfoldable pub exists : MemoryStorage Body → Text → ℕ → Result Bool
unfolding log_object_key
exists s prefix seq = do got ← get s (log_object_key prefix seq) none; ok (is_some got)

-- The bracket `(lo, hi]` of the tail.
unfoldable pub gallop : (ℕ → Result Bool) → ℕ → ℕ → ℕ → Option (Result (ℕ × ℕ))
gallop probe zero lo step = none
gallop probe (suc fuel) lo step = elim (probe (lo + step)) [
  | err c ↦ some (err c)
  | ok found ↦ elim found [
    | false ↦ some (ok (lo, lo + step))
    | true ↦ elim (ltb log_forward_probe_cap (step * 2)) [
      | true ↦ some (err internal)
      | false ↦ gallop probe fuel (lo + step) (step * 2)
    ]
  ]
]

unfoldable pub bisect : (ℕ → Result Bool) → ℕ → ℕ → ℕ → Option (Result ℕ)
bisect probe zero lo hi = none
bisect probe (suc fuel) lo hi = elim (ltb 1 (hi - lo)) [
  | false ↦ some (ok hi)
  | true ↦ elim (probe (lo + (hi - lo) / 2)) [
    | err c ↦ some (err c)
    | ok found ↦ elim found [
      | true ↦ bisect probe fuel (lo + (hi - lo) / 2) hi
      | false ↦ bisect probe fuel lo (lo + (hi - lo) / 2)
    ]
  ]
]

unfoldable pub bisect_bracket : (ℕ → Result Bool) → Option (Result (ℕ × ℕ)) → Option (Result ℕ)
unfolding bisect
bisect_bracket probe none = none
bisect_bracket probe (some (err c)) = some (err c)
bisect_bracket probe (some (ok (lo, hi))) = bisect probe (hi - lo) lo hi

unfoldable pub find_tail : (ℕ → Result Bool) → ℕ → Option (Result ℕ)
unfolding gallop bisect_bracket
find_tail probe hint = elim (probe hint) [
  | err c ↦ some (err c)
  | ok found ↦ elim found [
    | false ↦ some (ok hint)
    | true ↦ bisect_bracket probe (gallop probe 17 hint 1)
  ]
]

unfoldable pub find_log_tail : MemoryStorage Body → Text → ℕ → Option (Result ℕ)
unfolding exists find_tail
find_log_tail s prefix hint = find_tail (exists s prefix) hint
