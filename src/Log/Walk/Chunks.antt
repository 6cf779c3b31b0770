-- ===== src/Log/Walk/Chunks.antt =====
-- Reading a range in chunks is reading it slot by slot.
use baerly_storage.Common.{
  ℕ, zero, suc, ◌+◌, ◌-◌, ◌≤◌, ◌≡◌, refl, ap, sym, ◌∙◌, Text, true, ltb, leb, min, List, [], ◌∷◌,
  ◌++◌, arith, Bool-cases, ◌⊎◌, inl, inr,
}
use baerly_storage.Errors.{Result, ok, err, ◌>>=◌, Result-cases}
use baerly_storage.Storage.{MemoryStorage}
use baerly_storage.CurrentJson.Bodies.{Body}
use baerly_storage.Log.{log_object_key}
use baerly_storage.Log.Walk.{
  max_parallel_log_reads, read_log_entry, read_range, walk_chunks, walk_log_range,
}

-- Two parts of a range, one after the other.
abbrev pub both : Result (List Body) → Result (List Body) → Result (List Body)
both first second = first >>= λ a. second >>= λ b. ok (a ++ b)

both-cons :
    (e : Body) (first second : Result (List Body))
    → both (first >>= λ a. ok (e ∷ a)) second ≡ (both first second >>= λ a. ok (e ∷ a))
both-cons e (err c) second = refl
both-cons e (ok a) (err c) = refl
both-cons e (ok a) (ok b) = refl

both-nil : (second : Result (List Body)) → both (ok []) second ≡ second
both-nil (err c) = refl
both-nil (ok b) = refl

pub read_range-add :
    (s : MemoryStorage Body) (prefix : Text) (seq m n : ℕ)
    → read_range s prefix seq (m + n)
      ≡ both (read_range s prefix seq m) (read_range s prefix (seq + m) n)
unfolding read_range
read_range-add s prefix seq zero n =
    let count : 0 + n ≡ n = omega arith in
    let here : seq + 0 ≡ seq = omega arith in
    rw (count, here) (sym (both-nil (read_range s prefix seq n)))
read_range-add s prefix seq (suc m) n =
    let count : suc m + n ≡ suc (m + n) = omega arith in
    let there : seq + suc m ≡ seq + 1 + m = omega arith in
    elim (Result-cases (read_log_entry s (log_object_key prefix seq))) [
      | inr (c, e) ↦ rw (count, e, read_range) refl
      | inl (b, e) ↦
          rw (count, there, e, read_range)
            (ap (λ r. r >>= λ rest. ok (b ∷ rest)) (read_range-add s prefix (seq + 1) m n)
              ∙ sym (
                  both-cons b (read_range s prefix (seq + 1) m)
                    (read_range s prefix (seq + 1 + m) n)))
    ]

-- An empty range begins anywhere.
read_range-start :
    (s : MemoryStorage Body) (prefix : Text) (p q n : ℕ)
    → (n ≡ 0) ⊎ (p ≡ q)
    → read_range s prefix p n ≡ read_range s prefix q n
unfolding read_range
read_range-start s prefix p q n (inl e) = rw e refl
read_range-start s prefix p q n (inr e) = rw e refl

last_or_full :
    (from_seq chunk_start total : ℕ)
    → ltb chunk_start total ≡ true
    → (total - (chunk_start + max_parallel_log_reads) ≡ 0)
      ⊎ (from_seq + (chunk_start + max_parallel_log_reads)
          ≡ from_seq
            + chunk_start
            + (min (chunk_start + max_parallel_log_reads) total - chunk_start))
last_or_full from_seq chunk_start total h =
    elim (Bool-cases (ltb (chunk_start + max_parallel_log_reads) total)) [
      | inl e ↦ inr (ground arith)
      | inr e ↦ inl (ground arith)
    ]

walk_chunks-read_range :
    (s : MemoryStorage Body) (prefix : Text) (from_seq total chunk_start fuel : ℕ)
    → total ≤ chunk_start + fuel
    → walk_chunks s prefix from_seq total chunk_start fuel
      ≡ read_range s prefix (from_seq + chunk_start) (total - chunk_start)
unfolding walk_chunks
walk_chunks-read_range s prefix from_seq total chunk_start zero h =
    let rest : total - chunk_start ≡ 0 = omega arith in rw rest (unfold read_range in refl)
walk_chunks-read_range s prefix from_seq total chunk_start (suc fuel) h =
    elim (Bool-cases (ltb chunk_start total)) [
      | inr e ↦
          let rest : total - chunk_start ≡ 0 = ground arith in
          rw (e, rest, walk_chunks) (unfold read_range in refl)
      | inl e ↦
          let size : ℕ = min (chunk_start + max_parallel_log_reads) total - chunk_start in
          let parts : total - chunk_start
              ≡ size + (total - (chunk_start + max_parallel_log_reads)) =
            ground arith in
          rw (e, parts, walk_chunks)
            (ap (both (read_range s prefix (from_seq + chunk_start) size)) (
                walk_chunks-read_range s prefix from_seq total
                  (chunk_start + max_parallel_log_reads) fuel (omega arith)
                ∙ read_range-start s prefix _ _ (total - (chunk_start + max_parallel_log_reads))
                    (last_or_full from_seq chunk_start total e))
              ∙ sym (
                  read_range-add s prefix (from_seq + chunk_start) size
                    (total - (chunk_start + max_parallel_log_reads))))
    ]

-- Reading a range of slots in chunks gives the entries, or the error of the first slot that cannot be
-- read, that reading it slot by slot gives.
pub walk_log_range-read_range :
    (s : MemoryStorage Body) (prefix : Text) (from_seq to_seq_exclusive : ℕ)
    → walk_log_range s prefix from_seq to_seq_exclusive
      ≡ read_range s prefix from_seq (to_seq_exclusive - from_seq)
unfolding walk_log_range
walk_log_range-read_range s prefix from_seq to_seq_exclusive =
    elim (Bool-cases (leb to_seq_exclusive from_seq)) [
      | inl e ↦
          let rest : to_seq_exclusive - from_seq ≡ 0 = ground arith in
          rw (e, rest) (unfold read_range in refl)
      | inr e ↦
          let here : from_seq + 0 ≡ from_seq = omega arith in
          let whole : to_seq_exclusive - from_seq - 0 ≡ to_seq_exclusive - from_seq = omega arith in
          rw e (
            walk_chunks-read_range s prefix from_seq (to_seq_exclusive - from_seq) 0
              (to_seq_exclusive - from_seq) (omega arith)
            ∙ rw (here, whole) refl)
    ]
