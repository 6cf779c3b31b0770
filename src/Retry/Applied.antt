-- ===== src/Retry/Applied.antt =====
-- What the error of a conditional create says of the state: `notApplied`, and a refusal.
use baerly_storage.Common.{
  ℕ, zero, suc, ◌≡◌, refl, sym, ◌∙◌, Bool, true, false, ◌||◌, not, arith, Bool-cases, inl, inr, ◌⊎◌,
}
use baerly_storage.Errors.{
  Code, access_denied, invalid_config, network_error, write_conflict, is_write_conflict,
}
use baerly_storage.Retry.{
  Failure, Cause, baerly, foreign, details, wraps, Reply, failed, StorageRetryOptions,
  permanent_code, is_permanent, is_throttled, rejection, exhausted, storage_retry_delay_millis,
  retry_storage_call,
}
use baerly_storage.Retry.Outcomes.{
  Asks, Retried, none_yet, and_again, Ended, success, refused, gave_up, retry_storage_call-Outcome,
}

-- The cause carries `notApplied: true`.
abbrev pub not_applied : Failure → Bool
not_applied (baerly code (details throttled after applied)) = applied
not_applied _ = false

-- The code of a refusal of the caller or of its configuration, which proves that nothing was applied.
abbrev pub denied_code : Code → Bool
denied_code access_denied = true
denied_code invalid_config = true
denied_code _ = false

abbrev pub is_denied : Failure → Bool
is_denied (baerly code cause) = denied_code code
is_denied foreign = false

denied-permanent : (e : Failure) → is_denied e ≡ true → is_permanent e ≡ true
unfolding is_permanent permanent_code
denied-permanent (baerly access_denied cause) h = refl
denied-permanent (baerly invalid_config cause) h = refl
denied-permanent _ h = cc

-- What the store promises: an attempt that is throttled or denied leaves the state as it was, only
-- the retry policy sets `notApplied`, and time may pass.
pub record KeepsState {S A : Type 0} (Same : S → S → Type 0) (sleep : ℕ → S → S)
    (fn : S → Reply A × S) : Type 0 where
  pub same_refl : (s : S) → Same s s
  pub same_trans : (a b c : S) → Same a b → Same b c → Same a c
  pub sleep_same : (t : ℕ) (s : S) → Same s (sleep t s)
  pub throttled_same :
      (s next : S) (e : Failure) → fn s ≡ (failed e, next) → is_throttled e ≡ true → Same s next
  pub denied_same :
      (s next : S) (e : Failure) → fn s ≡ (failed e, next) → is_denied e ≡ true → Same s next
  pub unmarked : (s next : S) (e : Failure) → fn s ≡ (failed e, next) → not_applied e ≡ false

-- The error is marked, or refuses the caller.
abbrev pub Marked : Failure → Type 0
Marked e = (not_applied e ≡ true) ⊎ (is_denied e ≡ true)

conflict_not_denied : (code : Code) → is_write_conflict code ≡ true → false ≡ denied_code code
unfolding is_write_conflict
conflict_not_denied write_conflict h = refl
conflict_not_denied _ h = cc

conflict :
    (code : Code) (cause : Cause)
    → is_write_conflict code ≡ true
    → Marked (rejection true true (baerly code cause))
    → Marked (baerly code cause)
unfolding rejection
conflict code cause e h = rw e at h

wrapped :
    (code : Code) (cause : Cause)
    → is_write_conflict code ≡ false
    → Marked (rejection true true (baerly code cause))
    → Marked (baerly network_error (wraps (baerly code cause)))
unfolding rejection
wrapped code cause e h = rw e at h

rejection-uncertain : (e : Failure) → Marked (rejection true true e) → not_applied e ≡ true
unfolding rejection is_write_conflict
rejection-uncertain foreign (inl h) = cc h
rejection-uncertain foreign (inr h) = cc h
rejection-uncertain (baerly code cause) h = elim (Bool-cases (is_write_conflict code)) [
  | inl e ↦ elim (conflict code cause e h) [
    | inl k ↦ k
    | inr k ↦ cc (conflict_not_denied code e ∙ k)
  ]
  | inr e ↦ elim (wrapped code cause e h) [ inl k ↦ cc k | inr k ↦ cc k ]
]

rejection-certain : (e : Failure) → rejection true false e ≡ e
unfolding rejection
rejection-certain (baerly code cause) = refl
rejection-certain foreign = refl

exhausted-uncertain : (e : Failure) → exhausted true true e ≡ e
unfolding exhausted
exhausted-uncertain (baerly code cause) = refl
exhausted-uncertain foreign = refl

module _ {S : Type 0} {A : Type 0} (Same : S → S → Type 0) (jitter : ℕ → ℕ → ℕ) (sleep : ℕ → S → S)
    (fn : S → Reply A × S) (opts : StorageRetryOptions) (store : KeepsState Same sleep fn) where
  -- Attempts whose outcome is known were all throttled.
  Retried-Same :
      (n i : ℕ) (u w : Bool) (s end : S)
      → Retried jitter sleep fn opts n i u s w end
      → w ≡ false
      → (u ≡ false) × Same s end
  Retried-Same n i u w s end none_yet h = (h, store.same_refl s)
  Retried-Same _ i u w s end (and_again {n = m} {next = next} {error = error} e p r) h =
      let pause = storage_retry_delay_millis jitter error i opts.backoff_ms in
      let (known, same) =
        Retried-Same m (suc i) (u || not (is_throttled error)) w (sleep pause next) end r h in
      let throttled : is_throttled error ≡ true = ground (arith, known) in
      (
        ground (arith, known),
        store.same_trans s next end (store.throttled_same s next error e throttled)
            (store.same_trans next (sleep pause next) end (store.sleep_same pause next) same),
      )

  refused-Same :
      (w : Bool) (s next : S) (error : Failure)
      → fn s ≡ (failed error, next)
      → Marked (rejection true w error)
      → (w ≡ false) × Same s next
  refused-Same true s next error h m =
      cc (sym (store.unmarked s next error h) ∙ rejection-uncertain error m)
  refused-Same false s next error h m = elim (rw (rejection-certain error) at m) [
    | inl k ↦ cc (sym (store.unmarked s next error h) ∙ k)
    | inr k ↦ (refl, store.denied_same s next error h k)
  ]

  exhausted-Same :
      (w : Bool) (s next : S) (error : Failure)
      → fn s ≡ (failed error, next)
      → is_permanent error ≡ false
      → Marked (exhausted true (w || not (is_throttled error)) error)
      → (w ≡ false) × Same s next
  exhausted-Same w s next error h p m = elim (Bool-cases (w || not (is_throttled error))) [
    | inl e ↦
        let k : Marked (exhausted true true error) = rw e at m in
        let k' : Marked error = rw (exhausted-uncertain error) at k in
        elim k' [
          | inl u ↦ cc (sym (store.unmarked s next error h) ∙ u)
          | inr u ↦ cc (sym p ∙ denied-permanent error u)
        ]
    | inr e ↦ (ground (arith, e), store.throttled_same s next error h (ground (arith, e)))
  ]

  Ended-Same :
      (retries n : ℕ) (w : Bool) (s : S) (e : Failure) (r : Reply A × S) (end : S)
      → opts.conditional_create ≡ true
      → Ended jitter sleep fn opts retries n w s r
      → r ≡ (failed e, end)
      → Marked e
      → (w ≡ false) × Same s end
  Ended-Same retries n w s e _ end c (success h) k m = cc k
  Ended-Same retries n w s e _ end c (refused {error = error} {after = after} h p) k m =
      let same_e : rejection opts.conditional_create w error ≡ e = cc k in
      let same_s : after ≡ end = cc k in
      let m' : Marked (rejection opts.conditional_create w error) = rw same_e m in
      rw (← same_s) (refused-Same w s after error h (rw c at m'))
  Ended-Same retries n w s e _ end c (gave_up {error = error} {after = after} h p q) k m =
      let t = w || not (is_throttled error) in
      let same_e : exhausted opts.conditional_create t error ≡ e = cc k in
      let same_s : after ≡ end = cc k in
      let m' : Marked (exhausted opts.conditional_create t error) = rw same_e m in
      rw (← same_s) (exhausted-Same w s after error h p (rw c at m'))

  -- Where throttled attempts, attempts refused with AccessDenied or InvalidConfig, and waiting
  -- leave the state as it was, and the store itself never sets notApplied: a conditional create
  -- under the retry policy that ends with an error that carries notApplied, or with the code
  -- AccessDenied or InvalidConfig, left the state as it was.
  pub retry_storage_call-Same :
      (retries : ℕ) (s : S) (e : Failure) (end : S)
      → Asks opts retries
      → opts.conditional_create ≡ true
      → retry_storage_call jitter sleep fn opts s ≡ (failed e, end)
      → Marked e
      → Same s end
  retry_storage_call-Same retries s e end a c h m =
      let o = retry_storage_call-Outcome jitter sleep fn opts retries s a in
      let (known, last) = Ended-Same retries o.attempts o.unknown o.state e _ end c o.last h m in
      let (_, first) = Retried-Same o.attempts zero false o.unknown s o.state o.before known in
      store.same_trans s o.state end first last
