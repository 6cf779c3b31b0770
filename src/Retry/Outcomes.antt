-- ===== src/Retry/Outcomes.antt =====
-- How a request under the retry policy ends.
use baerly_storage.Common.{
  ℕ, zero, suc, ◌-◌, ◌≤◌, ◌≡◌, refl, ap, Bool, true, false, ◌||◌, not, arith, Bool-cases, inl, inr,
  get_or, ltb_of_le,
}
use baerly_storage.Common.Int.{pos}
use baerly_storage.Retry.{
  Failure, Reply, returned, failed, whole, StorageRetryOptions, is_permanent, is_throttled,
  rejection, exhausted, storage_retry_delay_millis, retry_loop, retry_storage_call,
  storage_retry_max_attempts, max_safe_integer,
}

pub reply_of : {A S : Type 0} {p : Reply A × S} {r : Reply A} {s : S} → p ≡ (r, s) → p.0 ≡ r
reply_of e = ap (λ p. p.0) e

pub state_of : {A S : Type 0} {p : Reply A × S} {r : Reply A} {s : S} → p ≡ (r, s) → p.1 ≡ s
state_of e = ap (λ p. p.1) e

-- The retries that the options ask for.
pub record Asks (opts : StorageRetryOptions) (retries : ℕ) : Type 0 where
  pub asked :
      get_or opts.retries (whole (pos (storage_retry_max_attempts - 1))) ≡ whole (pos retries)
  pub safe : retries ≤ max_safe_integer

module _ {S : Type 0} {A : Type 0} (jitter : ℕ → ℕ → ℕ) (sleep : ℕ → S → S) (fn : S → Reply A × S)
    (opts : StorageRetryOptions) where
  -- `n` attempts in a row from attempt `i` on fail in a way that is worth another one, and lead
  -- from one state to the other; the second Boolean says whether the outcome of one is unknown.
  pub data Retried : (n i : ℕ) → Bool → S → Bool → S → Type 0 where
    none_yet : {i : ℕ} {u : Bool} {s : S} → Retried zero i u s u s
    and_again :
        {n i : ℕ} {u w : Bool} {s next after : S} {error : Failure}
        → fn s ≡ (failed error, next)
        → is_permanent error ≡ false
        → Retried n
            (suc i)
            (u || not (is_throttled error))
            (sleep (storage_retry_delay_millis jitter error i opts.backoff_ms) next)
            w
            after
        → Retried (suc n) i u s w after

  -- The attempt that ends the call.
  pub data Ended (retries n : ℕ) (u : Bool) (s : S) : Reply A × S → Type 0 where
    success :
        {v : A} {after : S} → fn s ≡ (returned v, after) → Ended retries n u s (returned v, after)
    refused :
        {error : Failure} {after : S}
        → fn s ≡ (failed error, after)
        → is_permanent error ≡ true
        → Ended retries n u s (failed (rejection opts.conditional_create u error), after)
    gave_up :
        {error : Failure} {after : S}
        → fn s ≡ (failed error, after)
        → is_permanent error ≡ false
        → n ≡ retries
        → Ended retries n u s (
          failed (exhausted opts.conditional_create (u || not (is_throttled error)) error),
          after,
        )

  pub record Outcome (retries i : ℕ) (u : Bool) (s : S) (end : Reply A × S) : Type 0 where
    pub attempts : ℕ
    pub bound : attempts ≤ retries
    pub unknown : Bool
    pub state : S
    pub before : Retried attempts i u s unknown state
    pub last : Ended retries attempts unknown state end

  one_more :
      (left n : ℕ) (u : Bool) (s : S) (end : Reply A × S)
      → Ended left n u s end
      → Ended (suc left) (suc n) u s end
  one_more left n u s end (success h) = success h
  one_more left n u s end (refused h k) = refused h k
  one_more left n u s end (gave_up h k m) = gave_up h k (ap suc m)

  again :
      (left i : ℕ) (u : Bool) (s next : S) (error : Failure) (end : Reply A × S)
      → fn s ≡ (failed error, next)
      → is_permanent error ≡ false
      → Outcome left
          (suc i)
          (u || not (is_throttled error))
          (sleep (storage_retry_delay_millis jitter error i opts.backoff_ms) next)
          end
      → Outcome (suc left) i u s end
  again left i u s next error end e p o = record {
    attempts = suc o.attempts;
    bound = omega (arith, o.bound);
    unknown = o.unknown;
    state = o.state;
    before = and_again e p o.before;
    last = one_more left o.attempts o.unknown o.state end o.last;
  }

  at_once :
      (left i : ℕ) (u : Bool) (s : S) (end : Reply A × S)
      → Ended left zero u s end
      → Outcome left i u s end
  at_once left i u s end e = record {
    attempts = zero;
    bound = omega arith;
    unknown = u;
    state = s;
    before = none_yet;
    last = e;
  }

  last_attempt :
      (i : ℕ) (u : Bool) (s : S) → Ended zero zero u s (retry_loop jitter sleep fn opts zero i u s)
  unfolding retry_loop
  last_attempt i u s = of (fn s) refl
    where
      of :
          (r : Reply A × S)
          → fn s ≡ r
          → Ended zero zero u s (retry_loop jitter sleep fn opts zero i u s)
      of (returned v, next) e = rw (retry_loop, reply_of e, state_of e) (success e)
      of (failed error, next) e = elim (Bool-cases (is_permanent error)) [
        | inl p ↦ rw (retry_loop, reply_of e, p, state_of e) (refused e p)
        | inr p ↦ rw (retry_loop, reply_of e, p, state_of e) (gave_up e p refl)
      ]

  attempt_or_again :
      (left i : ℕ) (u : Bool) (s : S)
      → ((error : Failure) (next : S)
          → Outcome left
              (suc i)
              (u || not (is_throttled error))
              (sleep (storage_retry_delay_millis jitter error i opts.backoff_ms) next)
              (retry_loop jitter sleep fn opts left
                (suc i)
                (u || not (is_throttled error))
                (sleep (storage_retry_delay_millis jitter error i opts.backoff_ms) next)))
      → Outcome (suc left) i u s (retry_loop jitter sleep fn opts (suc left) i u s)
  unfolding retry_loop
  attempt_or_again left i u s rest = of (fn s) refl
    where
      of :
          (r : Reply A × S)
          → fn s ≡ r
          → Outcome (suc left) i u s (retry_loop jitter sleep fn opts (suc left) i u s)
      of (returned v, next) e =
          rw (retry_loop, reply_of e, state_of e) (at_once (suc left) i u s _ (success e))
      of (failed error, next) e = elim (Bool-cases (is_permanent error)) [
        | inl p ↦
            rw (retry_loop, reply_of e, p, state_of e) (at_once (suc left) i u s _ (refused e p))
        | inr p ↦
            rw (retry_loop, reply_of e, p, state_of e)
              (again left i u s next error _ e p (rest error next))
      ]

  retry_loop-Outcome :
      (left i : ℕ) (u : Bool) (s : S)
      → Outcome left i u s (retry_loop jitter sleep fn opts left i u s)
  retry_loop-Outcome zero i u s =
      at_once zero i u s (retry_loop jitter sleep fn opts zero i u s) (last_attempt i u s)
  retry_loop-Outcome (suc left) i u s = attempt_or_again left i u s (λ error next.
      retry_loop-Outcome left (suc i) (u || not (is_throttled error))
        (sleep (storage_retry_delay_millis jitter error i opts.backoff_ms) next))

  -- A call makes at most one attempt more than the retries, and ends with its last attempt.
  pub retry_storage_call-Outcome :
      (retries : ℕ) (s : S)
      → Asks opts retries
      → Outcome retries zero false s (retry_storage_call jitter sleep fn opts s)
  unfolding retry_storage_call
  retry_storage_call-Outcome retries s a =
      rw (retry_storage_call, a.asked, ltb_of_le max_safe_integer retries a.safe)
        (retry_loop-Outcome retries zero false s)

  retry_loop_reaches :
      (n left i : ℕ) (u w : Bool) (s found : S) (v : A) (end : S)
      → n ≤ left
      → Retried n i u s w found
      → fn found ≡ (returned v, end)
      → retry_loop jitter sleep fn opts left i u s ≡ (returned v, end)
  unfolding retry_loop
  retry_loop_reaches n zero i u w s found v end b none_yet h =
      rw (retry_loop, reply_of h, state_of h) refl
  retry_loop_reaches n (suc left) i u w s found v end b none_yet h =
      rw (retry_loop, reply_of h, state_of h) refl
  retry_loop_reaches n zero i u w s found v end b (and_again e p r) h = absurd (omega (arith, b))
  retry_loop_reaches _ (suc left) i u w s found v end b
        (and_again {n = m} {next = next} {error = error} e p r) h =
      rw (retry_loop, reply_of e, p, state_of e)
        (retry_loop_reaches m left (suc i) (u || not (is_throttled error)) w
          (sleep (storage_retry_delay_millis jitter error i opts.backoff_ms) next) found v end
          (omega (arith, b)) r h)

  -- Where the options ask for a number of retries: if the first attempts, at most as many as
  -- the retries, fail in a way that is worth another attempt, and the next attempt succeeds,
  -- then the call returns its value.
  pub retry_storage_call_reaches :
      (n retries : ℕ) (w : Bool) (s found end : S) (v : A)
      → Asks opts retries
      → n ≤ retries
      → Retried n zero false s w found
      → fn found ≡ (returned v, end)
      → retry_storage_call jitter sleep fn opts s ≡ (returned v, end)
  unfolding retry_storage_call
  retry_storage_call_reaches n retries w s found end v a b r h =
      rw (retry_storage_call, a.asked, ltb_of_le max_safe_integer retries a.safe)
        (retry_loop_reaches n retries zero false w s found v end b r h)
