-- ===== src/Retry.antt =====
-- protocol/src/storage/retry.ts: one storage request under the retry policy of the adapters.
-- The request, the backoff sleep and the jitter are parameters: `fn` and `sleep` act on a state `S`
-- of the world, and `jitter i ceiling` is `random() * ceiling` before retry `i`.
pub mod Outcomes
pub mod Applied
use baerly_storage.Common.{
  ℕ, zero, suc, ◌+◌, ◌*◌, ◌^◌, ◌-◌, min, ltb, Bool, true, false, ◌&&◌, ◌||◌, not, Option, none,
  some, get_or, if◌then◌else◌,
}
use baerly_storage.Common.Int.{ℤ, pos, negsuc}
use baerly_storage.Errors.{
  Code, invalid_config, network_error, access_denied, invalid_response, write_conflict,
  is_write_conflict,
}

-- What a call throws: a `BaerlyError` with its code and cause, or something else. A cause is a
-- record with `throttled`, `retryAfterSeconds` and `notApplied`, or another error.
mutual
  pub data Failure : Type 0 where
    baerly : Code → Cause → Failure
    foreign : Failure

  pub data Cause : Type 0 where
    no_cause : Cause
    details : Bool → Option ℕ → Bool → Cause
    wraps : Failure → Cause

pub data Reply {ℓ} (A : Type ℓ) : Type ℓ where
  returned : A → Reply A
  failed : Failure → Reply A

-- A number as an option holds it; `fractional` stands for all that is no integer.
pub data JsNumber : Type 0 where
  whole : ℤ → JsNumber
  fractional : JsNumber

pub record StorageRetryOptions : Type 0 where
  pub retries : Option JsNumber
  pub backoff_ms : Option ℕ
  pub conditional_create : Bool

abbrev pub storage_retry_max_attempts : ℕ
storage_retry_max_attempts = 3

abbrev pub storage_retry_transient_base_millis : ℕ
storage_retry_transient_base_millis = 50

abbrev pub storage_retry_throttle_base_millis : ℕ
storage_retry_throttle_base_millis = 1000

abbrev pub storage_retry_max_delay_millis : ℕ
storage_retry_max_delay_millis = 20000

abbrev pub max_safe_integer : ℕ
max_safe_integer = 2 ^ 53 - 1

unfoldable pub permanent_code : Code → Bool
permanent_code access_denied = true
permanent_code invalid_config = true
permanent_code invalid_response = true
permanent_code write_conflict = true
permanent_code _ = false

unfoldable pub is_permanent : Failure → Bool
unfolding permanent_code
is_permanent (baerly code cause) = permanent_code code
is_permanent foreign = false

unfoldable pub is_throttled : Failure → Bool
is_throttled (baerly code (details throttled after applied)) = throttled
is_throttled _ = false

unfoldable pub retry_after_millis : Failure → Option ℕ
retry_after_millis (baerly code (details throttled (some seconds) applied)) = some (seconds * 1000)
retry_after_millis _ = none

-- The error that a permanent failure ends the loop with.
unfoldable pub rejection : Bool → Bool → Failure → Failure
unfolding is_write_conflict
rejection conditional uncertain (baerly code cause) =
    if conditional && (uncertain && not (is_write_conflict code))
    then baerly network_error (wraps (baerly code cause))
    else baerly code cause
rejection conditional uncertain foreign = foreign

-- A throttled error's cause is a record.
abbrev pub with_not_applied : Cause → Cause
with_not_applied (details throttled after applied) = details throttled after true
with_not_applied _ = details false none true

-- The error that the last attempt ends the loop with.
unfoldable pub exhausted : Bool → Bool → Failure → Failure
exhausted conditional uncertain (baerly code cause) =
    if conditional && not uncertain then baerly code (with_not_applied cause) else baerly code cause
exhausted conditional uncertain foreign = foreign

module _ (jitter : ℕ → ℕ → ℕ) where
  unfoldable pub storage_retry_delay_millis : Failure → ℕ → Option ℕ → ℕ
  unfolding retry_after_millis is_throttled
  storage_retry_delay_millis error retry_index backoff_ms = elim (retry_after_millis error) [
    | some hint ↦ min hint storage_retry_max_delay_millis
    | none ↦
        let base = get_or backoff_ms (
          if is_throttled error
          then storage_retry_throttle_base_millis
          else storage_retry_transient_base_millis) in
        jitter retry_index (min storage_retry_max_delay_millis (base * 2 ^ retry_index))
  ]

module _ {S : Type 0} {A : Type 0} (jitter : ℕ → ℕ → ℕ) (sleep : ℕ → S → S) (fn : S → Reply A × S)
    (opts : StorageRetryOptions) where
  -- The loop from an attempt on, with the number of retries that are left.
  unfoldable pub retry_loop : ℕ → ℕ → Bool → S → Reply A × S
  unfolding is_permanent is_throttled rejection exhausted storage_retry_delay_millis
  retry_loop zero attempt uncertain s =
      let r = fn s in
      elim r.0 [
        | returned v ↦ (returned v, r.1)
        | failed error ↦
            if is_permanent error
            then (failed (rejection opts.conditional_create uncertain error), r.1)
            else (
              failed
                  (exhausted opts.conditional_create (uncertain || not (is_throttled error)) error),
              r.1,
            )
      ]
  retry_loop (suc left) attempt uncertain s =
      let r = fn s in
      elim r.0 [
        | returned v ↦ (returned v, r.1)
        | failed error ↦
            let rest =
              retry_loop left (suc attempt) (uncertain || not (is_throttled error))
                (sleep (storage_retry_delay_millis jitter error attempt opts.backoff_ms) r.1) in
            if is_permanent error
            then (failed (rejection opts.conditional_create uncertain error), r.1)
            else rest
      ]

  unfoldable pub retry_storage_call : S → Reply A × S
  unfolding retry_loop
  retry_storage_call s = elim (get_or opts.retries (whole (pos (storage_retry_max_attempts - 1)))) [
    | fractional ↦ (failed (baerly invalid_config no_cause), s)
    | whole n ↦ elim n [
      | negsuc m ↦ (failed (baerly invalid_config no_cause), s)
      | pos retries ↦
          if ltb max_safe_integer retries
          then (failed (baerly invalid_config no_cause), s)
          else retry_loop retries 0 false s
    ]
  ]
