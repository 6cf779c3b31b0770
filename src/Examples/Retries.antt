-- ===== src/Examples/Retries.antt =====
-- Requests under the retry policy.
use baerly_storage.Common.{
  ℕ, zero, suc, ◌≡◌, refl, sym, ap, ◌∙◌, Bool, true, false, none, some, inr, arith,
}
use baerly_storage.Errors.{network_error, access_denied}
use baerly_storage.Retry.{
  Failure, Reply, baerly, no_cause, details, returned, failed, StorageRetryOptions, is_permanent,
  permanent_code, is_throttled, retry_storage_call,
}
use baerly_storage.Retry.Outcomes.{none_yet, and_again, retry_storage_call_reaches}
use baerly_storage.Retry.Applied.{retry_storage_call-Same, KeepsState, not_applied}

abbrev jitter : ℕ → ℕ → ℕ
jitter i ceiling = ceiling

abbrev sleep : ℕ → ℕ → ℕ
sleep t s = s

-- The first request is lost, the others return how many were before.
abbrev flaky : ℕ → Reply ℕ × ℕ
flaky zero = (failed (baerly network_error no_cause), 1)
flaky (suc n) = (returned (suc n), suc (suc n))

abbrev options : StorageRetryOptions
options = record { retries = none; backoff_ms = none; conditional_create = true }

retry_storage_call_reaches_example :
    retry_storage_call jitter sleep flaky options 0 ≡ (returned 1, 2)
unfolding is_permanent permanent_code is_throttled
retry_storage_call_reaches_example =
    retry_storage_call_reaches jitter sleep flaky options 1 2 true 0 1 2 1
      (record { asked = refl; safe = omega arith }) (omega arith) (and_again refl refl none_yet)
      refl

-- The store throttles once, and then denies access. The state counts the requests and holds a flag.
abbrev denying : ℕ × Bool → Reply ℕ × (ℕ × Bool)
denying (zero, b) = (failed (baerly network_error (details true (some 1) false)), (1, b))
denying (suc n, b) = (failed (baerly access_denied no_cause), (suc (suc n), b))

abbrev wait : ℕ → ℕ × Bool → ℕ × Bool
wait t s = s

abbrev SameFlag : ℕ × Bool → ℕ × Bool → Type 0
SameFlag a b = a.1 ≡ b.1

state_of_denying :
    (s next : ℕ × Bool) (e : Failure) → denying s ≡ (failed e, next) → SameFlag s next
state_of_denying (zero, b) next e h = ap (λ r. r.1.1) h
state_of_denying (suc n, b) next e h = ap (λ r. r.1.1) h

abbrev marked : Reply ℕ → Bool
marked (returned v) = false
marked (failed e) = not_applied e

denying_unmarked :
    (s next : ℕ × Bool) (e : Failure) → denying s ≡ (failed e, next) → not_applied e ≡ false
denying_unmarked (zero, b) next e h = sym (ap (λ r. marked r.0) h)
denying_unmarked (suc n, b) next e h = sym (ap (λ r. marked r.0) h)

denying-KeepsState : KeepsState SameFlag wait denying
denying-KeepsState = record {
  same_refl = λ s. refl;
  same_trans = λ a b c p q. p ∙ q;
  sleep_same = λ t s. refl;
  throttled_same = λ s next e h k. state_of_denying s next e h;
  denied_same = λ s next e h k. state_of_denying s next e h;
  unmarked = denying_unmarked;
}

retry_storage_call-Same_example : SameFlag (0, true) (2, true)
unfolding retry_storage_call
retry_storage_call-Same_example =
    retry_storage_call-Same SameFlag jitter wait denying options denying-KeepsState 2 (0, true)
      (baerly access_denied no_cause) (2, true) (record { asked = refl; safe = omega arith }) refl
      refl (inr refl)
