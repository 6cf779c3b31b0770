-- ===== src/Log/Adoption.antt =====
-- server/src/log-conflict-adoption.ts: whether the entry found in a slot is the one just sent.
-- The stringified entries are compared as values: both sides come from one minted entry whose key
-- order the round trip through JSON keeps.
use native.Mathlib.Decide.{ℕ_discrete}
use baerly_storage.Common.{
  ◌==◌, text_eq, if◌then◌else◌, Bool, true, false, ◌≡◌, refl, Bool-cases, inl, inr, arith,
  text_eq_refl,
}
use baerly_storage.CurrentJson.Bodies.{LogEntry}

pub LogEntry-discrete : Discrete LogEntry
LogEntry-discrete = hlevel ℕ_discrete

pub data AdoptionDecision : Type 0 where
  adopt : LogEntry → AdoptionDecision
  foreign_session wrong_seq intent_mismatch : AdoptionDecision

unfoldable pub same_intent : LogEntry → LogEntry → Bool
same_intent existing self = elim (LogEntry-discrete existing self) [ yes e ↦ true | no n ↦ false ]

unfoldable pub try_adopt_own_session_log_entry : LogEntry → LogEntry → AdoptionDecision
unfolding same_intent
try_adopt_own_session_log_entry self existing =
    if text_eq existing.session self.session
    then (if existing.seq == self.seq
        then (if same_intent existing self then adopt existing else intent_mismatch)
        else wrong_seq)
    else foreign_session

same_intent_refl : (e : LogEntry) → same_intent e e ≡ true
unfolding same_intent
same_intent_refl e =
    elim (LogEntry-discrete e e) as (λ d. elim d [ yes q ↦ true | no n ↦ false ] ≡ true) [
      | yes q ↦ refl
      | no n ↦ absurd (n refl)
    ]

same_intent_sound : (a b : LogEntry) → same_intent a b ≡ true → a ≡ b
unfolding same_intent
same_intent_sound a b =
    elim (LogEntry-discrete a b) as (λ d. elim d [ yes q ↦ true | no n ↦ false ] ≡ true → a ≡ b) [
      | yes q ↦ λ h. q
      | no n ↦ λ h. cc
    ]

-- An entry that is adopted is the one that was sent.
pub adopts :
    (self existing e : LogEntry)
    → try_adopt_own_session_log_entry self existing ≡ adopt e
    → (existing ≡ self) × (e ≡ self)
unfolding try_adopt_own_session_log_entry
adopts self existing e h = elim (Bool-cases (same_intent existing self)) [
  | inl t ↦ let q = same_intent_sound existing self t in (q, ground (arith, q))
  | inr f ↦ absurd (ground arith)
]

-- It is adopted.
pub adopts_self : (self : LogEntry) → try_adopt_own_session_log_entry self self ≡ adopt self
unfolding try_adopt_own_session_log_entry
adopts_self self = rw (text_eq_refl self.session, same_intent_refl self) (ground arith)
