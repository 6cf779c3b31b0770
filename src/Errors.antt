-- ===== src/Errors.antt =====
-- protocol/src/errors.ts: the error codes, and a call that may throw one.
use baerly_storage.Common.{◌≡◌, refl, ap, ◌∙◌, ◌⊎◌, inl, inr, Bool, true, false}
use mathlib.Core.Path.{subst}

pub data Code : Type 0 where
  invalid_config network_error access_denied invalid_response internal schema_error : Code
  write_conflict already_exists ambiguous_commit capacity_exceeded unauthorized not_found : Code
  payload_too_large unsatisfiable_predicate use_query_awaited_recorder : Code
  unexpected_write_in_query mutation_failed : Code

-- The value of a call, or the code of the error that it throws.
pub data Result {ℓ} (A : Type ℓ) : Type ℓ where
  err : Code → Result A
  ok : A → Result A

module _ {ℓ κ} {A : Type ℓ} {B : Type κ} where
  infixl 5 ◌>>=◌
  abbrev pub ◌>>=◌ : Result A → (A → Result B) → Result B
  err code >>= continue = err code
  ok value >>= continue = continue value

  infixl 5 ◌>>◌
  abbrev pub ◌>>◌ : Result A → Result B → Result B
  call >> rest = call >>= λ value. rest

-- `if (test) throw new BaerlyError(code, …)`.
abbrev pub throw_if : Bool → Code → Result (Unit {0})
throw_if true c = err c
throw_if false c = ok tt

unfoldable pub is_write_conflict : Code → Bool
is_write_conflict write_conflict = true
is_write_conflict _ = false

-- To split on a call that may throw, and keep the equation.
pub Result-cases {ℓ} :
    {A : Type ℓ} (r : Result A) → ((a : A) × (r ≡ ok a)) ⊎ ((c : Code) × (r ≡ err c))
Result-cases (ok a) = inl (a, refl)
Result-cases (err c) = inr (c, refl)

-- A chain that did not throw has a head that did not.
module _ {ℓ κ} {A : Type ℓ} {B : Type κ} where
  pub >>=-eq-ok :
      (call : Result A) (continue : A → Result B) {end : B}
      → (call >>= continue) ≡ ok end
      → (value : A) × (call ≡ ok value) × (continue value ≡ ok end)
  >>=-eq-ok (err code) continue h = cc
  >>=-eq-ok (ok value) continue h = (value, refl, h)

pub throw_if-ok : (b : Bool) (c : Code) → throw_if b c ≡ ok tt → b ≡ false
throw_if-ok true c h = cc
throw_if-ok false c h = refl

pub >>-eq-ok {ℓ} :
    {B : Type ℓ} (t : Bool) (c : Code) (n : Result B) {b : B}
    → (throw_if t c >> n) ≡ ok b
    → (t ≡ false) × (n ≡ ok b)
>>-eq-ok true c n h = cc
>>-eq-ok false c n h = (refl, h)

pub ok-inj {ℓ} : {A : Type ℓ} {a b : A} → ok a ≡ ok b → a ≡ b
ok-inj h = cc

-- `P` holds of the result, if there is one. A chain of calls is walked from its head.
abbrev pub Ensures {ℓ κ} : {A : Type ℓ} → (A → Type κ) → Result A → Type κ
Ensures P (ok a) = P a
Ensures P (err c) = Unit

module _ {ℓ κ} {B : Type ℓ} (P : B → Type κ) where
  pub Ensures-bind {ν} :
      {A : Type ν} (m : Result A) (f : A → Result B)
      → ((a : A) → m ≡ ok a → Ensures P (f a))
      → Ensures P (m >>= f)
  Ensures-bind (ok a) f h = h a refl
  Ensures-bind (err c) f h = tt

  pub Ensures-throw :
      (t : Bool) (c : Code) (n : Result B)
      → (t ≡ false → Ensures P n)
      → Ensures P (throw_if t c >> n)
  Ensures-throw true c n h = tt
  Ensures-throw false c n h = h refl

  pub Ensures-ok : (m : Result B) (b : B) → Ensures P m → m ≡ ok b → P b
  Ensures-ok (ok a) b h e = subst P (ok-inj e) h
  Ensures-ok (err c) b h e = cc

pub >>=-ok {ℓ κ} :
    {A : Type ℓ} {B : Type κ} (m : Result A) (f : A → Result B) (a : A) (r : Result B)
    → m ≡ ok a
    → f a ≡ r
    → (m >>= f) ≡ r
>>=-ok (ok x) f a r e h = ap f (ok-inj e) ∙ h
>>=-ok (err c) f a r e h = cc
