-- ===== src/Common/Decimal.antt =====
-- The decimal digits of a number as text: `${n}` for a non-negative integer.
use baerly_storage.Common.{
  ℕ, zero, suc, ◌+◌, ◌-◌, ◌*◌, ◌/◌, ◌%◌, ◌<◌, ◌≡◌, ap, sym, ◌∙◌, Text, [], ◌∷◌, arith, ◌==◌,
  Bool-cases, inl, inr, if◌then◌else◌,
}

unfoldable pub digits_onto : ℕ → ℕ → Text → Text
digits_onto zero n acc = acc
digits_onto (suc fuel) n acc =
    let shown = (n % 10 + b'0') ∷ acc in
    let rest = digits_onto fuel (n / 10) shown in if n / 10 == 0 then shown else rest

unfoldable pub decimal : ℕ → Text
unfolding digits_onto
decimal n = digits_onto (suc n) n []

-- The number that digits stand for, behind a number already read.
value_onto : ℕ → Text → ℕ
value_onto n [] = n
value_onto n (d ∷ s) = value_onto (n * 10 + (d - b'0')) s

value_onto-digits_onto :
    (fuel n : ℕ) (acc : Text) → n < fuel → value_onto 0 (digits_onto fuel n acc) ≡ value_onto n acc
unfolding digits_onto value_onto
value_onto-digits_onto zero n acc h = elim h [ ]
value_onto-digits_onto (suc fuel) n acc h = elim (Bool-cases (n / 10 == 0)) [
  | inl e ↦ rw e (ap (λ (m : ℕ). value_onto m acc) (ground arith))
  | inr e ↦ rw e (
      value_onto-digits_onto fuel (n / 10) ((n % 10 + b'0') ∷ acc) (ground arith)
      ∙ ap (λ (m : ℕ). value_onto m acc) (omega arith))
]

pub decimal-injective : (m n : ℕ) → decimal m ≡ decimal n → m ≡ n
unfolding decimal value_onto
decimal-injective m n h =
    sym (value_onto-digits_onto (suc m) m [] (omega arith))
    ∙ ap (value_onto 0) h
    ∙ value_onto-digits_onto (suc n) n [] (omega arith)
