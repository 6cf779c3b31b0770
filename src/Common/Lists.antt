-- ===== src/Common/Lists.antt =====
-- Lists measured by native numbers, and predicates over all items.
use Prim.Native.Nat.{ℕ, suc, ◌+◌}
use mathlib.Core.Path.{◌≡◌, refl, sym, subst}
use mathlib.Core.Logic.{◌⊎◌, inl, inr}
use mathlib.Core.Bool.{Bool, true, false, ◌&&◌, ◌||◌}
use mathlib.Core.List.{List, [], ◌∷◌, ◌++◌}
use native.Mathlib.Omega.{arith}

module _ {ℓ} {A : Type ℓ} where
  abbrev pub length : List A → ℕ
  length [] = 0
  length (x ∷ xs) = suc (length xs)

  abbrev pub all : (A → Bool) → List A → Bool
  all p [] = true
  all p (x ∷ xs) = p x && all p xs

  abbrev pub any : (A → Bool) → List A → Bool
  any p [] = false
  any p (x ∷ xs) = p x || any p xs

  pub length-append : (xs ys : List A) → length (xs ++ ys) ≡ length xs + length ys
  length-append [] ys = omega arith
  length-append (x ∷ xs) ys = omega (arith, length-append xs ys)

module _ {ℓ κ} {A : Type ℓ} (P : A → Type κ) where
  abbrev pub All : List A → Type κ
  All [] = Unit
  All (x ∷ xs) = P x × All xs

  pub All-append : (xs ys : List A) → All xs → All ys → All (xs ++ ys)
  All-append [] ys hx hy = hy
  All-append (x ∷ xs) ys hx hy = (hx.0, All-append xs ys hx.1 hy)

  pub All_of_append : (xs ys : List A) → All (xs ++ ys) → All xs × All ys
  All_of_append [] ys h = (tt, h)
  All_of_append (x ∷ xs) ys h = let (hx, hy) = All_of_append xs ys h.1 in ((h.0, hx), hy)

-- `x` stands in the list.
pub data In {ℓ} {A : Type ℓ} (x : A) : List A → Type ℓ where
  here : {y : A} {ys : List A} → x ≡ y → In x (y ∷ ys)
  there : {y : A} {ys : List A} → In x ys → In x (y ∷ ys)

module _ {ℓ} {A : Type ℓ} where
  pub In-cons_cases : (x y : A) (ys : List A) → In x (y ∷ ys) → (x ≡ y) ⊎ In x ys
  In-cons_cases x y ys (here e) = inl e
  In-cons_cases x y ys (there i) = inr i

module _ {ℓ κ} {A : Type ℓ} (P : A → Type κ) where
  pub All-In : (x : A) {l : List A} → All P l → In x l → P x
  All-In x h (here e) = subst P (sym e) h.0
  All-In x h (there i) = All-In x h.1 i

  pub In-All : (l : List A) → ((x : A) → In x l → P x) → All P l
  In-All [] h = tt
  In-All (x ∷ l) h = (h x (here refl), In-All l (λ y i. h y (there i)))
