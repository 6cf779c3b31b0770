-- ===== src/Implication/Tightest.antt =====
-- The tightest of two bounds.
use baerly_storage.Common.{
  ◌≡◌, refl, Bool, true, false, ◌&&◌, not, Option, some, Bool-cases, inl, inr, if◌then◌else◌, ◌⊎◌,
}
use baerly_storage.Common.Int.{ℤ}
use baerly_storage.Json.{JsonValue}
use baerly_storage.Query.Scalars.{same_comparable_type, scalar_lt, scalar_lt_connex}
use baerly_storage.Query.Scalars.Order.{same_type_sym}
use baerly_storage.Implication.{RangeInfo, same_typeof, js_lt, tightest_lo, tightest_hi}
use baerly_storage.Implication.Bounds.{
  IsAbove, IsBelow, comparable-same_typeof, js_lt-scalar_lt, Above-lt, Below-lt, Above-loosen,
  Below-loosen, if_intro,
}

strict_new : (i j : Bool) → (not i && j) ≡ true → (j ≡ true) ⊎ (i ≡ false)
strict_new false j w = inr refl
strict_new true j w = cc

strict_old : (i j : Bool) → (not i && j) ≡ false → (i ≡ true) ⊎ (j ≡ false)
strict_old true j w = inl refl
strict_old false j w = inr w

module _ (number_of : JsonValue → Option ℤ) where
  -- The tightest of two bounds is one of them.
  pub tightest_lo_intro :
      (P : RangeInfo → Type 0) (a n : RangeInfo) → P a → P n → P (tightest_lo number_of (some a) n)
  unfolding tightest_lo
  tightest_lo_intro P a n p q = if_intro P (not (same_typeof a.value n.value)) p (
      if_intro P (js_lt number_of a.value n.value) q (
        if_intro P (js_lt number_of n.value a.value) p
          (if_intro P (not n.inclusive && a.inclusive) q p)))

  pub tightest_hi_intro :
      (P : RangeInfo → Type 0) (a n : RangeInfo) → P a → P n → P (tightest_hi number_of (some a) n)
  unfolding tightest_hi
  tightest_hi_intro P a n p q = if_intro P (not (same_typeof a.value n.value)) p (
      if_intro P (js_lt number_of n.value a.value) q (
        if_intro P (js_lt number_of a.value n.value) p
          (if_intro P (not n.inclusive && a.inclusive) q p)))

  -- The tightest of two bounds of one type is at least as strict as both.
  pub tightest_lo-Above :
      (x : JsonValue) (a n : RangeInfo)
      → same_comparable_type a.value n.value ≡ true
      → IsAbove x (tightest_lo number_of (some a) n)
      → IsAbove x a × IsAbove x n
  unfolding tightest_lo
  tightest_lo-Above x a n t h =
      let e = comparable-same_typeof a.value n.value t in
      let up = js_lt-scalar_lt number_of a.value n.value t in
      let down = js_lt-scalar_lt number_of n.value a.value (same_type_sym a.value n.value t) in
      elim (Bool-cases (scalar_lt a.value n.value)) [
        | inl l ↦
            let k : IsAbove x n = rw (e, up, l) at h in
            (Above-lt x a.value n.value a.inclusive n.inclusive l t k, k)
        | inr l ↦ elim (Bool-cases (scalar_lt n.value a.value)) [
          | inl g ↦
              let k : IsAbove x a = rw (e, up, l, down, g) at h in
              (
                k,
                Above-lt x n.value a.value n.inclusive a.inclusive g
                    (same_type_sym a.value n.value t) k,
              )
          | inr g ↦
              let same = scalar_lt_connex a.value n.value t l g in
              let k : IsAbove x (if not n.inclusive && a.inclusive then n else a) =
                rw (e, up, l, down, g) at h in
              elim (Bool-cases (not n.inclusive && a.inclusive)) [
                | inl w ↦
                    let m : IsAbove x n = rw w at k in
                    (
                      rw same (
                          Above-loosen x n.value a.inclusive n.inclusive
                            (strict_new n.inclusive a.inclusive w) m),
                      m,
                    )
                | inr w ↦
                    let m : IsAbove x a = rw w at k in
                    (
                      m,
                      rw (← same) (
                          Above-loosen x a.value n.inclusive a.inclusive
                            (strict_old n.inclusive a.inclusive w) m),
                    )
              ]
        ]
      ]

  pub tightest_hi-Below :
      (x : JsonValue) (a n : RangeInfo)
      → same_comparable_type a.value n.value ≡ true
      → IsBelow x (tightest_hi number_of (some a) n)
      → IsBelow x a × IsBelow x n
  unfolding tightest_hi
  tightest_hi-Below x a n t h =
      let e = comparable-same_typeof a.value n.value t in
      let up = js_lt-scalar_lt number_of a.value n.value t in
      let down = js_lt-scalar_lt number_of n.value a.value (same_type_sym a.value n.value t) in
      elim (Bool-cases (scalar_lt n.value a.value)) [
        | inl l ↦
            let k : IsBelow x n = rw (e, down, l) at h in
            (Below-lt x a.value n.value a.inclusive n.inclusive l t k, k)
        | inr l ↦ elim (Bool-cases (scalar_lt a.value n.value)) [
          | inl g ↦
              let k : IsBelow x a = rw (e, down, l, up, g) at h in
              (
                k,
                Below-lt x n.value a.value n.inclusive a.inclusive g
                    (same_type_sym a.value n.value t) k,
              )
          | inr g ↦
              let same = scalar_lt_connex a.value n.value t g l in
              let k : IsBelow x (if not n.inclusive && a.inclusive then n else a) =
                rw (e, down, l, up, g) at h in
              elim (Bool-cases (not n.inclusive && a.inclusive)) [
                | inl w ↦
                    let m : IsBelow x n = rw w at k in
                    (
                      rw same (
                          Below-loosen x n.value a.inclusive n.inclusive
                            (strict_new n.inclusive a.inclusive w) m),
                      m,
                    )
                | inr w ↦
                    let m : IsBelow x a = rw w at k in
                    (
                      m,
                      rw (← same) (
                          Below-loosen x a.value n.inclusive a.inclusive
                            (strict_old n.inclusive a.inclusive w) m),
                    )
              ]
        ]
      ]
