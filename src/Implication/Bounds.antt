-- ===== src/Implication/Bounds.antt =====
-- A bound that the query proves is at least as strict as the filter's.
use baerly_storage.Common.{
  ◌≡◌, refl, Bool, true, false, not, Option, some, Bool-cases, inl, inr, if◌then◌else◌, ◌⊎◌,
}
use baerly_storage.Common.Int.{ℤ}
use baerly_storage.Json.{JsonValue, num, str}
use baerly_storage.Query.Scalars.{same_comparable_type, scalar_lt, scalar_lt_connex}
use baerly_storage.Query.Scalars.Order.{
  Above, Below, same_type_via, same_type_sym, scalar_lt_asymm, lt_le_trans, le_lt_trans,
}
use baerly_storage.Implication.{RangeInfo, same_typeof, js_lt}
use baerly_storage.Implication.Check.{lower_bound_implies, upper_bound_implies}

-- A string or a number.
abbrev pub is_comparable : JsonValue → Bool
is_comparable v = same_comparable_type v v

pub same_typeof-comparable :
    (a b : JsonValue)
    → is_comparable a ≡ true
    → same_typeof a b ≡ true
    → same_comparable_type a b ≡ true
unfolding same_typeof same_comparable_type
same_typeof-comparable (str a) (str b) c h = refl
same_typeof-comparable (num a) (num b) c h = refl
same_typeof-comparable _ _ c h = cc

pub comparable-same_typeof :
    (a b : JsonValue) → same_comparable_type a b ≡ true → same_typeof a b ≡ true
unfolding same_typeof same_comparable_type
comparable-same_typeof (str a) (str b) h = refl
comparable-same_typeof (num a) (num b) h = refl
comparable-same_typeof _ _ h = cc

pub comparable_right : (a b : JsonValue) → same_comparable_type a b ≡ true → is_comparable b ≡ true
comparable_right a b h = same_type_via a b b h h

abbrev pub IsAbove : JsonValue → RangeInfo → Type 0
IsAbove x b = Above x b.value b.inclusive

abbrev pub IsBelow : JsonValue → RangeInfo → Type 0
IsBelow x b = Below x b.value b.inclusive

-- A value above a bound is above each looser one.
pub Above-lt :
    (x a b : JsonValue) (i j : Bool)
    → scalar_lt a b ≡ true
    → same_comparable_type a b ≡ true
    → Above x b j
    → Above x a i
Above-lt x a b i j h t k =
    let less : scalar_lt a x ≡ true = lt_le_trans a b x (same_type_sym x b k.same) h k.not_below in
    record {
      same = same_type_via b x a (same_type_sym x b k.same) (same_type_sym a b t);
      not_below = scalar_lt_asymm a x less;
      strict = elim (Bool-cases i) [ inl e ↦ rw e refl | inr e ↦ rw (e, less) refl ];
    }

pub Below-lt :
    (x a b : JsonValue) (i j : Bool)
    → scalar_lt b a ≡ true
    → same_comparable_type a b ≡ true
    → Below x b j
    → Below x a i
Below-lt x a b i j h t k =
    let less : scalar_lt x a ≡ true = le_lt_trans x b a k.same k.not_above h in
    record {
      same = same_type_via b x a (same_type_sym x b k.same) (same_type_sym a b t);
      not_above = scalar_lt_asymm x a less;
      strict = elim (Bool-cases i) [ inl e ↦ rw e refl | inr e ↦ rw (e, less) refl ];
    }

pub Above-loosen :
    (x b : JsonValue) (i j : Bool) → (i ≡ true) ⊎ (j ≡ false) → Above x b j → Above x b i
Above-loosen x b i j (inl e) h = record {
  same = h.same;
  not_below = h.not_below;
  strict = rw e refl;
}
Above-loosen x b i j (inr e) h =
    let less : scalar_lt b x ≡ true = rw e at h.strict in
    record {
      same = h.same;
      not_below = h.not_below;
      strict = elim (Bool-cases i) [ inl k ↦ rw k refl | inr k ↦ rw (k, less) refl ];
    }

pub Below-loosen :
    (x b : JsonValue) (i j : Bool) → (i ≡ true) ⊎ (j ≡ false) → Below x b j → Below x b i
Below-loosen x b i j (inl e) h = record {
  same = h.same;
  not_above = h.not_above;
  strict = rw e refl;
}
Below-loosen x b i j (inr e) h =
    let less : scalar_lt x b ≡ true = rw e at h.strict in
    record {
      same = h.same;
      not_above = h.not_above;
      strict = elim (Bool-cases i) [ inl k ↦ rw k refl | inr k ↦ rw (k, less) refl ];
    }

loose_cases : (i j : Bool) → (if i then true else not j) ≡ true → (i ≡ true) ⊎ (j ≡ false)
loose_cases true j h = inl refl
loose_cases false false h = inr refl
loose_cases false true h = cc

pub if_intro :
    {A : Type 0} (P : A → Type 0) (t : Bool) {a b : A} → P a → P b → P (if t then a else b)
if_intro P true p q = p
if_intro P false p q = q

module _ (number_of : JsonValue → Option ℤ) where
  pub js_lt-scalar_lt :
      (a b : JsonValue) → same_comparable_type a b ≡ true → js_lt number_of a b ≡ scalar_lt a b
  unfolding js_lt scalar_lt same_comparable_type
  js_lt-scalar_lt (str a) (str b) h = refl
  js_lt-scalar_lt (num a) (num b) h = refl
  js_lt-scalar_lt _ _ h = cc

  pub lower_bound_implies-Above :
      (x : JsonValue) (f q : RangeInfo)
      → is_comparable f.value ≡ true
      → lower_bound_implies number_of f (some q) ≡ true
      → IsAbove x q
      → IsAbove x f
  unfolding lower_bound_implies
  lower_bound_implies-Above x f q c h k = elim (Bool-cases (same_typeof f.value q.value)) [
    | inr e ↦ cc (rw e at h)
    | inl e ↦
        let t = same_typeof-comparable f.value q.value c e in
        let up = js_lt-scalar_lt f.value q.value t in
        let down = js_lt-scalar_lt q.value f.value (same_type_sym f.value q.value t) in
        elim (Bool-cases (scalar_lt f.value q.value)) [
          | inl l ↦ Above-lt x f.value q.value f.inclusive q.inclusive l t k
          | inr l ↦ elim (Bool-cases (scalar_lt q.value f.value)) [
            | inl g ↦ cc (rw (e, up, l, down, g) at h)
            | inr g ↦
                let same = scalar_lt_connex f.value q.value t l g in
                let looser : (if f.inclusive then true else not q.inclusive) ≡ true =
                  rw (e, up, l, down, g) at h in
                Above-loosen x f.value f.inclusive q.inclusive
                  (loose_cases f.inclusive q.inclusive looser) (rw same k)
          ]
        ]
  ]

  pub upper_bound_implies-Below :
      (x : JsonValue) (f q : RangeInfo)
      → is_comparable f.value ≡ true
      → upper_bound_implies number_of f (some q) ≡ true
      → IsBelow x q
      → IsBelow x f
  unfolding upper_bound_implies
  upper_bound_implies-Below x f q c h k = elim (Bool-cases (same_typeof f.value q.value)) [
    | inr e ↦ cc (rw e at h)
    | inl e ↦
        let t = same_typeof-comparable f.value q.value c e in
        let up = js_lt-scalar_lt f.value q.value t in
        let down = js_lt-scalar_lt q.value f.value (same_type_sym f.value q.value t) in
        elim (Bool-cases (scalar_lt q.value f.value)) [
          | inl l ↦ Below-lt x f.value q.value f.inclusive q.inclusive l t k
          | inr l ↦ elim (Bool-cases (scalar_lt f.value q.value)) [
            | inl g ↦ cc (rw (e, down, l, up, g) at h)
            | inr g ↦
                let same = scalar_lt_connex f.value q.value t g l in
                let looser : (if f.inclusive then true else not q.inclusive) ≡ true =
                  rw (e, down, l, up, g) at h in
                Below-loosen x f.value f.inclusive q.inclusive
                  (loose_cases f.inclusive q.inclusive looser) (rw same k)
          ]
        ]
  ]
