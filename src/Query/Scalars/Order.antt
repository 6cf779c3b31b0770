-- ===== src/Query/Scalars/Order.antt =====
-- The order of strings and of numbers, and what a range clause says of the value it accepts.
use baerly_storage.Common.{
  ◌≡◌, refl, Bool, true, false, ◌&&◌, not, some, arith, Bool-cases, inl, inr, if◌then◌else◌,
}
use baerly_storage.Json.{JsonValue, num, str}
use baerly_storage.Query.Scalars.{
  same_comparable_type, scalar_lt, scalar_lt_irrefl, scalar_lt_trans, scalar_lt_connex,
}
use baerly_storage.Query.Matches.{compare_gt, compare_lt}

pub same_type_sym :
    (a b : JsonValue) → same_comparable_type a b ≡ true → same_comparable_type b a ≡ true
unfolding same_comparable_type
same_type_sym (str a) (str b) h = refl
same_type_sym (num a) (num b) h = refl
same_type_sym _ _ h = cc

-- Two values that compare with a third compare with one another.
pub same_type_via :
    (x a b : JsonValue)
    → same_comparable_type x a ≡ true
    → same_comparable_type x b ≡ true
    → same_comparable_type a b ≡ true
unfolding same_comparable_type
same_type_via (str x) (str a) (str b) h k = refl
same_type_via (num x) (num a) (num b) h k = refl
same_type_via _ _ _ h k = cc

pub scalar_lt_asymm : (a b : JsonValue) → scalar_lt a b ≡ true → scalar_lt b a ≡ false
scalar_lt_asymm a b h = ground (arith, scalar_lt_trans a b a h, scalar_lt_irrefl a)

-- a < b ≤ c
pub lt_le_trans :
    (a b c : JsonValue)
    → same_comparable_type b c ≡ true
    → scalar_lt a b ≡ true
    → scalar_lt c b ≡ false
    → scalar_lt a c ≡ true
lt_le_trans a b c t h k = elim (Bool-cases (scalar_lt b c)) [
  | inl e ↦ scalar_lt_trans a b c h e
  | inr e ↦ rw (← scalar_lt_connex b c t e k) h
]

-- a ≤ b < c
pub le_lt_trans :
    (a b c : JsonValue)
    → same_comparable_type a b ≡ true
    → scalar_lt b a ≡ false
    → scalar_lt b c ≡ true
    → scalar_lt a c ≡ true
le_lt_trans a b c t h k = elim (Bool-cases (scalar_lt a b)) [
  | inl e ↦ scalar_lt_trans a b c e k
  | inr e ↦ rw (scalar_lt_connex a b t e h) k
]

-- a ≤ b ≤ c
pub le_le_trans :
    (a b c : JsonValue)
    → same_comparable_type a b ≡ true
    → scalar_lt b a ≡ false
    → scalar_lt c b ≡ false
    → scalar_lt c a ≡ false
le_le_trans a b c t h k = elim (Bool-cases (scalar_lt c a)) [
  | inl e ↦ ground (arith, lt_le_trans c a b t e h)
  | inr e ↦ e
]

-- `x` is above the bound `b`.
pub record Above (x b : JsonValue) (inclusive : Bool) : Type 0 where
  pub same : same_comparable_type x b ≡ true
  pub not_below : scalar_lt x b ≡ false
  pub strict : (if inclusive then true else scalar_lt b x) ≡ true

pub record Below (x b : JsonValue) (inclusive : Bool) : Type 0 where
  pub same : same_comparable_type x b ≡ true
  pub not_above : scalar_lt b x ≡ false
  pub strict : (if inclusive then true else scalar_lt x b) ≡ true

compare_gt-scalar :
    (x b : JsonValue) (i : Bool)
    → compare_gt (some x) b i
      ≡ (same_comparable_type x b && (if i then not (scalar_lt x b) else scalar_lt b x))
unfolding compare_gt same_comparable_type scalar_lt
compare_gt-scalar (str x) (str b) i = refl
compare_gt-scalar (num x) (num b) i = refl
compare_gt-scalar _ _ i = refl

compare_lt-scalar :
    (x b : JsonValue) (i : Bool)
    → compare_lt (some x) b i
      ≡ (same_comparable_type x b && (if i then not (scalar_lt b x) else scalar_lt x b))
unfolding compare_lt same_comparable_type scalar_lt
compare_lt-scalar (str x) (str b) i = refl
compare_lt-scalar (num x) (num b) i = refl
compare_lt-scalar _ _ i = refl

-- A range clause accepts exactly the values of the bound's type on the right side of it.
pub compare_gt-Above : (x b : JsonValue) (i : Bool) → compare_gt (some x) b i ≡ true → Above x b i
compare_gt-Above x b i h = record {
  same = ground (arith, compare_gt-scalar x b i);
  not_below = ground (arith, compare_gt-scalar x b i, scalar_lt_asymm b x);
  strict = ground (arith, compare_gt-scalar x b i);
}

pub compare_lt-Below : (x b : JsonValue) (i : Bool) → compare_lt (some x) b i ≡ true → Below x b i
compare_lt-Below x b i h = record {
  same = ground (arith, compare_lt-scalar x b i);
  not_above = ground (arith, compare_lt-scalar x b i, scalar_lt_asymm x b);
  strict = ground (arith, compare_lt-scalar x b i);
}

pub Above-compare_gt : (x b : JsonValue) (i : Bool) → Above x b i → compare_gt (some x) b i ≡ true
Above-compare_gt x b i h = ground (arith, compare_gt-scalar x b i)

pub Below-compare_lt : (x b : JsonValue) (i : Bool) → Below x b i → compare_lt (some x) b i ≡ true
Below-compare_lt x b i h = ground (arith, compare_lt-scalar x b i)
