-- ===== src/Implication/Filter.antt =====
-- The group of a filter that a query's operators imply: an equality, a membership, or ranges over
-- bounds of one type.
use baerly_storage.Common.{
  ◌≡◌, refl, Bool, true, false, Option, none, some, List, [], ◌∷◌, All, Bool-cases, inl, inr, any,
}
use baerly_storage.Common.Int.{ℤ}
use baerly_storage.Json.{JsonValue, bool, num, str}
use baerly_storage.Query.{OpName, eq, gt, gte, lt, lte, one_of, PredicateClause}
use baerly_storage.Query.Scalars.{
  same_comparable_type, is_scalar, deep_equal_document_value, deep_equal_document_value_sound,
}
use baerly_storage.Query.Scalars.Order.{Above-compare_gt, Below-compare_lt, same_type_via}
use baerly_storage.Query.Matches.{matches_op, matches_eq, matches_in}
use baerly_storage.Query.Satisfiable.Holds.{AreScalars}
use baerly_storage.Implication.{
  RangeInfo, OperatorBundle, tightest_lo, tightest_hi, decode_clause, decode_onto, all_contained,
}
use baerly_storage.Implication.Bounds.{IsAbove, IsBelow}
use baerly_storage.Implication.Tightest.{
  tightest_lo-Above, tightest_hi-Below, tightest_lo_intro, tightest_hi_intro,
}
use baerly_storage.Implication.Decode.{AboveLo, BelowHi, bundle-inj}

abbrev pub is_range : OpName → Bool
is_range eq = false
is_range one_of = false
is_range _ = true

matches_eq-deep_equal :
    (x y : JsonValue) → is_scalar x ≡ true → matches_eq x (some y) ≡ deep_equal_document_value x y
unfolding matches_eq deep_equal_document_value
matches_eq-deep_equal (bool b) y s = refl
matches_eq-deep_equal (num n) y s = refl
matches_eq-deep_equal (str t) y s = refl
matches_eq-deep_equal _ y s = cc

pub deep_equal-matches_eq :
    (v w x : JsonValue)
    → w ≡ x
    → is_scalar x ≡ true
    → is_scalar v ≡ true
    → deep_equal_document_value w v ≡ true
    → matches_eq v (some x) ≡ true
deep_equal-matches_eq v w x e s k h =
    let same = deep_equal_document_value_sound w v (rw e s) h in
    rw (matches_eq-deep_equal v x k, ← same, ← e) (rw (← same) at h)

pub contains-matches_in :
    (set : List JsonValue) (x : JsonValue)
    → AreScalars set
    → any (λ m. deep_equal_document_value m x) set ≡ true
    → matches_in set (some x) ≡ true
unfolding matches_in
contains-matches_in [] x s h = cc
contains-matches_in (m ∷ ms) x s h = elim (Bool-cases (deep_equal_document_value m x)) [
  | inl e ↦ rw (matches_eq-deep_equal m x s.0, e) refl
  | inr e ↦ rw (matches_eq-deep_equal m x s.0, e) (contains-matches_in ms x s.1 (rw e at h))
]

pub all_contained-All :
    (vs set : List JsonValue)
    → all_contained vs set ≡ true
    → All (λ v. any (λ m. deep_equal_document_value m v) set ≡ true) vs
unfolding all_contained
all_contained-All [] set h = tt
all_contained-All (v ∷ vs) set h =
    elim (Bool-cases (any (λ m. deep_equal_document_value m v) set)) [
      | inl e ↦ (e, all_contained-All vs set (rw e at h))
      | inr e ↦ cc (rw e at h)
    ]

-- The bound, if any, is of the type of `v`.
abbrev pub SameBound : JsonValue → Option RangeInfo → Type 0
SameBound v none = Unit
SameBound v (some b) = same_comparable_type v b.value ≡ true

-- Only ranges over values of the type of `v` have been collected.
pub record Ranged (v : JsonValue) (b : OperatorBundle) : Type 0 where
  pub no_equal : b.equal ≡ none
  pub no_set : b.in_set ≡ none
  pub lo : SameBound v b.lo
  pub hi : SameBound v b.hi

pub record RangeOver (v : JsonValue) (c : PredicateClause) : Type 0 where
  pub range : is_range c.op ≡ true
  pub same : same_comparable_type v c.value ≡ true

module _ (number_of : JsonValue → Option ℤ) where
  lower_step :
      (v x : JsonValue) (lo : Option RangeInfo) (n : RangeInfo)
      → SameBound v lo
      → same_comparable_type v n.value ≡ true
      → (same_comparable_type v (tightest_lo number_of lo n).value ≡ true)
        × (IsAbove x (tightest_lo number_of lo n) → AboveLo x lo × IsAbove x n)
  unfolding tightest_lo
  lower_step v x none n s t = (t, λ h. (tt, h))
  lower_step v x (some a) n s t = (
    tightest_lo_intro number_of (λ b. same_comparable_type v b.value ≡ true) a n s t,
    tightest_lo-Above number_of x a n (same_type_via v a.value n.value s t),
  )

  upper_step :
      (v x : JsonValue) (hi : Option RangeInfo) (n : RangeInfo)
      → SameBound v hi
      → same_comparable_type v n.value ≡ true
      → (same_comparable_type v (tightest_hi number_of hi n).value ≡ true)
        × (IsBelow x (tightest_hi number_of hi n) → BelowHi x hi × IsBelow x n)
  unfolding tightest_hi
  upper_step v x none n s t = (t, λ h. (tt, h))
  upper_step v x (some a) n s t = (
    tightest_hi_intro number_of (λ b. same_comparable_type v b.value ≡ true) a n s t,
    tightest_hi-Below number_of x a n (same_type_via v a.value n.value s t),
  )

  -- A clause that is decoded leaves bounds that are at least as strict as it and as those before.
  record Tightened (v x : JsonValue) (op : OpName) (value : JsonValue) (b next : OperatorBundle)
      : Type 0 where
    decoded : decode_clause number_of op value b ≡ some next
    ranged : Ranged v next
    strict :
        AboveLo x next.lo
        → BelowHi x next.hi
        → AboveLo x b.lo × BelowHi x b.hi × (matches_op op value (some x) ≡ true)

  tighten :
      (v x : JsonValue) (op : OpName) (value : JsonValue) (b : OperatorBundle)
      → is_range op ≡ true
      → same_comparable_type v value ≡ true
      → Ranged v b
      → (next : OperatorBundle) × Tightened v x op value b next
  unfolding decode_clause matches_op
  tighten v x eq value b o t r = cc
  tighten v x one_of value b o t r = cc
  tighten v x gte value b o t r =
      let n : RangeInfo = record { value = value; inclusive = true } in
      let (same, above) = lower_step v x b.lo n r.lo t in
      (
        record b { lo = some (tightest_lo number_of b.lo n) },
        record {
          decoded = refl;
          ranged = record { no_equal = r.no_equal; no_set = r.no_set; lo = same; hi = r.hi };
          strict = λ l h. let (old, new) = above l in (old, h, Above-compare_gt x value true new);
        },
      )
  tighten v x gt value b o t r =
      let n : RangeInfo = record { value = value; inclusive = false } in
      let (same, above) = lower_step v x b.lo n r.lo t in
      (
        record b { lo = some (tightest_lo number_of b.lo n) },
        record {
          decoded = refl;
          ranged = record { no_equal = r.no_equal; no_set = r.no_set; lo = same; hi = r.hi };
          strict = λ l h. let (old, new) = above l in (old, h, Above-compare_gt x value false new);
        },
      )
  tighten v x lte value b o t r =
      let n : RangeInfo = record { value = value; inclusive = true } in
      let (same, below) = upper_step v x b.hi n r.hi t in
      (
        record b { hi = some (tightest_hi number_of b.hi n) },
        record {
          decoded = refl;
          ranged = record { no_equal = r.no_equal; no_set = r.no_set; lo = r.lo; hi = same };
          strict = λ l h. let (old, new) = below h in (l, old, Below-compare_lt x value true new);
        },
      )
  tighten v x lt value b o t r =
      let n : RangeInfo = record { value = value; inclusive = false } in
      let (same, below) = upper_step v x b.hi n r.hi t in
      (
        record b { hi = some (tightest_hi number_of b.hi n) },
        record {
          decoded = refl;
          ranged = record { no_equal = r.no_equal; no_set = r.no_set; lo = r.lo; hi = same };
          strict = λ l h. let (old, new) = below h in (l, old, Below-compare_lt x value false new);
        },
      )

  -- Ranges decode to bounds that are at least as strict as all of them.
  pub decode_onto-Ranged :
      (v x : JsonValue) (cs : List PredicateClause) (b f : OperatorBundle)
      → All (RangeOver v) cs
      → Ranged v b
      → decode_onto number_of b cs ≡ some f
      → Ranged v f
        × (AboveLo x f.lo
            → BelowHi x f.hi
            → AboveLo x b.lo
              × BelowHi x b.hi
              × All (λ c. matches_op c.op c.value (some x) ≡ true) cs)
  unfolding decode_onto
  decode_onto-Ranged v x [] b f o r e = rw (← bundle-inj b f e) (r, λ l h. (l, h, tt))
  decode_onto-Ranged v x (c ∷ cs) b f o r e =
      let (next, t) = tighten v x c.op c.value b o.0.range o.0.same r in
      let (ranged, strict) =
        decode_onto-Ranged v x cs next f o.1 t.ranged (rw (t.decoded, decode_onto) at e) in
      (
        ranged,
        λ l h.
            let (lo, hi, rest) = strict l h in
            let (old_lo, old_hi, met) = t.strict lo hi in (old_lo, old_hi, (met, rest)),
      )
