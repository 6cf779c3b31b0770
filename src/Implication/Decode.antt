-- ===== src/Implication/Decode.antt =====
-- What the operators collected from a query's clauses say of a value that meets them.
use baerly_storage.Common.{
  ◌≡◌, sym, Bool, true, false, Option, none, some, List, [], ◌∷◌, All, Option-cases, Bool-cases,
  inl, inr,
}
use baerly_storage.Common.Int.{ℤ}
use baerly_storage.Json.{JsonValue}
use baerly_storage.Query.{OpName, eq, gt, gte, lt, lte, one_of, PredicateClause, members}
use baerly_storage.Query.Scalars.{is_scalar}
use baerly_storage.Query.Scalars.Order.{Above, Below, compare_gt-Above, compare_lt-Below}
use baerly_storage.Query.Matches.{matches_op}
use baerly_storage.Query.Satisfiable.Holds.{
  HasScalars, IsMember, matches_eq-scalar, matches_in-scalar, some-inj,
}
use baerly_storage.Implication.{
  RangeInfo, OperatorBundle, array_value, tightest_lo, tightest_hi, decode_clause, decode_onto,
}
use baerly_storage.Implication.Groups.{AreAlike, HasAlike, Met}
use baerly_storage.Implication.Bounds.{IsAbove, IsBelow}
use baerly_storage.Implication.Tightest.{tightest_lo_intro, tightest_hi_intro}

abbrev pub Pinned : JsonValue → Option JsonValue → Type 0
Pinned x none = Unit
Pinned x (some e) = (e ≡ x) × (is_scalar x ≡ true)

abbrev pub Listed : JsonValue → Option (List JsonValue) → Type 0
Listed x none = Unit
Listed x (some set) = IsMember x set × AreAlike set

abbrev pub AboveLo : JsonValue → Option RangeInfo → Type 0
AboveLo x none = Unit
AboveLo x (some b) = IsAbove x b

abbrev pub BelowHi : JsonValue → Option RangeInfo → Type 0
BelowHi x none = Unit
BelowHi x (some b) = IsBelow x b

pub record Fits (q : OperatorBundle) (x : JsonValue) : Type 0 where
  pub pinned : Pinned x q.equal
  pub listed : Listed x q.in_set
  pub lo : AboveLo x q.lo
  pub hi : BelowHi x q.hi

pub bundle-inj : (a b : OperatorBundle) → some a ≡ some b → a ≡ b
bundle-inj a b h = cc

module _ (number_of : JsonValue → Option ℤ) where
  tightest_lo-AboveLo :
      (x : JsonValue) (lo : Option RangeInfo) (n : RangeInfo)
      → AboveLo x lo
      → IsAbove x n
      → IsAbove x (tightest_lo number_of lo n)
  unfolding tightest_lo
  tightest_lo-AboveLo x none n h k = k
  tightest_lo-AboveLo x (some a) n h k = tightest_lo_intro number_of (IsAbove x) a n h k

  tightest_hi-BelowHi :
      (x : JsonValue) (hi : Option RangeInfo) (n : RangeInfo)
      → BelowHi x hi
      → IsBelow x n
      → IsBelow x (tightest_hi number_of hi n)
  unfolding tightest_hi
  tightest_hi-BelowHi x none n h k = k
  tightest_hi-BelowHi x (some a) n h k = tightest_hi_intro number_of (IsBelow x) a n h k

  lower-Fits :
      (x value : JsonValue) (i : Bool) (b : OperatorBundle)
      → Above x value i
      → Fits b x
      → Fits
          (record b {
            lo = some (tightest_lo number_of b.lo (record { value = value; inclusive = i }));
          })
          x
  lower-Fits x value i b a h = record {
    pinned = h.pinned;
    listed = h.listed;
    lo = tightest_lo-AboveLo x b.lo (record { value = value; inclusive = i }) h.lo a;
    hi = h.hi;
  }

  upper-Fits :
      (x value : JsonValue) (i : Bool) (b : OperatorBundle)
      → Below x value i
      → Fits b x
      → Fits
          (record b {
            hi = some (tightest_hi number_of b.hi (record { value = value; inclusive = i }));
          })
          x
  upper-Fits x value i b a h = record {
    pinned = h.pinned;
    listed = h.listed;
    lo = h.lo;
    hi = tightest_hi-BelowHi x b.hi (record { value = value; inclusive = i }) h.hi a;
  }

  decode_clause-Fits :
      (op : OpName) (value x : JsonValue) (b next : OperatorBundle)
      → HasScalars op value
      → HasAlike op value
      → matches_op op value (some x) ≡ true
      → Fits b x
      → decode_clause number_of op value b ≡ some next
      → Fits next x
  unfolding decode_clause matches_op
  decode_clause-Fits eq value x b next s a m h e =
      let same = some-inj x value (matches_eq-scalar value (some x) s m) in
      rw (← bundle-inj _ next e)
        (record { pinned = (sym same, rw same s); listed = h.listed; lo = h.lo; hi = h.hi })
  decode_clause-Fits gte value x b next s a m h e =
      rw (← bundle-inj _ next e) (lower-Fits x value true b (compare_gt-Above x value true m) h)
  decode_clause-Fits gt value x b next s a m h e =
      rw (← bundle-inj _ next e) (lower-Fits x value false b (compare_gt-Above x value false m) h)
  decode_clause-Fits lte value x b next s a m h e =
      rw (← bundle-inj _ next e) (upper-Fits x value true b (compare_lt-Below x value true m) h)
  decode_clause-Fits lt value x b next s a m h e =
      rw (← bundle-inj _ next e) (upper-Fits x value false b (compare_lt-Below x value false m) h)
  decode_clause-Fits one_of value x b next s a m h e = elim (Option-cases b.in_set) [
    | inr (set, k) ↦ cc (rw k at e)
    | inl k ↦ elim (Bool-cases (array_value value)) [
      | inr w ↦ cc (rw (k, w) at e)
      | inl w ↦
          let (y, same, mem) = matches_in-scalar (members value) (some x) s m in
          let it = some-inj x y same in
          rw (← bundle-inj _ next (rw (k, w) at e))
            (record { pinned = h.pinned; listed = (rw it mem, a); lo = h.lo; hi = h.hi })
    ]
  ]

  pub decode_onto-Fits :
      (x : JsonValue) (cs : List PredicateClause) (b q : OperatorBundle)
      → All (Met x) cs
      → Fits b x
      → decode_onto number_of b cs ≡ some q
      → Fits q x
  unfolding decode_onto
  decode_onto-Fits x [] b q m h e = rw (← bundle-inj b q e) h
  decode_onto-Fits x (c ∷ cs) b q m h e =
      elim (Option-cases (decode_clause number_of c.op c.value b)) [
        | inl k ↦ cc (rw (k, decode_onto) at e)
        | inr (next, k) ↦
            decode_onto-Fits x cs next q m.1
              (decode_clause-Fits c.op c.value x b next m.0.scalars m.0.alike m.0.met h k)
              (rw (k, decode_onto) at e)
      ]
