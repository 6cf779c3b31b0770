-- ===== src/Implication/Sound.antt =====
-- A filter that a query implies accepts every document that satisfies the query.
use baerly_storage.Common.{
  ◌≡◌, refl, Text, true, false, ◌&&◌, Option, none, some, List, [], ◌∷◌, All, Option-cases,
  Bool-cases, inl, inr, ◌⊎◌, any, &&_split,
}
use baerly_storage.Common.Int.{ℤ}
use baerly_storage.Json.{JsonValue, Fields}
use baerly_storage.Query.{
  OpName, eq, gt, gte, lt, lte, one_of, PredicateClause, PredicateWire, members,
}
use baerly_storage.Query.Scalars.{deep_equal_document_value, is_scalar}
use baerly_storage.Query.Matches.{matches_op, matches_wire, matches_eq, matches_clause}
use baerly_storage.Query.Satisfiable.Holds.{HasScalars, AllScalar}
use baerly_storage.Implication.{
  RangeInfo, OperatorBundle, no_operators, ClauseGroups, array_value, decode_clause, decode_group,
  decode_onto, clauses_of, group_clauses_onto,
}
use baerly_storage.Implication.Check.{
  bundle_implies, implied_lo, implied_hi, group_implied, groups_implied, predicate_implies,
}
use baerly_storage.Implication.Groups.{
  AllAlike, AllMet, Accepts, Met, group_clauses_onto-AllMet, group_clauses_onto-Accepts,
  clauses_of-AllMet,
}
use baerly_storage.Implication.Bounds.{comparable_right}
use baerly_storage.Implication.Sets.{IsMember-All}
use baerly_storage.Implication.Decode.{
  Pinned, Listed, AboveLo, BelowHi, Fits, decode_onto-Fits, bundle-inj,
}
use baerly_storage.Implication.Ends.{lo_from_query-Above, hi_from_query-Below}
use baerly_storage.Implication.Filter.{
  is_range, deep_equal-matches_eq, contains-matches_in, all_contained-All, SameBound, RangeOver,
  decode_onto-Ranged,
}

-- A single equality or membership over scalars.
pub record Single (c : PredicateClause) (clauses : List PredicateClause) : Type 0 where
  pub alone : clauses ≡ c ∷ []
  pub exact : is_range c.op ≡ false
  pub scalars : HasScalars c.op c.value

-- What a filter asks of a field: one equality or membership, or ranges over one type.
abbrev pub IsPlain : List PredicateClause → Type 0
IsPlain clauses =
    ((c : PredicateClause) × Single c clauses) ⊎ ((v : JsonValue) × All (RangeOver v) clauses)

abbrev pub AllPlain : PredicateWire → Type 0
AllPlain wire = All (λ g. IsPlain g.1) (group_clauses_onto [] wire)

module _ (number_of : JsonValue → Option ℤ) where
  group_decoded :
      (fs qs : List PredicateClause)
      → group_implied number_of fs (some qs) ≡ true
      → (f q : OperatorBundle) × (decode_onto number_of no_operators fs ≡ some f)
        × (decode_onto number_of no_operators qs ≡ some q)
        × (bundle_implies number_of f q ≡ true)
  unfolding group_implied decode_group
  group_decoded fs qs h = elim (Option-cases (decode_onto number_of no_operators fs)) [
    | inl e ↦ cc (rw (e, group_implied, decode_group) at h)
    | inr (f, e) ↦ elim (Option-cases (decode_onto number_of no_operators qs)) [
      | inl k ↦ cc (rw (e, k, group_implied, decode_group) at h)
      | inr (q, k) ↦ (f, q, e, k, rw (e, k, group_implied, decode_group) at h)
    ]
  ]

  equal_implied :
      (v x : JsonValue) (e : Option JsonValue) (s : Option (List JsonValue))
      (lo hi : Option RangeInfo)
      → is_scalar v ≡ true
      → Pinned x e
      → bundle_implies number_of
          (record no_operators { equal = some v })
          (record { equal = e; lo = lo; hi = hi; in_set = s })
        ≡ true
      → matches_eq v (some x) ≡ true
  unfolding bundle_implies
  equal_implied v x none s lo hi k p h = cc h
  equal_implied v x (some w) s lo hi k p h = deep_equal-matches_eq v w x p.0 p.1 k h

  set_implied :
      (set : List JsonValue) (x : JsonValue) (e : Option JsonValue) (s : Option (List JsonValue))
      (lo hi : Option RangeInfo)
      → Pinned x e
      → Listed x s
      → bundle_implies number_of
          (record no_operators { in_set = some set })
          (record { equal = e; lo = lo; hi = hi; in_set = s })
        ≡ true
      → any (λ m. deep_equal_document_value m x) set ≡ true
  unfolding bundle_implies
  set_implied set x (some w) s lo hi p l h = rw (← p.0) h
  set_implied set x none none lo hi p l h = cc h
  set_implied set x none (some ws) lo hi p l h =
      IsMember-All (λ v. any (λ m. deep_equal_document_value m v) set ≡ true) x ws l.0.scalar
        l.0.found (all_contained-All ws set h)

  exact_sound :
      (op : OpName) (field : Text) (value x : JsonValue) (f q : OperatorBundle)
      → is_range op ≡ false
      → HasScalars op value
      → decode_onto number_of no_operators ((record { op = op; field = field; value = value }) ∷ [])
        ≡ some f
      → Fits q x
      → bundle_implies number_of f q ≡ true
      → matches_op op value (some x) ≡ true
  unfolding decode_onto decode_clause matches_op
  exact_sound eq field value x f q o s e t h =
      equal_implied value x q.equal q.in_set q.lo q.hi s t.pinned (rw (← bundle-inj _ f e) at h)
  exact_sound one_of field value x f q o s e t h = elim (Bool-cases (array_value value)) [
    | inr w ↦ cc (rw (w, decode_onto, decode_clause) at e)
    | inl w ↦ contains-matches_in (members value) x s (
        set_implied (members value) x q.equal q.in_set q.lo q.hi t.pinned t.listed
          (rw (← bundle-inj _ f (rw (w, decode_onto, decode_clause) at e)) at h))
  ]
  exact_sound gt field value x f q o s e t h = cc
  exact_sound gte field value x f q o s e t h = cc
  exact_sound lt field value x f q o s e t h = cc
  exact_sound lte field value x f q o s e t h = cc

  lo_implied :
      (v x : JsonValue) (lo : Option RangeInfo) (q : OperatorBundle)
      → SameBound v lo
      → Fits q x
      → implied_lo number_of lo q ≡ true
      → AboveLo x lo
  lo_implied v x none q s t h = tt
  lo_implied v x (some lo) q s t h =
      lo_from_query-Above number_of x lo q.equal q.in_set q.lo q.hi (comparable_right v lo.value s)
        t.pinned t.listed t.lo h

  hi_implied :
      (v x : JsonValue) (hi : Option RangeInfo) (q : OperatorBundle)
      → SameBound v hi
      → Fits q x
      → implied_hi number_of hi q ≡ true
      → BelowHi x hi
  hi_implied v x none q s t h = tt
  hi_implied v x (some hi) q s t h =
      hi_from_query-Below number_of x hi q.equal q.in_set q.lo q.hi (comparable_right v hi.value s)
        t.pinned t.listed t.hi h

  ranges_sound :
      (v x : JsonValue) (fs : List PredicateClause) (f q : OperatorBundle)
      → All (RangeOver v) fs
      → decode_onto number_of no_operators fs ≡ some f
      → Fits q x
      → bundle_implies number_of f q ≡ true
      → All (λ c. matches_op c.op c.value (some x) ≡ true) fs
  unfolding bundle_implies
  ranges_sound v x fs f q o e t h =
      let (ranged, strict) =
        decode_onto-Ranged number_of v x fs no_operators f o
          (record { no_equal = refl; no_set = refl; lo = tt; hi = tt }) e in
      let both : (implied_lo number_of f.lo q && implied_hi number_of f.hi q) ≡ true =
        rw (ranged.no_equal, ranged.no_set) at h in
      let (_, _, met) =
        strict (lo_implied v x f.lo q ranged.lo t ((&&_split _ _ both).0))
          (hi_implied v x f.hi q ranged.hi t ((&&_split _ _ both).1)) in
      met

  group_sound :
      (x : JsonValue) (fs qs : List PredicateClause)
      → IsPlain fs
      → All (Met x) qs
      → group_implied number_of fs (some qs) ≡ true
      → All (λ c. matches_op c.op c.value (some x) ≡ true) fs
  group_sound x fs qs (inl (c, s)) m h =
      let (f, q, e, k, implied) = group_decoded fs qs h in
      let t =
        decode_onto-Fits number_of x qs no_operators q m
          (record { pinned = tt; listed = tt; lo = tt; hi = tt }) k in
      rw s.alone
        (exact_sound c.op c.field c.value x f q s.exact s.scalars (rw s.alone at e) t implied, tt)
  group_sound x fs qs (inr (v, o)) m h =
      let (f, q, e, k, implied) = group_decoded fs qs h in
      let t =
        decode_onto-Fits number_of x qs no_operators q m
          (record { pinned = tt; listed = tt; lo = tt; hi = tt }) k in
      ranges_sound v x fs f q o e t implied

  groups_sound :
      (doc : Fields) (groups query_groups : ClauseGroups)
      → All (λ g. IsPlain g.1) groups
      → All (AllMet doc) query_groups
      → groups_implied number_of groups query_groups ≡ true
      → All (Accepts doc) groups
  unfolding groups_implied group_implied matches_clause
  groups_sound doc [] qs p m h = tt
  groups_sound doc ((field, fs) ∷ groups) qs p m h = elim (Option-cases (clauses_of field qs)) [
    | inl e ↦ cc (rw e at h)
    | inr (cs, e) ↦
        let (x, found, met) = clauses_of-AllMet doc field cs qs m e in
        let both : (group_implied number_of fs (some cs) && groups_implied number_of groups qs)
            ≡ true =
          rw e at h in
        (
          rw found (group_sound x fs cs p.0 met ((&&_split _ _ both).0)),
          groups_sound doc groups qs p.1 m ((&&_split _ _ both).1),
        )
  ]

  -- Where each field of the filter has a single equality or membership over scalars or only
  -- ranges over one type of value, the query's equality and membership values are scalars, and
  -- each of its sets is of one typeof: if the planner takes the filter as implied, every
  -- document that satisfies the query satisfies the filter.
  pub predicate_implies_sound :
      (index_filter query : PredicateWire) (doc : Fields)
      → AllPlain index_filter
      → AllScalar query
      → AllAlike query
      → predicate_implies number_of index_filter query ≡ true
      → matches_wire query doc ≡ true
      → matches_wire index_filter doc ≡ true
  unfolding predicate_implies
  predicate_implies_sound index_filter query doc p s a h m =
      let met = group_clauses_onto-AllMet doc query [] s a m tt in
      let accepts =
        groups_sound doc (group_clauses_onto [] index_filter) (group_clauses_onto [] query) p met
          h in
      let (_, matched) = group_clauses_onto-Accepts doc index_filter [] accepts in matched
