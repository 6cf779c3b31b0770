-- ===== src/Implication/Check.antt =====
-- server/src/query-planner-implies.ts: whether the operators of a query prove those of a filter.
use baerly_storage.Common.{
  Bool, true, false, ◌&&◌, not, Option, none, some, List, [], ◌∷◌, if◌then◌else◌, any,
}
use baerly_storage.Common.Int.{ℤ}
use baerly_storage.Json.{JsonValue}
use baerly_storage.Query.{PredicateClause, PredicateWire}
use baerly_storage.Query.Scalars.{deep_equal_document_value}
use baerly_storage.Implication.{
  ClauseGroups, OperatorBundle, RangeInfo, all_contained, clauses_of, decode_group,
  group_clauses_onto, js_lt, same_typeof,
}

module _ (number_of : JsonValue → Option ℤ) where
  unfoldable pub lower_bound_implies : RangeInfo → Option RangeInfo → Bool
  unfolding same_typeof js_lt
  lower_bound_implies lo_f none = false
  lower_bound_implies lo_f (some lo_q) =
      if not (same_typeof lo_f.value lo_q.value)
      then false
      else if js_lt number_of lo_f.value lo_q.value
      then true
      else if js_lt number_of lo_q.value lo_f.value
      then false
      else if lo_f.inclusive
      then true
      else not lo_q.inclusive

  unfoldable pub upper_bound_implies : RangeInfo → Option RangeInfo → Bool
  unfolding same_typeof js_lt
  upper_bound_implies hi_f none = false
  upper_bound_implies hi_f (some hi_q) =
      if not (same_typeof hi_f.value hi_q.value)
      then false
      else if js_lt number_of hi_q.value hi_f.value
      then true
      else if js_lt number_of hi_f.value hi_q.value
      then false
      else if hi_f.inclusive
      then true
      else not hi_q.inclusive

  -- The `reduce` over a set.
  unfoldable pub smallest : JsonValue → List JsonValue → JsonValue
  unfolding js_lt
  smallest acc [] = acc
  smallest acc (v ∷ vs) = smallest (if js_lt number_of v acc then v else acc) vs

  unfoldable pub largest : JsonValue → List JsonValue → JsonValue
  unfolding js_lt
  largest acc [] = acc
  largest acc (v ∷ vs) = largest (if js_lt number_of acc v then v else acc) vs

  abbrev pub ends_of :
      (JsonValue → List JsonValue → JsonValue)
      → Option RangeInfo
      → OperatorBundle
      → Option RangeInfo
  ends_of pick own q = elim q.equal [
    | some v ↦ some (record { value = v; inclusive = true })
    | none ↦ elim q.in_set [
      | none ↦ own
      | some set ↦ elim set [
        | [] ↦ own
        | v ∷ vs ↦ some (record { value = pick v (v ∷ vs); inclusive = true })
      ]
    ]
  ]

  unfoldable pub lo_from_query : OperatorBundle → Option RangeInfo
  unfolding smallest
  lo_from_query q = ends_of smallest q.lo q

  unfoldable pub hi_from_query : OperatorBundle → Option RangeInfo
  unfolding largest
  hi_from_query q = ends_of largest q.hi q

  abbrev pub implied_lo : Option RangeInfo → OperatorBundle → Bool
  implied_lo none q = true
  implied_lo (some lo) q = lower_bound_implies lo (lo_from_query q)

  abbrev pub implied_hi : Option RangeInfo → OperatorBundle → Bool
  implied_hi none q = true
  implied_hi (some hi) q = upper_bound_implies hi (hi_from_query q)

  -- One field of the filter.
  unfoldable pub bundle_implies : OperatorBundle → OperatorBundle → Bool
  unfolding lower_bound_implies upper_bound_implies lo_from_query hi_from_query all_contained
  bundle_implies f q = elim f.equal [
    | some v ↦ elim q.equal [ none ↦ false | some w ↦ deep_equal_document_value w v ]
    | none ↦ elim f.in_set [
      | some set ↦ elim q.equal [
        | some w ↦ any (λ m. deep_equal_document_value m w) set
        | none ↦ elim q.in_set [ none ↦ false | some ws ↦ all_contained ws set ]
      ]
      | none ↦ implied_lo f.lo q && implied_hi f.hi q
    ]
  ]

  unfoldable pub group_implied : List PredicateClause → Option (List PredicateClause) → Bool
  unfolding decode_group bundle_implies
  group_implied filter_clauses none = false
  group_implied filter_clauses (some query_clauses) = elim (decode_group number_of filter_clauses) [
    | none ↦ false
    | some f ↦ elim (decode_group number_of query_clauses) [
      | none ↦ false
      | some q ↦ bundle_implies f q
    ]
  ]

  unfoldable pub groups_implied : ClauseGroups → ClauseGroups → Bool
  unfolding group_implied clauses_of
  groups_implied [] query_groups = true
  groups_implied ((field, clauses) ∷ groups) query_groups =
      group_implied clauses (clauses_of field query_groups) && groups_implied groups query_groups

  unfoldable pub predicate_implies : PredicateWire → PredicateWire → Bool
  unfolding groups_implied group_clauses_onto
  predicate_implies index_filter query =
      groups_implied (group_clauses_onto [] index_filter) (group_clauses_onto [] query)
