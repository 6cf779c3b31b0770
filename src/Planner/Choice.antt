-- ===== src/Planner/Choice.antt =====
-- server/src/query-planner.ts, `planQuery`: the candidates among the declared indexes, and the choice.
use baerly_storage.Common.{
  ℕ, suc, ◌+◌, ◌==◌, ltb, Text, Bool, true, false, ◌&&◌, not, Option, none, some, List, [], ◌∷◌,
  length, if◌then◌else◌,
}
use baerly_storage.Common.Int.{ℤ}
use baerly_storage.Json.{JsonValue}
use baerly_storage.Query.{PredicateWire}
use baerly_storage.Implication.Check.{predicate_implies}
use baerly_storage.Planner.{map_get, RangeAcc, Partition, no_clauses, partition_onto}

-- `on`: one field or a tuple of fields.
pub data IndexOn : Type 0 where
  single : Text → IndexOn
  composite : List Text → IndexOn

pub record IndexDefinition : Type 0 where
  pub name : Text
  pub on : IndexOn
  pub predicate : Option PredicateWire

abbrev pub fields_on : IndexOn → List Text
fields_on (single field) = field ∷ []
fields_on (composite fields) = fields

pub data Tail : Type 0 where
  range_tail : Text → RangeAcc → Tail
  in_tail : Text → List JsonValue → Tail

pub record IndexWalkPlan : Type 0 where
  pub index_name : Text
  pub equality_keys : List JsonValue
  pub range_on : Option (Text × RangeAcc)
  pub in_on : Option (Text × List JsonValue)

pub data Reason : Type 0 where
  no_predicate no_indexes_declared no_matching_index predicate_uses_operators_only : Reason

pub data QueryPlan : Type 0 where
  index_walk : IndexWalkPlan → QueryPlan
  full_scan : Reason → QueryPlan

pub record Candidate : Type 0 where
  pub index : IndexDefinition
  pub def_index : ℕ
  pub prefix_len : ℕ
  pub equality_keys : List JsonValue
  pub tail : Option Tail

abbrev pub in_fanout_threshold : ℕ
in_fanout_threshold = 50

unfoldable pub tail_of : Partition → Text → Option Tail
unfolding map_get
tail_of p field = elim (map_get field p.range_acc) [
  | some range ↦ some (range_tail field range)
  | none ↦ elim (map_get field p.in_ops) [ some values ↦ some (in_tail field values) | none ↦ none ]
]

-- The walk along the fields of an index.
unfoldable pub consume : Partition → List Text → List JsonValue × Option Tail
unfolding tail_of map_get
consume p [] = ([], none)
consume p (field ∷ fields) =
    let rest = consume p fields in
    elim (map_get field p.equality) [ some v ↦ (v ∷ rest.0, rest.1) | none ↦ ([], tail_of p field) ]

abbrev pub tail_length : Option Tail → ℕ
tail_length none = 0
tail_length (some t) = 1

abbrev pub candidate_of : ℕ → IndexDefinition → List JsonValue × Option Tail → Candidate
candidate_of i d found = record {
  index = d;
  def_index = i;
  prefix_len = length found.0 + tail_length found.1;
  equality_keys = found.0;
  tail = found.1;
}

unfoldable pub candidates_from : Partition → ℕ → List IndexDefinition → List Candidate
unfolding consume
candidates_from p i [] = []
candidates_from p i (d ∷ defs) =
    let rest = candidates_from p (suc i) defs in
    let found = consume p (fields_on d.on) in
    if length found.0 + tail_length found.1 == 0 then rest else candidate_of i d found ∷ rest

abbrev no_entries : {A : Type 0} → List A → Bool
no_entries [] = true
no_entries _ = false

unfoldable pub walk_plan : Candidate → IndexWalkPlan
walk_plan best = record {
  index_name = best.index.name;
  equality_keys = best.equality_keys;
  range_on = elim best.tail [
    | none ↦ none
    | some tail ↦ elim tail [ range_tail field range ↦ some (field, range) | in_tail _ _ ↦ none ]
  ];
  in_on = elim best.tail [
    | none ↦ none
    | some tail ↦ elim tail [ range_tail _ _ ↦ none | in_tail field values ↦ some (field, values) ]
  ];
}

abbrev pub fans_out : Option Tail → Bool
fans_out (some (in_tail field values)) = ltb in_fanout_threshold (length values)
fans_out _ = false

unfoldable pub choose : List Candidate → QueryPlan
unfolding walk_plan
choose [] = full_scan no_matching_index
choose (best ∷ others) =
    if fans_out best.tail then full_scan no_matching_index else index_walk (walk_plan best)

module _ (number_of : JsonValue → Option ℤ) where
  -- The cost rank of an index for a predicate.
  unfoldable pub rank : PredicateWire → IndexDefinition → ℕ
  unfolding predicate_implies
  rank wire d = elim d.predicate [
    | none ↦ 1
    | some filter ↦ if predicate_implies number_of filter wire then 0 else 2
  ]

  -- Whether the comparison of two candidates is negative.
  unfoldable pub precedes : PredicateWire → Candidate → Candidate → Bool
  unfolding rank
  precedes wire a b =
      let a_rank = rank wire a.index in
      let b_rank = rank wire b.index in
      if not (a_rank == b_rank)
      then ltb a_rank b_rank
      else if not (b.prefix_len == a.prefix_len)
      then ltb b.prefix_len a.prefix_len
      else ltb a.def_index b.def_index

  unfoldable pub insert_candidate : PredicateWire → Candidate → List Candidate → List Candidate
  unfolding precedes
  insert_candidate wire c [] = c ∷ []
  insert_candidate wire c (d ∷ ds) =
      let rest = insert_candidate wire c ds in if precedes wire d c then d ∷ rest else c ∷ (d ∷ ds)

  unfoldable pub sort_candidates : PredicateWire → List Candidate → List Candidate
  unfolding insert_candidate
  sort_candidates wire [] = []
  sort_candidates wire (c ∷ cs) = insert_candidate wire c (sort_candidates wire cs)

  unfoldable pub plan_query : Option PredicateWire → List IndexDefinition → QueryPlan
  unfolding partition_onto candidates_from sort_candidates choose
  plan_query none indexes = full_scan no_predicate
  plan_query (some []) indexes = full_scan no_predicate
  plan_query (some (c ∷ clauses)) [] = full_scan no_indexes_declared
  plan_query (some (c ∷ clauses)) (d ∷ indexes) =
      let wire = c ∷ clauses in
      let p = partition_onto number_of no_clauses wire in
      if no_entries p.equality && no_entries p.range_acc && no_entries p.in_ops
      then full_scan predicate_uses_operators_only
      else choose (sort_candidates wire (candidates_from p 0 (d ∷ indexes)))
