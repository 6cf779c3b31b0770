-- ===== src/Planner/Walks.antt =====
-- The plan of a walk: what a document that satisfies the predicate has in the fields of the index.
use baerly_storage.Common.{
  ℕ, suc, ◌+◌, ◌==◌, ◌≤◌, ◌<◌, length, ◌≡◌, refl, Text, Bool, true, false, Option, none, some, List,
  [], ◌∷◌, All, In, here, there, In-cons_cases, arith, if◌then◌else◌, Option-cases, Bool-cases, inl,
  inr,
}
use baerly_storage.Common.Int.{ℤ}
use baerly_storage.Json.{JsonValue, Fields}
use baerly_storage.Query.{PredicateWire}
use baerly_storage.Query.Matches.{matches_wire, lookup_path}
use baerly_storage.Query.Satisfiable.Holds.{AllScalar}
use baerly_storage.Planner.{map_get, RangeAcc, Partition, no_clauses, partition_onto}
use baerly_storage.Planner.Choice.{
  IndexDefinition, fields_on, Tail, range_tail, in_tail, IndexWalkPlan, QueryPlan, index_walk,
  full_scan, predicate_uses_operators_only, Candidate, tail_of, consume, tail_length,
  candidates_from, walk_plan, fans_out, sort_candidates, choose, plan_query,
}
use baerly_storage.Planner.Partitioned.{InRange, InSet, Known, partition_onto-Known}
use baerly_storage.Planner.Within.{map_get-All}
use baerly_storage.Planner.Ranks.{sort_candidates-Best, rank_of}

-- The fields of an index start with the keys of a walk, and the next one lies in its tail.
pub data Reads (doc : Fields) : List Text → List JsonValue → Option Tail → Type 0 where
  stop : {fields : List Text} → Reads doc fields [] none
  ranged :
      {field : Text} {fields : List Text} {range : RangeAcc}
      → InRange doc (field, range)
      → Reads doc (field ∷ fields) [] (some (range_tail field range))
  listed :
      {field : Text} {fields : List Text} {values : List JsonValue}
      → InSet doc (field, values)
      → Reads doc (field ∷ fields) [] (some (in_tail field values))
  pinned :
      {field : Text} {fields : List Text} {v : JsonValue} {keys : List JsonValue}
      {tail : Option Tail}
      → lookup_path doc field ≡ some v
      → Reads doc fields keys tail
      → Reads doc (field ∷ fields) (v ∷ keys) tail

tail_of-Reads :
    (doc : Fields) (p : Partition) (field : Text) (fields : List Text)
    → Known doc p
    → Reads doc (field ∷ fields) [] (tail_of p field)
unfolding tail_of
tail_of-Reads doc p field fields h = elim (Option-cases (map_get field p.range_acc)) [
  | inr (range, e) ↦
      rw (tail_of, e) (ranged (map_get-All (InRange doc) field range p.range_acc h.ranges e))
  | inl e ↦ elim (Option-cases (map_get field p.in_ops)) [
    | inr (values, k) ↦
        rw (tail_of, e, k) (listed (map_get-All (InSet doc) field values p.in_ops h.sets k))
    | inl k ↦ rw (tail_of, e, k) stop
  ]
]

consume-Reads :
    (doc : Fields) (p : Partition) (fields : List Text)
    → Known doc p
    → Reads doc fields (consume p fields).0 (consume p fields).1
unfolding consume
consume-Reads doc p [] h = stop
consume-Reads doc p (field ∷ fields) h = elim (Option-cases (map_get field p.equality)) [
  | inr (v, e) ↦
      rw (consume, e)
        (pinned (map_get-All (λ e. lookup_path doc e.0 ≡ some e.1) field v p.equality h.equality e)
          (consume-Reads doc p fields h))
  | inl e ↦ rw (consume, e) (tail_of-Reads doc p field fields h)
]

-- The candidate of a declared index.
pub record FromIndex (p : Partition) (defs : List IndexDefinition) (c : Candidate) : Type 0 where
  pub declared : In c.index defs
  pub keys : c.equality_keys ≡ (consume p (fields_on c.index.on)).0
  pub tail : c.tail ≡ (consume p (fields_on c.index.on)).1
  pub consumed : 0 < length c.equality_keys + tail_length c.tail

pub candidates_from-FromIndex :
    (p : Partition) (i : ℕ) (defs : List IndexDefinition) (c : Candidate)
    → In c (candidates_from p i defs)
    → FromIndex p defs c
unfolding candidates_from
candidates_from-FromIndex p i [] c h = elim h [ ]
candidates_from-FromIndex p i (d ∷ defs) c h =
    let len = length (consume p (fields_on d.on)).0 + tail_length (consume p (fields_on d.on)).1 in
    elim (Bool-cases (len == 0)) [
      | inl e ↦ behind (candidates_from-FromIndex p (suc i) defs c (rw (candidates_from, e) at h))
      | inr e ↦
          elim (In-cons_cases c _ (candidates_from p (suc i) defs) (rw (candidates_from, e) at h)) [
            | inr k ↦ behind (candidates_from-FromIndex p (suc i) defs c k)
            | inl k ↦
                rw k (record {
                  declared = here refl;
                  keys = refl;
                  tail = refl;
                  consumed = ground arith;
                })
          ]
    ]
  where
    behind : FromIndex p defs c → FromIndex p (d ∷ defs) c
    behind f = record {
      declared = there f.declared;
      keys = f.keys;
      tail = f.tail;
      consumed = f.consumed;
    }

abbrev pub tail_from : IndexWalkPlan → Option Tail
tail_from plan = elim plan.range_on [
  | some (field, range) ↦ some (range_tail field range)
  | none ↦ elim plan.in_on [ some (field, values) ↦ some (in_tail field values) | none ↦ none ]
]

-- A plan that walks a declared index, and what the document has in its fields.
pub record Walked (doc : Fields) (indexes : List IndexDefinition) (plan : IndexWalkPlan)
    (index : IndexDefinition) : Type 0 where
  pub declared : In index indexes
  pub named : index.name ≡ plan.index_name
  pub reads : Reads doc (fields_on index.on) plan.equality_keys (tail_from plan)
  pub consumed : 0 < length plan.equality_keys + tail_length (tail_from plan)
  pub lists : fans_out (tail_from plan) ≡ false

tail_from-walk_plan : (c : Candidate) → tail_from (walk_plan c) ≡ c.tail
unfolding walk_plan
tail_from-walk_plan c = of c.tail
  where
    of : (t : Option Tail) → tail_from (walk_plan (record c { tail = t })) ≡ t
    of none = refl
    of (some (range_tail field range)) = refl
    of (some (in_tail field values)) = refl

choose-cases :
    (best : Candidate) (others : List Candidate) (plan : IndexWalkPlan)
    → choose (best ∷ others) ≡ index_walk plan
    → (walk_plan best ≡ plan) × (fans_out best.tail ≡ false)
unfolding choose
choose-cases best others plan h = elim (Bool-cases (fans_out best.tail)) [
  | inl e ↦ cc (rw (choose, e) at h)
  | inr e ↦ (cc (rw (choose, e) at h), e)
]

module _ (number_of : JsonValue → Option ℤ) where
  -- The candidate behind a plan that walks an index.
  pub record Chosen (wire : PredicateWire) (indexes : List IndexDefinition) (plan : IndexWalkPlan)
      : Type 0 where
    pub best : Candidate
    pub planned : walk_plan best ≡ plan
    pub fits : fans_out best.tail ≡ false
    pub origin : FromIndex (partition_onto number_of no_clauses wire) indexes best
    pub least :
        All
          (λ c. rank_of number_of wire best ≤ rank_of number_of wire c)
          (candidates_from (partition_onto number_of no_clauses wire) 0 indexes)

  choose-Chosen :
      (wire : PredicateWire) (indexes : List IndexDefinition) (plan : IndexWalkPlan)
      (cs : List Candidate)
      → candidates_from (partition_onto number_of no_clauses wire) 0 indexes ≡ cs
      → choose (sort_candidates number_of wire cs) ≡ index_walk plan
      → Chosen wire indexes plan
  unfolding choose sort_candidates
  choose-Chosen wire indexes plan [] e h = cc h
  choose-Chosen wire indexes plan (c ∷ cs) e h =
      let p = partition_onto number_of no_clauses wire in
      let b = sort_candidates-Best number_of wire c cs in
      let (planned, fits) =
        choose-cases b.best b.others plan (rw (sort_candidates, b.sorted_as) at h) in
      record {
        best = b.best;
        planned = planned;
        fits = fits;
        origin = candidates_from-FromIndex p 0 indexes b.best (rw e b.listed);
        least = rw e b.least;
      }

  pub plan_query-Chosen :
      (wire : PredicateWire) (indexes : List IndexDefinition) (plan : IndexWalkPlan)
      → plan_query number_of (some wire) indexes ≡ index_walk plan
      → Chosen wire indexes plan
  unfolding plan_query
  plan_query-Chosen [] indexes plan h = cc h
  plan_query-Chosen (c ∷ wire) [] plan h = cc h
  plan_query-Chosen (c ∷ wire) (d ∷ indexes) plan h =
      choose-Chosen (c ∷ wire) (d ∷ indexes) plan _ refl (routed _ _ plan h)
    where
      routed :
          (t : Bool) (q : QueryPlan) (plan : IndexWalkPlan)
          → (if t then full_scan predicate_uses_operators_only else q) ≡ index_walk plan
          → q ≡ index_walk plan
      routed true q plan h = cc
      routed false q plan h = h

  pub Chosen-Walked :
      (wire : PredicateWire) (indexes : List IndexDefinition) (plan : IndexWalkPlan) (doc : Fields)
      → AllScalar wire
      → (c : Chosen wire indexes plan) → matches_wire wire doc ≡ true
      → Walked doc indexes plan c.best.index
  unfolding walk_plan
  Chosen-Walked wire indexes plan doc s c m =
      let p = partition_onto number_of no_clauses wire in
      let known =
        partition_onto-Known number_of doc wire no_clauses s m
          (record { equality = tt; ranges = tt; sets = tt }) in
      let same = tail_from-walk_plan c.best in
      rw (← c.planned) (record {
        declared = c.origin.declared;
        named = refl;
        reads =
            rw (same, c.origin.keys, c.origin.tail)
              (consume-Reads doc p (fields_on c.best.index.on) known);
        consumed = rw same c.origin.consumed;
        lists = rw same c.fits;
      })

  -- Where the equality and membership values of a predicate are scalars: a plan that walks an
  -- index names a declared one and consumes at least one of its fields, with a set in its tail
  -- only of at most 50 values; a document that satisfies the predicate has the keys of the plan
  -- in the first fields of the index, in their order, and in the next field a value within the
  -- range, or in the set, of its tail.
  pub plan_query-Walked :
      (wire : PredicateWire) (indexes : List IndexDefinition) (plan : IndexWalkPlan) (doc : Fields)
      → AllScalar wire
      → plan_query number_of (some wire) indexes ≡ index_walk plan
      → matches_wire wire doc ≡ true
      → (index : IndexDefinition) × Walked doc indexes plan index
  plan_query-Walked wire indexes plan doc s h m =
      let c = plan_query-Chosen wire indexes plan h in
      (c.best.index, Chosen-Walked wire indexes plan doc s c m)
