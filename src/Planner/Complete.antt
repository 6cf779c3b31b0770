-- ===== src/Planner/Complete.antt =====
-- Which filter the index of a walk may have.
use mathlib.Core.Path.{subst}
use baerly_storage.Common.{
  ℕ, suc, ◌+◌, ◌==◌, ◌≤◌, ◌<◌, length, ◌≡◌, refl, sym, Bool, true, Option, none, some, List, [],
  ◌∷◌, All, All-In, In, here, there, In-cons_cases, arith, Bool-cases, inl, inr,
}
use baerly_storage.Common.Int.{ℤ}
use baerly_storage.Json.{JsonValue, Fields}
use baerly_storage.Query.{PredicateWire}
use baerly_storage.Query.Matches.{matches_wire}
use baerly_storage.Query.Satisfiable.Holds.{AllScalar}
use baerly_storage.Implication.Check.{predicate_implies}
use baerly_storage.Implication.Groups.{AllAlike}
use baerly_storage.Implication.Sound.{AllPlain, predicate_implies_sound}
use baerly_storage.Planner.{Partition, no_clauses, partition_onto}
use baerly_storage.Planner.Choice.{
  IndexDefinition, fields_on, IndexWalkPlan, index_walk, Candidate, candidate_of, consume,
  tail_length, candidates_from, rank, plan_query,
}
use baerly_storage.Planner.Ranks.{rank_of}
use baerly_storage.Planner.Walks.{Walked, plan_query-Chosen, Chosen-Walked}

-- How many fields of an index a partitioned predicate consumes.
abbrev pub consumed_of : Partition → IndexDefinition → ℕ
consumed_of p d = length (consume p (fields_on d.on)).0 + tail_length (consume p (fields_on d.on)).1

candidates_from-In :
    (p : Partition) (i : ℕ) (d : IndexDefinition) (defs : List IndexDefinition)
    → 0 < consumed_of p d
    → In d defs
    → (c : Candidate) × In c (candidates_from p i defs) × (c.index ≡ d)
unfolding candidates_from
candidates_from-In p i d [] n h = elim h [ ]
candidates_from-In p i d (e ∷ defs) n h = elim (Bool-cases (consumed_of p e == 0)) [
  | inl z ↦ elim (In-cons_cases d e defs h) [
    | inl k ↦ absurd (empty (subst (λ b. consumed_of p b ≡ 0) (sym k) (ground arith)))
    | inr k ↦
        let (c, found, same) = candidates_from-In p (suc i) d defs n k in
        (c, rw (candidates_from, z) found, same)
  ]
  | inr z ↦ elim (In-cons_cases d e defs h) [
    | inl k ↦
        (candidate_of i e (consume p (fields_on e.on)), rw (candidates_from, z) (here refl), sym k)
    | inr k ↦
        let (c, found, same) = candidates_from-In p (suc i) d defs n k in
        (c, rw (candidates_from, z) (there found), same)
  ]
]
  where
    empty : consumed_of p d ≡ 0 → ⊥
    empty z = omega (arith, n, z)

abbrev pub IsPlainFilter : Option PredicateWire → Type 0
IsPlainFilter none = Unit
IsPlainFilter (some filter) = AllPlain filter

-- The writer keeps an entry for the document only if it satisfies the filter of the index.
abbrev pub admits : Option PredicateWire → Fields → Bool
admits none doc = true
admits (some filter) doc = matches_wire filter doc

module _ (number_of : JsonValue → Option ℤ) where
  rank-admits :
      (wire : PredicateWire) (d : IndexDefinition) (filter : Option PredicateWire) (doc : Fields)
      → IsPlainFilter filter
      → AllScalar wire
      → AllAlike wire
      → rank number_of wire (record d { predicate = filter }) ≤ 1
      → matches_wire wire doc ≡ true
      → admits filter doc ≡ true
  unfolding rank
  rank-admits wire d none doc f s a r m = refl
  rank-admits wire d (some filter) doc f s a r m =
      elim (Bool-cases (predicate_implies number_of filter wire)) [
        | inl e ↦ predicate_implies_sound number_of filter wire doc f s a e m
        | inr e ↦ absurd (omega (arith, rw (rank, e) at r))
      ]

  -- Where the equality and membership values of a predicate are scalars, its sets are of one
  -- typeof, and each field of each index's filter has a single equality or membership over
  -- scalars or only ranges over one type of value: if some declared index, of whose fields the
  -- predicate consumes one, has no filter or an implied one, then a plan walks an index whose
  -- filter, if it has one, holds of every document that satisfies the predicate, and the
  -- document has the keys and the tail of the plan in its fields.
  pub plan_query-admits :
      (wire : PredicateWire) (indexes : List IndexDefinition) (plan : IndexWalkPlan) (doc : Fields)
      (usable : IndexDefinition)
      → AllScalar wire
      → AllAlike wire
      → All (λ d. IsPlainFilter d.predicate) indexes
      → In usable indexes
      → 0 < consumed_of (partition_onto number_of no_clauses wire) usable
      → rank number_of wire usable ≤ 1
      → plan_query number_of (some wire) indexes ≡ index_walk plan
      → matches_wire wire doc ≡ true
      → (index : IndexDefinition) × (admits index.predicate doc ≡ true)
        × Walked doc indexes plan index
  plan_query-admits wire indexes plan doc usable s a f i n r h m =
      let c = plan_query-Chosen number_of wire indexes plan h in
      let p = partition_onto number_of no_clauses wire in
      let (own, found, same) = candidates_from-In p 0 usable indexes n i in
      let least =
        All-In (λ c'. rank_of number_of wire c.best ≤ rank_of number_of wire c') own c.least
          found in
      let bound : rank number_of wire own.index ≤ 1 = rw same r in
      let low : rank number_of wire c.best.index ≤ 1 = omega (arith, least, bound) in
      (
        c.best.index,
        rank-admits wire c.best.index c.best.index.predicate doc
            (All-In (λ d. IsPlainFilter d.predicate) c.best.index f c.origin.declared) s a low m,
        Chosen-Walked number_of wire indexes plan doc s c m,
      )
