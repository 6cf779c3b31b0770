-- ===== src/Planner/Ranks.antt =====
-- The candidate that is chosen is one of them, and none has a smaller rank.
use baerly_storage.Common.{
  ℕ, ◌≤◌, ◌≡◌, refl, true, false, Option, List, [], ◌∷◌, All, In, here, there, arith, Bool-cases,
  inl, inr,
}
use baerly_storage.Common.Int.{ℤ}
use baerly_storage.Json.{JsonValue}
use baerly_storage.Query.{PredicateWire}
use baerly_storage.Planner.Choice.{Candidate, rank, precedes, insert_candidate, sort_candidates}

module _ (number_of : JsonValue → Option ℤ) where
  abbrev pub rank_of : PredicateWire → Candidate → ℕ
  rank_of wire c = rank number_of wire c.index

  precedes-rank :
      (wire : PredicateWire) (a b : Candidate)
      → precedes number_of wire a b ≡ true
      → rank_of wire a ≤ rank_of wire b
  unfolding precedes
  precedes-rank wire a b h = ground arith

  precedes_not-rank :
      (wire : PredicateWire) (a b : Candidate)
      → precedes number_of wire a b ≡ false
      → rank_of wire b ≤ rank_of wire a
  unfolding precedes
  precedes_not-rank wire a b h = ground arith

  -- The head of a sorted list.
  pub record Best (wire : PredicateWire) (cs sorted : List Candidate) : Type 0 where
    pub best : Candidate
    pub others : List Candidate
    pub sorted_as : sorted ≡ best ∷ others
    pub listed : In best cs
    pub least : All (λ c. rank_of wire best ≤ rank_of wire c) cs

  All_least :
      (wire : PredicateWire) (a b : Candidate) (cs : List Candidate)
      → rank_of wire a ≤ rank_of wire b
      → All (λ c. rank_of wire b ≤ rank_of wire c) cs
      → All (λ c. rank_of wire a ≤ rank_of wire c) cs
  All_least wire a b [] h k = tt
  All_least wire a b (c ∷ cs) h k = (omega (arith, k.0), All_least wire a b cs h k.1)

  pub sort_candidates-Best :
      (wire : PredicateWire) (c : Candidate) (cs : List Candidate)
      → Best wire (c ∷ cs) (sort_candidates number_of wire (c ∷ cs))
  unfolding sort_candidates insert_candidate
  sort_candidates-Best wire c [] = record {
    best = c;
    others = [];
    sorted_as = refl;
    listed = here refl;
    least = (omega arith, tt);
  }
  sort_candidates-Best wire c (d ∷ ds) =
      let b = sort_candidates-Best wire d ds in
      elim (Bool-cases (precedes number_of wire b.best c)) [
        | inl e ↦ record {
          best = b.best;
          others = insert_candidate number_of wire c b.others;
          sorted_as = rw (sort_candidates, b.sorted_as, insert_candidate, e) refl;
          listed = there b.listed;
          least = (precedes-rank wire b.best c e, b.least);
        }
        | inr e ↦ record {
          best = c;
          others = b.best ∷ b.others;
          sorted_as = rw (sort_candidates, b.sorted_as, insert_candidate, e) refl;
          listed = here refl;
          least = (
            omega arith,
            All_least wire c b.best (d ∷ ds) (precedes_not-rank wire b.best c e) b.least,
          );
        }
      ]
