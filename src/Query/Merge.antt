-- ===== src/Query/Merge.antt =====
-- protocol/src/query/merge.ts: the conjunction of two predicates.
use baerly_storage.Common.{
  ◌≡◌, refl, sym, ◌∙◌, false, ◌&&◌, [], ◌∷◌, ◌++◌, All-append, arith, Bool-cases, inl, inr,
}
use baerly_storage.Errors.{Result, ok, err, ◌>>◌, Result-cases}
use baerly_storage.Json.{Fields}
use baerly_storage.Query.{PredicateClause, PredicateWire}
use baerly_storage.Query.Matches.{matches_wire}
use baerly_storage.Query.Satisfiable.{assert_wire_satisfiable}
use baerly_storage.Query.Satisfiable.Holds.{AllScalar, HasScalars}
use baerly_storage.Query.Satisfiable.Sound.{assert_wire_satisfiable_sound}

unfoldable pub merge_predicate_wires : PredicateWire → PredicateWire → Result PredicateWire
merge_predicate_wires a b = assert_wire_satisfiable (a ++ b) >> ok (a ++ b)

matches_wire-append :
    (a b : PredicateWire) (doc : Fields)
    → matches_wire (a ++ b) doc ≡ (matches_wire a doc && matches_wire b doc)
unfolding matches_wire
matches_wire-append [] b doc = refl
matches_wire-append (c ∷ a) b doc = ground (arith, matches_wire-append a b doc)

-- What a merge answers: the conjunction, or a refusal where no document matches both.
abbrev pub Answers : PredicateWire → PredicateWire → Result PredicateWire → Type 0
Answers a b (ok merged) =
    (doc : Fields) → matches_wire merged doc ≡ (matches_wire a doc && matches_wire b doc)
Answers a b (err code) = (doc : Fields) → (matches_wire a doc && matches_wire b doc) ≡ false

-- Two predicates whose equality and membership values are scalars: their merge matches exactly the
-- documents that both match, or it is refused, and then no document matches both.
pub merge_predicate_wires-Answers :
    (a b : PredicateWire) → AllScalar a → AllScalar b → Answers a b (merge_predicate_wires a b)
unfolding merge_predicate_wires
merge_predicate_wires-Answers a b s t = elim (Result-cases (assert_wire_satisfiable (a ++ b))) [
  | inl (u, e) ↦ rw (e, merge_predicate_wires) (matches_wire-append a b)
  | inr (code, e) ↦
      rw (e, merge_predicate_wires)
        (λ doc. elim (Bool-cases (matches_wire (a ++ b) doc)) [
          | inr f ↦ sym (matches_wire-append a b doc) ∙ f
          | inl m ↦
              let passes : assert_wire_satisfiable (a ++ b) ≡ ok tt =
                assert_wire_satisfiable_sound (a ++ b) doc
                  (All-append (λ (c : PredicateClause). HasScalars c.op c.value) a b s t) m in
              cc (passes, e)
        ])
]
