-- ===== src/Examples/Queries.antt =====
-- Plans of queries over indexes.
use baerly_storage.Common.{
  ◌≡◌, ◌↔◌, refl, codes, true, false, Option, none, some, [], ◌∷◌, inl, inr, arith, here,
}
use baerly_storage.Common.Texts.{text_eq}
use baerly_storage.Common.Int.{ℤ, pos, ltb_ℤ}
use baerly_storage.Errors.{ok}
use baerly_storage.Query.Validate.{validate_wire}
use baerly_storage.Query.Validate.Accepts.{IsWire, validate_wire_iff}
use baerly_storage.Json.{
  obj, JsonValue, Fields, num, str, arr, nil, cons, end, prop, get, strict_eq,
}
use baerly_storage.Query.{PredicateWire, eq, gt, gte, lt, lte, one_of}
use baerly_storage.Query.Scalars.{same_comparable_type, deep_equal_document_value}
use baerly_storage.Query.Matches.{
  matches_wire, matches_clause, matches_op, matches_eq, matches_in, compare_gt, compare_lt,
  lookup_path, includes,
}
use baerly_storage.Implication.Check.{predicate_implies}
use baerly_storage.Implication.Sound.{predicate_implies_sound}
use baerly_storage.Planner.Choice.{IndexDefinition, single, composite, IndexWalkPlan, plan_query}
use baerly_storage.Planner.Walks.{Walked, plan_query-Walked}
use baerly_storage.Planner.Complete.{admits, plan_query-admits}

abbrev number_of : JsonValue → Option ℤ
number_of (num n) = some n
number_of _ = none

abbrev a_filter : PredicateWire
a_filter =
    record { op = gte; field = codes "n"; value = num (pos 2) }
    ∷ record {
      op = one_of;
      field = codes "k";
      value = arr (cons (str (codes "a")) (cons (str (codes "b")) nil));
    }
    ∷ record { op = lt; field = codes "n"; value = num (pos 9) }
    ∷ []

abbrev a_query : PredicateWire
a_query =
    record { op = gt; field = codes "n"; value = num (pos 3) }
    ∷ record { op = eq; field = codes "k"; value = str (codes "a") }
    ∷ record { op = lte; field = codes "n"; value = num (pos 5) }
    ∷ []

abbrev a_doc : Fields
a_doc = prop (codes "k") (str (codes "a")) (prop (codes "n") (num (pos 5)) end)

predicate_implies_sound_example : matches_wire a_filter a_doc ≡ true
unfolding matches_wire matches_clause matches_op matches_eq matches_in compare_gt compare_lt
    lookup_path includes text_eq get ltb_ℤ strict_eq same_comparable_type deep_equal_document_value
    predicate_implies
predicate_implies_sound_example =
    predicate_implies_sound number_of a_filter a_query a_doc
      (
        inr (
          num (pos 2),
          (record { range = refl; same = refl }, (record { range = refl; same = refl }, tt)),
        ),
        (inl (_, record { alone = refl; exact = refl; scalars = (refl, (refl, tt)) }), tt),
      )
      (tt, (refl, (tt, tt))) (tt, (tt, (tt, tt))) refl refl

abbrev filtered : IndexDefinition
filtered = record {
  name = codes "by_k_n";
  on = composite (codes "k" ∷ codes "n" ∷ []);
  predicate = some a_filter;
}

abbrev unfiltered : IndexDefinition
unfiltered = record { name = codes "by_n"; on = single (codes "n"); predicate = none }

abbrev a_plan : IndexWalkPlan
a_plan = record {
  index_name = codes "by_k_n";
  equality_keys = str (codes "a") ∷ [];
  range_on = some (
    codes "n",
    record {
      lo = some (num (pos 3));
      hi = some (num (pos 5));
      lo_inclusive = false;
      hi_inclusive = true;
    },
  );
  in_on = none;
}

plan_query-Walked_example :
    (index : IndexDefinition) × Walked a_doc (unfiltered ∷ filtered ∷ []) a_plan index
unfolding matches_wire matches_clause matches_op matches_eq matches_in compare_gt compare_lt
    lookup_path includes text_eq get ltb_ℤ strict_eq deep_equal_document_value plan_query
plan_query-Walked_example =
    plan_query-Walked number_of a_query (unfiltered ∷ filtered ∷ []) a_plan a_doc
      (tt, (refl, (tt, tt))) refl refl

plan_query-admits_example :
    (index : IndexDefinition) × (admits index.predicate a_doc ≡ true)
    × Walked a_doc (unfiltered ∷ filtered ∷ []) a_plan index
unfolding matches_wire matches_clause matches_op matches_eq matches_in compare_gt compare_lt
    lookup_path includes text_eq get ltb_ℤ strict_eq deep_equal_document_value plan_query
    same_comparable_type
plan_query-admits_example =
    plan_query-admits number_of a_query (unfiltered ∷ filtered ∷ []) a_plan a_doc unfiltered
      (tt, (refl, (tt, tt))) (tt, (tt, (tt, tt)))
      (
        tt,
        (
          (
            inr (
              num (pos 2),
              (record { range = refl; same = refl }, (record { range = refl; same = refl }, tt)),
            ),
            (inl (_, record { alone = refl; exact = refl; scalars = (refl, (refl, tt)) }), tt),
          ),
          tt,
        ),
      )
      (here refl) (omega arith) (omega arith) refl refl

abbrev a_raw_wire : JsonValue
a_raw_wire = obj (
    prop (codes "clauses")
      (arr (
        cons
          (obj (
            prop (codes "op") (str (codes "eq")) (
              prop (codes "field") (str (codes "k")) (prop (codes "value") (str (codes "a")) end))))
          nil))
      end)

validate_wire_iff_example :
    (validate_wire a_raw_wire
      ≡ ok (record { op = eq; field = codes "k"; value = str (codes "a") } ∷ []))
    ↔ IsWire a_raw_wire (record { op = eq; field = codes "k"; value = str (codes "a") } ∷ [])
validate_wire_iff_example =
    validate_wire_iff a_raw_wire
      (record { op = eq; field = codes "k"; value = str (codes "a") } ∷ [])
