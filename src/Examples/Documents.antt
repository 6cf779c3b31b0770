-- ===== src/Examples/Documents.antt =====
-- Documents, patches and predicates.
use baerly_storage.Common.{◌≡◌, refl, Text, codes, true, some, [], ◌∷◌}
use baerly_storage.Common.Texts.{text_eq}
use baerly_storage.Common.Int.{pos, ltb_ℤ}
use baerly_storage.Errors.{ok}
use baerly_storage.Json.{
  Fields, null, bool, num, str, arr, obj, nil, cons, end, prop, get, has, distinct_keys,
  json_value_equal, strict_eq, is_forbidden_merge_key, merge,
}
use baerly_storage.Json.Equality.{deep_equal, json_value_equal-deep_equal}
use baerly_storage.Json.Merge.{merged_at, merge-get}
use baerly_storage.Query.{PredicateWire, eq, gt, lte, one_of}
use baerly_storage.Query.Matches.{
  lookup_path, split, walk, matches_wire, matches_op, matches_in, matches_eq, compare_gt,
  compare_lt, matches_clause,
}
use baerly_storage.Query.Matches.Paths.{lookup_path-walk}
use baerly_storage.Query.Satisfiable.{assert_wire_satisfiable}
use baerly_storage.Query.Merge.{Answers, merge_predicate_wires, merge_predicate_wires-Answers}
use baerly_storage.Query.Satisfiable.Sound.{assert_wire_satisfiable_sound}

abbrev a_doc : Fields
a_doc =
    prop (codes "n") (num (pos 5))
      (prop (codes "s") (obj (prop (codes "t") (str (codes "x")) end)) end)

abbrev a_patch : Fields
a_patch = prop (codes "n") null (
    prop (codes "__proto__") (num (pos 1)) (
      prop (codes "u") (bool true) (
        prop (codes "s") (obj (prop (codes "t") null end))
          (prop (codes "w") (obj (prop (codes "t") null end)) end))))

abbrev a_wire : PredicateWire
a_wire =
    record { op = gt; field = codes "n"; value = num (pos 3) }
    ∷ record { op = lte; field = codes "n"; value = num (pos 5) }
    ∷ record {
      op = one_of;
      field = codes "s.t";
      value = arr (cons (str (codes "y")) (cons (str (codes "x")) nil));
    }
    ∷ record { op = eq; field = codes "s.t"; value = str (codes "x") }
    ∷ []

json_value_equal-deep_equal_example :
    json_value_equal (obj a_doc) (obj a_patch) ≡ some (deep_equal (obj a_doc) (obj a_patch))
json_value_equal-deep_equal_example = json_value_equal-deep_equal (obj a_doc) (obj a_patch)

merge-get_example :
    (merged : Fields) × (merge (some (obj a_doc)) (some (obj a_patch)) ≡ some (obj merged))
    × ((j : Text)
        → get j merged
          ≡ merged_at (is_forbidden_merge_key j) (get j a_patch) (get j a_doc) (get j a_doc))
unfolding distinct_keys has text_eq
merge-get_example = merge-get a_doc a_patch refl

lookup_path-walk_example :
    lookup_path a_doc (codes "s.t") ≡ walk (split b'.' (codes "s.t")) (some (obj a_doc))
lookup_path-walk_example = lookup_path-walk a_doc (codes "s.t")

merge_predicate_wires-Answers_example : Answers a_wire a_wire (merge_predicate_wires a_wire a_wire)
merge_predicate_wires-Answers_example =
    merge_predicate_wires-Answers a_wire a_wire (tt, (tt, ((refl, (refl, tt)), (refl, tt))))
      (tt, (tt, ((refl, (refl, tt)), (refl, tt))))

assert_wire_satisfiable_sound_example : assert_wire_satisfiable a_wire ≡ ok tt
unfolding matches_wire matches_clause matches_op matches_eq matches_in compare_gt compare_lt
    lookup_path text_eq get ltb_ℤ strict_eq
assert_wire_satisfiable_sound_example =
    assert_wire_satisfiable_sound a_wire a_doc (tt, (tt, ((refl, (refl, tt)), (refl, tt)))) refl
