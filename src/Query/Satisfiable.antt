-- ===== src/Query/Satisfiable.antt =====
-- protocol/src/query/satisfiable.ts: which predicates are refused as contradictory.
pub mod Holds
pub mod Sound
use Prim.Native.Nat.{Ordering}
use baerly_storage.Common.{
  ℕ, Text, text_eq, Bool, true, false, ◌&&◌, ◌||◌, not, Option, none, some, List, [], ◌∷◌, ◌++◌,
  get_or, if◌then◌else◌, any,
}
use baerly_storage.Errors.{
  Code, Result, ok, err, ◌>>=◌, ◌>>◌, throw_if, invalid_config, unsatisfiable_predicate,
}
use baerly_storage.Json.{JsonValue}
use baerly_storage.Query.{
  OpName, eq, gt, gte, lt, lte, one_of, PredicateClause, PredicateWire, members,
}
use baerly_storage.Query.Scalars.{same_comparable_type, compare_scalar, deep_equal_document_value}

pub record Bound : Type 0 where
  pub value : JsonValue
  pub inclusive : Bool

pub record FieldGroup : Type 0 where
  pub eqs : List JsonValue
  pub ins : List (List JsonValue)
  pub lo : Option Bound
  pub hi : Option Bound

abbrev pub empty_group : FieldGroup
empty_group = record { eqs = []; ins = []; lo = none; hi = none }

-- `c < 0`, `c === 0` and `c > 0` of a comparison.
abbrev pub is_lt : Ordering → Bool
is_lt Ordering.lt = true
is_lt _ = false

abbrev pub is_eq : Ordering → Bool
is_eq Ordering.eq = true
is_eq _ = false

abbrev pub is_gt : Ordering → Bool
is_gt Ordering.gt = true
is_gt _ = false

unfoldable pub tighten_lower : FieldGroup → Option Bound → JsonValue → Bool → Result FieldGroup
tighten_lower group none value inclusive =
    ok (record group { lo = some (record { value = value; inclusive = inclusive }) })
tighten_lower group (some lo) value inclusive =
    if not (same_comparable_type lo.value value)
    then err unsatisfiable_predicate
    else (let c = compare_scalar lo.value value in
        if is_lt c || (is_eq c && (not inclusive && lo.inclusive))
        then ok (record group { lo = some (record { value = value; inclusive = inclusive }) })
        else ok group)

unfoldable pub tighten_upper : FieldGroup → Option Bound → JsonValue → Bool → Result FieldGroup
tighten_upper group none value inclusive =
    ok (record group { hi = some (record { value = value; inclusive = inclusive }) })
tighten_upper group (some hi) value inclusive =
    if not (same_comparable_type hi.value value)
    then err unsatisfiable_predicate
    else (let c = compare_scalar hi.value value in
        if is_gt c || (is_eq c && (not inclusive && hi.inclusive))
        then ok (record group { hi = some (record { value = value; inclusive = inclusive }) })
        else ok group)

unfoldable pub apply_op : OpName → JsonValue → FieldGroup → Result FieldGroup
unfolding tighten_lower tighten_upper
apply_op eq value group = ok (record group { eqs = group.eqs ++ value ∷ [] })
apply_op one_of value group = ok (record group { ins = group.ins ++ members value ∷ [] })
apply_op gt value group = tighten_lower group group.lo value false
apply_op gte value group = tighten_lower group group.lo value true
apply_op lt value group = tighten_upper group group.hi value false
apply_op lte value group = tighten_upper group group.hi value true

unfoldable pub apply_clause : FieldGroup → PredicateClause → Result FieldGroup
unfolding apply_op
apply_clause group clause = apply_op clause.op clause.value group

-- The map from fields to groups, in the order of the fields' first clauses.
abbrev pub Groups : Type 0
Groups = List (Text × FieldGroup)

unfoldable pub group_of : Text → Groups → Option FieldGroup
group_of field [] = none
group_of field ((f, g) ∷ groups) = if text_eq f field then some g else group_of field groups

unfoldable pub put_group : Text → FieldGroup → Groups → Groups
put_group field group [] = (field, group) ∷ []
put_group field group ((f, g) ∷ groups) =
    if text_eq f field then (f, group) ∷ groups else (f, g) ∷ put_group field group groups

unfoldable pub group_onto : Groups → PredicateWire → Result Groups
group_onto groups [] = ok groups
group_onto groups (clause ∷ wire) = do
  group ← apply_clause (get_or (group_of clause.field groups) empty_group) clause
  group_onto (put_group clause.field group groups) wire

unfoldable pub group_by_field : PredicateWire → Result Groups
unfolding group_onto
group_by_field wire = group_onto [] wire

-- The members of the first set that every other set has.
unfoldable pub keep_common : List JsonValue → List JsonValue → List JsonValue
keep_common [] set = []
keep_common (a ∷ acc) set =
    let rest = keep_common acc set in
    if any (λ b. deep_equal_document_value a b) set then a ∷ rest else rest

unfoldable pub intersect_onto : List JsonValue → List (List JsonValue) → List JsonValue
intersect_onto acc [] = acc
intersect_onto acc (set ∷ sets) = intersect_onto (keep_common acc set) sets

unfoldable pub intersect_in_sets : List (List JsonValue) → List JsonValue
unfolding intersect_onto keep_common
intersect_in_sets [] = []
intersect_in_sets (set ∷ sets) = intersect_onto set sets

-- The checks of one group, in the order of `assertWireSatisfiable`.
unfoldable pub assert_all_equal : JsonValue → List JsonValue → Result (Unit {0})
assert_all_equal first [] = ok tt
assert_all_equal first (e ∷ es) =
    throw_if (not (deep_equal_document_value first e)) invalid_config >> assert_all_equal first es

unfoldable pub assert_eqs_agree : List JsonValue → Result (Unit {0})
unfolding assert_all_equal
assert_eqs_agree [] = ok tt
assert_eqs_agree (e ∷ es) = assert_all_equal e es

unfoldable pub assert_interval : Option Bound → Option Bound → Result (Unit {0})
assert_interval (some lo) (some hi) =
    if same_comparable_type lo.value hi.value
    then (let c = compare_scalar lo.value hi.value in
        throw_if (is_gt c || (is_eq c && (not lo.inclusive || not hi.inclusive)))
          unsatisfiable_predicate)
    else ok tt
assert_interval _ _ = ok tt

unfoldable pub assert_eq_above : JsonValue → Option Bound → Result (Unit {0})
assert_eq_above e none = ok tt
assert_eq_above e (some lo) =
    if not (same_comparable_type e lo.value)
    then err unsatisfiable_predicate
    else (let c = compare_scalar e lo.value in
        throw_if (is_lt c || (is_eq c && not lo.inclusive)) unsatisfiable_predicate)

unfoldable pub assert_eq_below : JsonValue → Option Bound → Result (Unit {0})
assert_eq_below e none = ok tt
assert_eq_below e (some hi) =
    if not (same_comparable_type e hi.value)
    then err unsatisfiable_predicate
    else (let c = compare_scalar e hi.value in
        throw_if (is_gt c || (is_eq c && not hi.inclusive)) unsatisfiable_predicate)

unfoldable pub assert_eq_in_sets : JsonValue → List (List JsonValue) → Result (Unit {0})
assert_eq_in_sets e [] = ok tt
assert_eq_in_sets e (set ∷ sets) =
    throw_if (not (any (λ m. deep_equal_document_value e m) set)) unsatisfiable_predicate
    >> assert_eq_in_sets e sets

unfoldable pub assert_eq_allowed : List JsonValue → FieldGroup → Result (Unit {0})
unfolding assert_eq_above assert_eq_below assert_eq_in_sets
assert_eq_allowed [] group = ok tt
assert_eq_allowed (e ∷ es) group =
    assert_eq_above e group.lo >> assert_eq_below e group.hi >> assert_eq_in_sets e group.ins

abbrev pub is_empty : List JsonValue → Bool
is_empty [] = true
is_empty _ = false

unfoldable pub assert_sets_intersect : List (List JsonValue) → Result (Unit {0})
unfolding intersect_in_sets
assert_sets_intersect (s ∷ t ∷ sets) =
    throw_if (is_empty (intersect_in_sets (s ∷ t ∷ sets))) unsatisfiable_predicate
assert_sets_intersect _ = ok tt

unfoldable pub assert_group : FieldGroup → Result (Unit {0})
unfolding assert_eqs_agree assert_interval assert_eq_allowed assert_sets_intersect
assert_group group =
    assert_eqs_agree group.eqs
    >> assert_interval group.lo group.hi
    >> assert_eq_allowed group.eqs group
    >> assert_sets_intersect group.ins

unfoldable pub assert_groups : Groups → Result (Unit {0})
unfolding assert_group
assert_groups [] = ok tt
assert_groups ((f, g) ∷ groups) = assert_group g >> assert_groups groups

unfoldable pub assert_wire_satisfiable : PredicateWire → Result (Unit {0})
unfolding group_by_field assert_groups
assert_wire_satisfiable wire = group_by_field wire >>= assert_groups
