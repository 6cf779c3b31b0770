-- ===== src/Implication.antt =====
-- server/src/query-planner-implies.ts: does a query's predicate imply the filter of an index?
-- `number_of` is the runtime's conversion to a number, `none` for NaN, which `<` applies to operands
-- that are not both strings once objects are converted to texts. Arrays are no values of clauses
-- other than `in`, and no members of its sets.
pub mod Check
pub mod Groups
pub mod Bounds
pub mod Tightest
pub mod Sets
pub mod Decode
pub mod Ends
pub mod Filter
pub mod Sound
use baerly_storage.Common.{
  Text, codes, text_eq, text_lt, Bool, true, false, ◌&&◌, ◌||◌, not, Option, none, some, List, [],
  ◌∷◌, ◌++◌, if◌then◌else◌, any,
}
use baerly_storage.Common.Int.{ℤ, ltb_ℤ}
use baerly_storage.Json.{JsonValue, null, bool, num, str, arr, obj}
use baerly_storage.Query.{
  OpName, eq, gt, gte, lt, lte, one_of, PredicateClause, PredicateWire, members, members_of,
}
use baerly_storage.Query.Scalars.{deep_equal_document_value}

pub record RangeInfo : Type 0 where
  pub value : JsonValue
  pub inclusive : Bool

-- `none` is `undefined`.
pub record OperatorBundle : Type 0 where
  pub equal : Option JsonValue
  pub lo : Option RangeInfo
  pub hi : Option RangeInfo
  pub in_set : Option (List JsonValue)

abbrev pub no_operators : OperatorBundle
no_operators = record { equal = none; lo = none; hi = none; in_set = none }

-- The map that collects the clauses of each field.
abbrev pub ClauseGroups : Type 0
ClauseGroups = List (Text × List PredicateClause)

unfoldable pub push_clause : PredicateClause → ClauseGroups → ClauseGroups
push_clause c [] = (c.field, c ∷ []) ∷ []
push_clause c ((field, bucket) ∷ groups) =
    let rest = push_clause c groups in
    if text_eq field c.field then (field, bucket ++ (c ∷ [])) ∷ groups else (field, bucket) ∷ rest

unfoldable pub group_clauses_onto : ClauseGroups → PredicateWire → ClauseGroups
unfolding push_clause
group_clauses_onto groups [] = groups
group_clauses_onto groups (c ∷ wire) = group_clauses_onto (push_clause c groups) wire

unfoldable pub clauses_of : Text → ClauseGroups → Option (List PredicateClause)
clauses_of field [] = none
clauses_of field ((f, bucket) ∷ groups) =
    let rest = clauses_of field groups in if text_eq f field then some bucket else rest

-- `typeof a === typeof b`
unfoldable pub same_typeof : JsonValue → JsonValue → Bool
same_typeof (str a) (str b) = true
same_typeof (num a) (num b) = true
same_typeof (bool a) (bool b) = true
same_typeof (str a) _ = false
same_typeof (num a) _ = false
same_typeof (bool a) _ = false
same_typeof _ (str b) = false
same_typeof _ (num b) = false
same_typeof _ (bool b) = false
same_typeof _ _ = true

-- What an object is converted to.
abbrev object_text : Text
object_text = codes "[object Object]"

abbrev numbers_lt : Option ℤ → Option ℤ → Bool
numbers_lt none _ = false
numbers_lt (some m) none = false
numbers_lt (some m) (some n) = ltb_ℤ m n

abbrev pub array_value : JsonValue → Bool
array_value (arr xs) = true
array_value _ = false

-- Whether every member of the first list is in the second one.
unfoldable pub all_contained : List JsonValue → List JsonValue → Bool
all_contained [] set = true
all_contained (v ∷ vs) set = any (λ m. deep_equal_document_value m v) set && all_contained vs set

module _ (number_of : JsonValue → Option ℤ) where
  -- `a < b`
  unfoldable pub js_lt : JsonValue → JsonValue → Bool
  js_lt (str a) (str b) = text_lt a b
  js_lt (num a) (num b) = ltb_ℤ a b
  js_lt (obj fs) (str b) = text_lt object_text b
  js_lt (str a) (obj fs) = text_lt a object_text
  js_lt (obj fs) (obj gs) = false
  js_lt a b = numbers_lt (number_of a) (number_of b)

  unfoldable pub tightest_lo : Option RangeInfo → RangeInfo → RangeInfo
  unfolding same_typeof js_lt
  tightest_lo none next = next
  tightest_lo (some existing) next =
      if not (same_typeof existing.value next.value)
      then existing
      else if js_lt existing.value next.value
      then next
      else if js_lt next.value existing.value
      then existing
      else if not next.inclusive && existing.inclusive
      then next
      else existing

  unfoldable pub tightest_hi : Option RangeInfo → RangeInfo → RangeInfo
  unfolding same_typeof js_lt
  tightest_hi none next = next
  tightest_hi (some existing) next =
      if not (same_typeof existing.value next.value)
      then existing
      else if js_lt next.value existing.value
      then next
      else if js_lt existing.value next.value
      then existing
      else if not next.inclusive && existing.inclusive
      then next
      else existing

  -- One clause of a group; `none` is the unknown shape.
  unfoldable pub decode_clause : OpName → JsonValue → OperatorBundle → Option OperatorBundle
  unfolding tightest_lo tightest_hi
  decode_clause eq v bundle = some (record bundle { equal = some v })
  decode_clause gte v bundle =
      some (record bundle {
        lo = some (tightest_lo bundle.lo (record { value = v; inclusive = true }));
      })
  decode_clause gt v bundle = some (record bundle {
    lo = some (tightest_lo bundle.lo (record { value = v; inclusive = false }));
  })
  decode_clause lte v bundle =
      some (record bundle {
        hi = some (tightest_hi bundle.hi (record { value = v; inclusive = true }));
      })
  decode_clause lt v bundle = some (record bundle {
    hi = some (tightest_hi bundle.hi (record { value = v; inclusive = false }));
  })
  decode_clause one_of v bundle = elim bundle.in_set [
    | some set ↦ none
    | none ↦ if array_value v then some (record bundle { in_set = some (members v) }) else none
  ]

  unfoldable pub decode_onto : OperatorBundle → List PredicateClause → Option OperatorBundle
  unfolding decode_clause
  decode_onto bundle [] = some bundle
  decode_onto bundle (c ∷ clauses) = elim (decode_clause c.op c.value bundle) [
    | none ↦ none
    | some next ↦ decode_onto next clauses
  ]

  unfoldable pub decode_group : List PredicateClause → Option OperatorBundle
  unfolding decode_onto
  decode_group clauses = decode_onto no_operators clauses
