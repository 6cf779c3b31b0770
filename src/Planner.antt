-- ===== src/Planner.antt =====
-- server/src/query-planner.ts: the clauses of a predicate that an index can serve.
-- `number_of` is the runtime's conversion to a number, as in Implication.
pub mod Choice
pub mod Within
pub mod Partitioned
pub mod Walks
pub mod Ranks
pub mod Complete
use baerly_storage.Common.{
  Text, text_eq, Bool, true, false, ◌&&◌, ◌||◌, not, Option, none, some, List, [], ◌∷◌,
  if◌then◌else◌,
}
use baerly_storage.Common.Int.{ℤ}
use baerly_storage.Json.{JsonValue, strict_eq}
use baerly_storage.Query.{
  OpName, eq, gt, gte, lt, lte, one_of, PredicateClause, PredicateWire, members,
}
use baerly_storage.Implication.{js_lt, array_value}

-- A `Map` with the operations that the planner uses.
module _ {ℓ} {V : Type ℓ} where
  unfoldable pub map_get : Text → List (Text × V) → Option V
  map_get key [] = none
  map_get key ((k, v) ∷ entries) =
      let rest = map_get key entries in if text_eq k key then some v else rest

  abbrev pub map_has : Text → List (Text × V) → Bool
  map_has key entries = elim (map_get key entries) [ none ↦ false | some v ↦ true ]

  unfoldable pub map_set : Text → V → List (Text × V) → List (Text × V)
  map_set key v [] = (key, v) ∷ []
  map_set key v ((k, w) ∷ entries) =
      let rest = map_set key v entries in if text_eq k key then (k, v) ∷ entries else (k, w) ∷ rest

  unfoldable pub map_delete : Text → List (Text × V) → List (Text × V)
  map_delete key [] = []
  map_delete key ((k, w) ∷ entries) =
      let rest = map_delete key entries in if text_eq k key then rest else (k, w) ∷ rest

unfoldable pub set_has : Text → List Text → Bool
set_has field [] = false
set_has field (f ∷ fields) = text_eq f field || set_has field fields

-- `RangeAcc`, and `RangeOpInfo` with the same fields; `none` is `undefined`.
pub record RangeAcc : Type 0 where
  pub lo : Option JsonValue
  pub hi : Option JsonValue
  pub lo_inclusive : Bool
  pub hi_inclusive : Bool

abbrev pub no_bounds : RangeAcc
no_bounds = record { lo = none; hi = none; lo_inclusive = false; hi_inclusive = false }

pub record Partition : Type 0 where
  pub equality : List (Text × JsonValue)
  pub range_acc : List (Text × RangeAcc)
  pub in_ops : List (Text × List JsonValue)
  pub unroutable : List Text

abbrev pub no_clauses : Partition
no_clauses = record { equality = []; range_acc = []; in_ops = []; unroutable = [] }

unfoldable pub drop_field : Text → Partition → Partition
unfolding map_delete
drop_field field p = record {
  equality = map_delete field p.equality;
  range_acc = map_delete field p.range_acc;
  in_ops = map_delete field p.in_ops;
  unroutable = field ∷ p.unroutable;
}

abbrev pub get_acc : Option RangeAcc → RangeAcc
get_acc none = no_bounds
get_acc (some acc) = acc

module _ (number_of : JsonValue → Option ℤ) where
  unfoldable pub raise_gte : JsonValue → RangeAcc → RangeAcc
  unfolding js_lt
  raise_gte v acc = elim acc.lo [
    | none ↦ record acc { lo = some v; lo_inclusive = true }
    | some lo ↦
        if js_lt number_of lo v then record acc { lo = some v; lo_inclusive = true } else acc
  ]

  unfoldable pub raise_gt : JsonValue → RangeAcc → RangeAcc
  unfolding js_lt strict_eq
  raise_gt v acc = elim acc.lo [
    | none ↦ record acc { lo = some v; lo_inclusive = false }
    | some lo ↦
        if js_lt number_of lo v
        then record acc { lo = some v; lo_inclusive = false }
        else if strict_eq v lo
        then record acc { lo_inclusive = false }
        else acc
  ]

  unfoldable pub reduce_lte : JsonValue → RangeAcc → RangeAcc
  unfolding js_lt
  reduce_lte v acc = elim acc.hi [
    | none ↦ record acc { hi = some v; hi_inclusive = true }
    | some hi ↦
        if js_lt number_of v hi then record acc { hi = some v; hi_inclusive = true } else acc
  ]

  unfoldable pub reduce_lt : JsonValue → RangeAcc → RangeAcc
  unfolding js_lt strict_eq
  reduce_lt v acc = elim acc.hi [
    | none ↦ record acc { hi = some v; hi_inclusive = false }
    | some hi ↦
        if js_lt number_of v hi
        then record acc { hi = some v; hi_inclusive = false }
        else if strict_eq v hi
        then record acc { hi_inclusive = false }
        else acc
  ]

  unfoldable pub bound_acc : OpName → JsonValue → RangeAcc → RangeAcc
  unfolding raise_gte raise_gt reduce_lte reduce_lt
  bound_acc gte v acc = raise_gte v acc
  bound_acc gt v acc = raise_gt v acc
  bound_acc lte v acc = reduce_lte v acc
  bound_acc lt v acc = reduce_lt v acc
  bound_acc _ v acc = acc

  unfoldable pub partition_op : OpName → Text → JsonValue → Partition → Partition
  unfolding drop_field bound_acc map_get map_set
  partition_op eq field v p =
      if map_has field p.in_ops || map_has field p.range_acc
      then drop_field field p
      else record p { equality = map_set field v p.equality }
  partition_op one_of field v p =
      if map_has field p.equality || map_has field p.range_acc || map_has field p.in_ops
      then drop_field field p
      else if not (array_value v)
      then record p { unroutable = field ∷ p.unroutable }
      else record p { in_ops = map_set field (members v) p.in_ops }
  partition_op op field v p =
      if map_has field p.equality || map_has field p.in_ops then drop_field field p else record p {
        range_acc =
            map_set field (bound_acc op v (get_acc (map_get field p.range_acc))) p.range_acc;
      }

  -- The loop over the clauses.
  unfoldable pub partition_onto : Partition → PredicateWire → Partition
  unfolding partition_op set_has
  partition_onto p [] = p
  partition_onto p (c ∷ wire) =
      partition_onto
        (if set_has c.field p.unroutable then p else partition_op c.op c.field c.value p) wire
