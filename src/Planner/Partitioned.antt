-- ===== src/Planner/Partitioned.antt =====
-- What the partition of a predicate says of a document that satisfies it.
use baerly_storage.Common.{
  ◌≡◌, Text, true, ◌||◌, not, Option, some, List, [], ◌∷◌, All, if◌then◌else◌, Option-cases, inl,
  inr, &&_split,
}
use baerly_storage.Common.Int.{ℤ}
use baerly_storage.Json.{JsonValue, Fields}
use baerly_storage.Query.{OpName, eq, gt, gte, lt, lte, one_of, PredicateWire, members}
use baerly_storage.Query.Matches.{matches_op, matches_wire, matches_clause, lookup_path}
use baerly_storage.Query.Satisfiable.Holds.{
  HasScalars, AllScalar, IsMember, matches_eq-scalar, matches_in-scalar, matches_op-some, some-inj,
}
use baerly_storage.Implication.{array_value}
use baerly_storage.Implication.Bounds.{if_intro}
use baerly_storage.Planner.{
  map_get, map_has, map_set, set_has, RangeAcc, Partition, drop_field, get_acc, bound_acc,
  partition_op, partition_onto,
}
use baerly_storage.Planner.Within.{
  map_get-All, map_set-All, map_delete-All, Within, bound_acc-Within,
}

-- The document has a value at the field, and it is in the range or in the set.
pub record InRange (doc : Fields) (e : Text × RangeAcc) : Type 0 where
  pub value : JsonValue
  pub found : lookup_path doc e.0 ≡ some value
  pub within : Within value e.1

pub record InSet (doc : Fields) (e : Text × List JsonValue) : Type 0 where
  pub value : JsonValue
  pub found : lookup_path doc e.0 ≡ some value
  pub member : IsMember value e.1

pub record Known (doc : Fields) (p : Partition) : Type 0 where
  pub equality : All (λ e. lookup_path doc e.0 ≡ some e.1) p.equality
  pub ranges : All (InRange doc) p.range_acc
  pub sets : All (InSet doc) p.in_ops

drop_field-Known :
    (doc : Fields) (field : Text) (p : Partition) → Known doc p → Known doc (drop_field field p)
unfolding drop_field
drop_field-Known doc field p h = record {
  equality = map_delete-All (λ e. lookup_path doc e.0 ≡ some e.1) field p.equality h.equality;
  ranges = map_delete-All (InRange doc) field p.range_acc h.ranges;
  sets = map_delete-All (InSet doc) field p.in_ops h.sets;
}

found_same : (o : Option JsonValue) (x y : JsonValue) → o ≡ some x → o ≡ some y → x ≡ y
found_same o x y h k = cc

get_acc-Within :
    (doc : Fields) (field : Text) (x : JsonValue) (ranges : List (Text × RangeAcc))
    → lookup_path doc field ≡ some x
    → All (InRange doc) ranges
    → Within x (get_acc (map_get field ranges))
get_acc-Within doc field x ranges found h = elim (Option-cases (map_get field ranges)) [
  | inl e ↦ rw e (record { lo = tt; hi = tt })
  | inr (acc, e) ↦
      let r = map_get-All (InRange doc) field acc ranges h e in
      rw e (rw (found_same _ x r.value found r.found) r.within)
]

module _ (number_of : JsonValue → Option ℤ) where
  add_range-Known :
      (doc : Fields) (op : OpName) (field : Text) (v x : JsonValue) (p : Partition)
      → lookup_path doc field ≡ some x
      → matches_op op v (some x) ≡ true
      → Known doc p
      → Known doc (record p {
        range_acc =
            map_set field
              (bound_acc number_of op v (get_acc (map_get field p.range_acc)))
              p.range_acc;
      })
  add_range-Known doc op field v x p found m h = record {
    equality = h.equality;
    ranges =
        map_set-All (InRange doc) field _ p.range_acc
          (record {
            value = x;
            found = found;
            within =
                bound_acc-Within number_of op x v _ m
                  (get_acc-Within doc field x p.range_acc found h.ranges);
          })
          h.ranges;
    sets = h.sets;
  }

  partition_range-Known :
      (doc : Fields) (op : OpName) (field : Text) (v x : JsonValue) (p : Partition)
      → lookup_path doc field ≡ some x
      → matches_op op v (some x) ≡ true
      → Known doc p
      → Known doc (
          if map_has field p.equality || map_has field p.in_ops
          then drop_field field p
          else record p {
            range_acc =
                map_set field
                  (bound_acc number_of op v (get_acc (map_get field p.range_acc)))
                  p.range_acc;
          })
  partition_range-Known doc op field v x p found m h =
      if_intro (Known doc) (map_has field p.equality || map_has field p.in_ops)
        (drop_field-Known doc field p h) (add_range-Known doc op field v x p found m h)

  partition_op-Known :
      (doc : Fields) (op : OpName) (field : Text) (v x : JsonValue) (p : Partition)
      → HasScalars op v
      → lookup_path doc field ≡ some x
      → matches_op op v (some x) ≡ true
      → Known doc p
      → Known doc (partition_op number_of op field v p)
  unfolding partition_op matches_op
  partition_op-Known doc eq field v x p s found m h =
      if_intro (Known doc) (map_has field p.in_ops || map_has field p.range_acc)
        (drop_field-Known doc field p h)
        (record {
          equality =
              map_set-All (λ e. lookup_path doc e.0 ≡ some e.1) field v p.equality
                (rw (← some-inj x v (matches_eq-scalar v (some x) s m)) found) h.equality;
          ranges = h.ranges;
          sets = h.sets;
        })
  partition_op-Known doc one_of field v x p s found m h =
      let (y, e, mem) = matches_in-scalar (members v) (some x) s m in
      if_intro (Known doc)
        (map_has field p.equality || map_has field p.range_acc || map_has field p.in_ops)
        (drop_field-Known doc field p h)
        (if_intro (Known doc) (not (array_value v))
          (record { equality = h.equality; ranges = h.ranges; sets = h.sets })
          (record {
            equality = h.equality;
            ranges = h.ranges;
            sets =
                map_set-All (InSet doc) field (members v) p.in_ops
                  (record { value = y; found = rw (← some-inj x y e) found; member = mem }) h.sets;
          }))
  partition_op-Known doc gt field v x p s found m h =
      partition_range-Known doc gt field v x p found m h
  partition_op-Known doc gte field v x p s found m h =
      partition_range-Known doc gte field v x p found m h
  partition_op-Known doc lt field v x p s found m h =
      partition_range-Known doc lt field v x p found m h
  partition_op-Known doc lte field v x p s found m h =
      partition_range-Known doc lte field v x p found m h

  pub partition_onto-Known :
      (doc : Fields) (wire : PredicateWire) (p : Partition)
      → AllScalar wire
      → matches_wire wire doc ≡ true
      → Known doc p
      → Known doc (partition_onto number_of p wire)
  unfolding partition_onto matches_wire matches_clause
  partition_onto-Known doc [] p s m h = h
  partition_onto-Known doc (c ∷ wire) p s m h =
      let (met, rest) =
        &&_split (matches_op c.op c.value (lookup_path doc c.field)) (matches_wire wire doc) m in
      let (x, found) = matches_op-some c.op c.value (lookup_path doc c.field) s.0 met in
      partition_onto-Known doc wire
        (if set_has c.field p.unroutable then p else partition_op number_of c.op c.field c.value p)
        s.1 rest
        (if_intro (Known doc) (set_has c.field p.unroutable) h
          (partition_op-Known doc c.op c.field c.value x p s.0 found (rw found at met) h))
