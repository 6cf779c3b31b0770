-- ===== src/Query/Matches.antt =====
-- protocol/src/query/matches.ts: does a document satisfy a predicate?
pub mod Paths
use baerly_storage.Common.{
  ℕ, suc, ◌==◌, Text, text_lt, Bool, true, false, ◌&&◌, ◌||◌, not, Option, none, some, List, [],
  ◌∷◌, if◌then◌else◌,
}
use baerly_storage.Common.Decimal.{decimal}
use baerly_storage.Common.Int.{ltb_ℤ}
use baerly_storage.Json.{
  JsonValue, Items, Fields, null, bool, num, str, arr, obj, nil, cons, end, prop, get, strict_eq,
}
use baerly_storage.Query.{
  OpName, eq, gt, gte, lt, lte, one_of, PredicateClause, PredicateWire, members,
}

-- `field.includes(".")`
unfoldable pub includes : ℕ → Text → Bool
includes c [] = false
includes c (x ∷ s) = x == c || includes c s

abbrev longer : ℕ → List Text → List Text
longer c [] = (c ∷ []) ∷ []
longer c (w ∷ ws) = (c ∷ w) ∷ ws

-- `field.split(".")`
unfoldable pub split : ℕ → Text → List Text
split c [] = [] ∷ []
split c (x ∷ s) = let rest = split c s in if x == c then [] ∷ rest else longer x rest

-- The loop of `lookupPath`.
unfoldable pub walk : List Text → Option JsonValue → Option JsonValue
walk [] cursor = cursor
walk (segment ∷ segments) (some (obj fs)) = walk segments (get segment fs)
walk (segment ∷ segments) _ = none

unfoldable pub lookup_path : Fields → Text → Option JsonValue
unfolding includes split walk
lookup_path doc field =
    if includes b'.' field then walk (split b'.' field) (some (obj doc)) else get field doc

-- `matchesEq`: at a nested object, a sub-predicate over the keys that the expected value has. An
-- array has its indices for keys. `null` is no document value and matches nothing here.
unfoldable mutual
  pub matches_eq : JsonValue → Option JsonValue → Bool
  matches_eq (obj fs) (some (obj gs)) = matches_fields fs gs
  matches_eq (arr xs) (some (obj gs)) = matches_items 0 xs gs
  matches_eq (bool b) (some v) = strict_eq (bool b) v
  matches_eq (num n) (some v) = strict_eq (num n) v
  matches_eq (str s) (some v) = strict_eq (str s) v
  matches_eq _ _ = false

  pub matches_fields : Fields → Fields → Bool
  matches_fields end actual = true
  matches_fields (prop k v fs) actual = matches_eq v (get k actual) && matches_fields fs actual

  pub matches_items : ℕ → Items → Fields → Bool
  matches_items i nil actual = true
  matches_items i (cons v xs) actual =
      matches_eq v (get (decimal i) actual) && matches_items (suc i) xs actual

unfoldable pub matches_in : List JsonValue → Option JsonValue → Bool
matches_in [] actual = false
matches_in (m ∷ ms) actual = matches_eq m actual || matches_in ms actual

unfoldable pub compare_gt : Option JsonValue → JsonValue → Bool → Bool
compare_gt (some (str a)) (str bound) inclusive =
    if inclusive then not (text_lt a bound) else text_lt bound a
compare_gt (some (num a)) (num bound) inclusive =
    if inclusive then not (ltb_ℤ a bound) else ltb_ℤ bound a
compare_gt _ _ _ = false

unfoldable pub compare_lt : Option JsonValue → JsonValue → Bool → Bool
compare_lt (some (str a)) (str bound) inclusive =
    if inclusive then not (text_lt bound a) else text_lt a bound
compare_lt (some (num a)) (num bound) inclusive =
    if inclusive then not (ltb_ℤ bound a) else ltb_ℤ a bound
compare_lt _ _ _ = false

unfoldable pub matches_op : OpName → JsonValue → Option JsonValue → Bool
matches_op eq value actual = matches_eq value actual
matches_op one_of value actual = matches_in (members value) actual
matches_op gt value actual = compare_gt actual value false
matches_op gte value actual = compare_gt actual value true
matches_op lt value actual = compare_lt actual value false
matches_op lte value actual = compare_lt actual value true

unfoldable pub matches_clause : PredicateClause → Option JsonValue → Bool
unfolding matches_op
matches_clause clause actual = matches_op clause.op clause.value actual

unfoldable pub matches_wire : PredicateWire → Fields → Bool
unfolding matches_clause
matches_wire [] doc = true
matches_wire (clause ∷ wire) doc =
    matches_clause clause (lookup_path doc clause.field) && matches_wire wire doc
