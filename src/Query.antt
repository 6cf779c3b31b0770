-- ===== src/Query.antt =====
-- protocol/src/query: predicates on the wire. A predicate is a list of clauses that all must hold.
pub mod Scalars
pub mod Matches
pub mod Satisfiable
pub mod Merge
pub mod Validate
use baerly_storage.Common.{ℕ, suc, ◌+◌, Text, List, [], ◌∷◌, Bool, Option, none, some}
use baerly_storage.Common.Decimal.{decimal}
use baerly_storage.Json.{JsonValue, Items, Fields, arr, obj, nil, cons, end, prop}

pub data OpName : Type 0 where
  eq gt gte lt lte one_of : OpName

pub record PredicateClause : Type 0 where
  pub op : OpName
  pub field : Text
  pub value : JsonValue

abbrev pub PredicateWire : Type 0
PredicateWire = List PredicateClause

-- The value of an `in` clause, which the validator has shown to be an array.
abbrev pub members_of : Items → List JsonValue
members_of nil = []
members_of (cons x xs) = x ∷ members_of xs

abbrev pub members : JsonValue → List JsonValue
members (arr xs) = members_of xs
members _ = []

-- The own properties of an array are its indices.
unfoldable pub index_props : ℕ → Items → Fields
index_props i nil = end
index_props i (cons x xs) = prop (decimal i) x (index_props (suc i) xs)

-- `Object.keys(value)` with their values, for an object or an array.
unfoldable pub own_props : JsonValue → Fields
unfolding index_props
own_props (arr xs) = index_props 0 xs
own_props (obj fs) = fs
own_props _ = end
