-- ===== src/Query/Validate.antt =====
-- protocol/src/query/validate.ts: the check of a predicate that comes from outside, as the JSON value
-- that it is. What passes is returned as the clauses that it shows.
pub mod Parts
pub mod Accepts
use baerly_storage.Common.{
  Text, text_eq, codes, starts_with, Bool, true, false, ◌||◌, Option, none, some, List, [], ◌∷◌,
  if◌then◌else◌,
}
use baerly_storage.Errors.{
  Result, ok, err, ◌>>=◌, ◌>>◌, throw_if, invalid_config, unsatisfiable_predicate,
}
use baerly_storage.Json.{JsonValue, Items, Fields, null, bool, num, str, arr, obj, nil, cons, get}
use baerly_storage.Query.{OpName, eq, gt, gte, lt, lte, one_of, PredicateClause, PredicateWire}
use baerly_storage.Query.Satisfiable.{assert_wire_satisfiable}

abbrev pub op_text : OpName → Text
op_text eq = codes "eq"
op_text gt = codes "gt"
op_text gte = codes "gte"
op_text lt = codes "lt"
op_text lte = codes "lte"
op_text one_of = codes "in"

abbrev pub op_names : List OpName
op_names = eq ∷ gt ∷ gte ∷ lt ∷ lte ∷ one_of ∷ []

unfoldable pub find_op : Text → List OpName → Result OpName
find_op s [] = err invalid_config
find_op s (o ∷ ops) = let rest = find_op s ops in if text_eq s (op_text o) then ok o else rest

unfoldable pub validate_op : Option JsonValue → Result OpName
unfolding find_op
validate_op (some (str s)) = find_op s op_names
validate_op _ = err invalid_config

-- `_id` and the paths below it.
abbrev pub is_id_path : Text → Bool
is_id_path field = text_eq field (codes "_id") || starts_with field (codes "_id.")

unfoldable pub validate_field : Option JsonValue → Result Text
validate_field (some (str [])) = err invalid_config
validate_field (some (str (c ∷ s))) = if is_id_path (c ∷ s) then err invalid_config else ok (c ∷ s)
validate_field _ = err invalid_config

unfoldable pub validate_member_value : JsonValue → Result (Unit {0})
validate_member_value null = err invalid_config
validate_member_value (arr xs) = err invalid_config
validate_member_value _ = ok tt

unfoldable pub validate_members : Items → Result (Unit {0})
unfolding validate_member_value
validate_members nil = ok tt
validate_members (cons x xs) = validate_member_value x >> validate_members xs

unfoldable pub validate_scalar : JsonValue → Result JsonValue
validate_scalar null = err invalid_config
validate_scalar (arr xs) = err invalid_config
validate_scalar v = ok v

unfoldable pub validate_range_bound : JsonValue → Result JsonValue
validate_range_bound (str s) = ok (str s)
validate_range_bound (num n) = ok (num n)
validate_range_bound _ = err invalid_config

-- A value that is absent is `undefined`, which each check refuses.
unfoldable pub validate_value : OpName → Option JsonValue → Result JsonValue
unfolding validate_members validate_scalar validate_range_bound
validate_value op none = err invalid_config
validate_value one_of (some (arr nil)) = err unsatisfiable_predicate
validate_value one_of (some (arr (cons x xs))) =
    validate_members (cons x xs) >> ok (arr (cons x xs))
validate_value one_of (some v) = err invalid_config
validate_value eq (some v) = validate_scalar v
validate_value op (some v) = validate_range_bound v

unfoldable pub validate_clause : JsonValue → Result PredicateClause
unfolding validate_op validate_field validate_value
validate_clause (obj fs) = do
  op ← validate_op (get (codes "op") fs)
  field ← validate_field (get (codes "field") fs)
  value ← validate_value op (get (codes "value") fs)
  ok (record { op = op; field = field; value = value })
validate_clause _ = err invalid_config

unfoldable pub validate_clauses : Items → Result PredicateWire
unfolding validate_clause
validate_clauses nil = ok []
validate_clauses (cons x xs) = do
  clause ← validate_clause x
  clauses ← validate_clauses xs
  ok (clause ∷ clauses)

unfoldable pub with_clauses : Option JsonValue → Result PredicateWire
unfolding validate_clauses
with_clauses (some (arr xs)) = do wire ← validate_clauses xs; assert_wire_satisfiable wire; ok wire
with_clauses _ = err invalid_config

unfoldable pub validate_wire : JsonValue → Result PredicateWire
unfolding with_clauses
validate_wire (obj fs) = with_clauses (get (codes "clauses") fs)
validate_wire _ = err invalid_config
