-- ===== src/Query/Validate/Accepts.antt =====
-- Which values pass the check of predicates.
use baerly_storage.Common.{◌≡◌, ◌↔◌, refl, codes, true, Option, some, [], ◌∷◌}
use baerly_storage.Errors.{ok, >>=-eq-ok, ok-inj}
use baerly_storage.Json.{JsonValue, Items, Fields, str, arr, obj, nil, cons, get}
use baerly_storage.Query.{PredicateClause, PredicateWire}
use baerly_storage.Query.Satisfiable.{assert_wire_satisfiable}
use baerly_storage.Query.Validate.{
  op_text, validate_op, validate_field, validate_value, validate_clause, validate_clauses,
  with_clauses, validate_wire,
}
use baerly_storage.Query.Validate.Parts.{
  IsField, suits, validate_op_sound, validate_op_complete, validate_field_sound,
  validate_field_complete, suits_check, check_suits,
}

-- The value shows the clause, and the clause is well formed.
pub record IsClause (v : JsonValue) (c : PredicateClause) : Type 0 where
  pub props : Fields
  pub is_object : v ≡ obj props
  pub op_shown : get (codes "op") props ≡ some (str (op_text c.op))
  pub field_shown : get (codes "field") props ≡ some (str c.field)
  pub value_shown : get (codes "value") props ≡ some c.value
  pub field_ok : IsField c.field
  pub value_ok : suits c.op c.value ≡ true

pub data AreClauses : Items → PredicateWire → Type 0 where
  no_clause : AreClauses nil []
  next_clause :
      {v : JsonValue} {vs : Items} {c : PredicateClause} {wire : PredicateWire}
      → IsClause v c
      → AreClauses vs wire
      → AreClauses (cons v vs) (c ∷ wire)

-- The value is a well-formed and satisfiable predicate with these clauses.
pub record IsWire (v : JsonValue) (wire : PredicateWire) : Type 0 where
  pub props : Fields
  pub items : Items
  pub is_object : v ≡ obj props
  pub shown : get (codes "clauses") props ≡ some (arr items)
  pub clauses : AreClauses items wire
  pub satisfiable : assert_wire_satisfiable wire ≡ ok tt

validate_clause_sound :
    (v : JsonValue) (c : PredicateClause) → validate_clause v ≡ ok c → IsClause v c
unfolding validate_clause
validate_clause_sound (obj fs) c h =
    let (op, op_ok, h1) = >>=-eq-ok (validate_op (get (codes "op") fs)) _ h in
    let (field, field_ok, h2) = >>=-eq-ok (validate_field (get (codes "field") fs)) _ h1 in
    let (value, value_ok, h3) = >>=-eq-ok (validate_value op (get (codes "value") fs)) _ h2 in
    let (field_shown, named) = validate_field_sound (get (codes "field") fs) field field_ok in
    let (value_shown, suited) = check_suits op (get (codes "value") fs) value value_ok in
    rw (← ok-inj h3) (record {
      props = fs;
      is_object = refl;
      op_shown = validate_op_sound (get (codes "op") fs) op op_ok;
      field_shown = field_shown;
      value_shown = value_shown;
      field_ok = named;
      value_ok = suited;
    })
validate_clause_sound _ c h = cc

validate_clause_complete :
    (v : JsonValue) (c : PredicateClause) → IsClause v c → validate_clause v ≡ ok c
unfolding validate_clause
validate_clause_complete v c h =
    rw
      (
        h.is_object,
        validate_clause,
        h.op_shown,
        validate_op_complete c.op,
        h.field_shown,
        validate_field_complete c.field h.field_ok,
        h.value_shown,
        suits_check c.op c.value h.value_ok,
      )
      refl

validate_clauses_sound :
    (xs : Items) (wire : PredicateWire) → validate_clauses xs ≡ ok wire → AreClauses xs wire
unfolding validate_clauses
validate_clauses_sound nil wire h = rw (← ok-inj h) no_clause
validate_clauses_sound (cons x xs) wire h =
    let (c, first, h1) = >>=-eq-ok (validate_clause x) _ h in
    let (cs, others, h2) = >>=-eq-ok (validate_clauses xs) _ h1 in
    rw (← ok-inj h2)
      (next_clause (validate_clause_sound x c first) (validate_clauses_sound xs cs others))

validate_clauses_complete :
    (xs : Items) (wire : PredicateWire) → AreClauses xs wire → validate_clauses xs ≡ ok wire
unfolding validate_clauses
validate_clauses_complete _ _ no_clause = refl
validate_clauses_complete _ _ (next_clause {v = v} {vs = vs} {c = c} {wire = wire} h rest) =
    rw (validate_clauses, validate_clause_complete v c h, validate_clauses_complete vs wire rest)
      refl

with_clauses_sound :
    (o : Option JsonValue) (wire : PredicateWire)
    → with_clauses o ≡ ok wire
    → (xs : Items) × (o ≡ some (arr xs))
      × AreClauses xs wire
      × (assert_wire_satisfiable wire ≡ ok tt)
unfolding with_clauses
with_clauses_sound (some (arr xs)) wire h =
    let (cs, read, h1) = >>=-eq-ok (validate_clauses xs) _ h in
    let (u, fine, h2) = >>=-eq-ok (assert_wire_satisfiable cs) _ h1 in
    rw (← ok-inj h2) (xs, refl, validate_clauses_sound xs cs read, fine)
with_clauses_sound _ wire h = cc

validate_wire_sound :
    (v : JsonValue) (wire : PredicateWire) → validate_wire v ≡ ok wire → IsWire v wire
unfolding validate_wire
validate_wire_sound (obj fs) wire h =
    let (xs, shown, clauses, fine) = with_clauses_sound (get (codes "clauses") fs) wire h in
    record {
      props = fs;
      items = xs;
      is_object = refl;
      shown = shown;
      clauses = clauses;
      satisfiable = fine;
    }
validate_wire_sound _ wire h = cc

validate_wire_complete :
    (v : JsonValue) (wire : PredicateWire) → IsWire v wire → validate_wire v ≡ ok wire
unfolding validate_wire with_clauses
validate_wire_complete v wire h =
    rw
      (
        h.is_object,
        validate_wire,
        h.shown,
        with_clauses,
        validate_clauses_complete h.items wire h.clauses,
        h.satisfiable,
      )
      refl

-- The check of predicates lets exactly those values through that are objects whose clauses are
-- an array of objects, each with one of the six operators, a field that is not empty, not _id
-- and no path below it, and a value that suits the operator, and whose clauses pass the
-- satisfiability check; it returns these clauses. A value suits a membership if it is an array,
-- not empty, without null and arrays in it; a range if it is a string or a number; and an
-- equality if it is neither null nor an array.
pub validate_wire_iff :
    (v : JsonValue) (wire : PredicateWire) → (validate_wire v ≡ ok wire) ↔ IsWire v wire
validate_wire_iff v wire = (validate_wire_sound v wire, validate_wire_complete v wire)
