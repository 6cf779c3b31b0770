-- ===== src/Query/Satisfiable/Sound.antt =====
-- A predicate that some document matches is not refused.
use mathlib.Core.Bool.{true, false}
use baerly_storage.Common.{
  ◌≡◌, refl, ap, sym, ◌∙◌, Text, text_eq, text_eq_sound, Option, none, some, List, [], ◌∷◌, All,
  get_or, arith, Bool-cases, &&_split, inl, inr,
}
use baerly_storage.Errors.{ok}
use baerly_storage.Json.{JsonValue, Fields}
use baerly_storage.Query.{PredicateWire}
use baerly_storage.Query.Scalars.{
  compare_scalar, deep_equal_document_value, is_scalar, deep_equal_document_value_refl,
  deep_equal_document_value_sound,
}
use baerly_storage.Query.Scalars.Order.{same_type_sym, lt_le_trans, le_lt_trans, le_le_trans}
use baerly_storage.Query.Matches.{lookup_path, matches_wire, matches_clause}
use baerly_storage.Query.Satisfiable.{
  Bound, FieldGroup, empty_group, apply_clause, Groups, group_of, put_group, group_onto,
  keep_common, intersect_onto, assert_all_equal, assert_eqs_agree, assert_interval, assert_eq_above,
  assert_eq_below, assert_eq_in_sets, assert_eq_allowed, assert_sets_intersect, assert_group,
  assert_groups, assert_wire_satisfiable, is_empty,
}
use baerly_storage.Query.Satisfiable.Holds.{
  AllScalar, has_it, IsMember, AboveLo, BelowHi, Holds, matches_op-some, apply_op-Holds,
}

abbrev AllAre : JsonValue → List JsonValue → Type 0
AllAre x = All (λ e. (e ≡ x) × (is_scalar x ≡ true))

assert_all_equal-ok :
    (x : JsonValue) (es : List JsonValue)
    → AllAre x es
    → is_scalar x ≡ true
    → assert_all_equal x es ≡ ok tt
unfolding assert_all_equal
assert_all_equal-ok x [] h s = refl
assert_all_equal-ok x (e ∷ es) h s =
    rw (h.0.0, deep_equal_document_value_refl x s) (assert_all_equal-ok x es h.1 s)

assert_eqs_agree-ok :
    (x : JsonValue) (es : List JsonValue) → AllAre x es → assert_eqs_agree es ≡ ok tt
unfolding assert_eqs_agree
assert_eqs_agree-ok x [] h = refl
assert_eqs_agree-ok x (e ∷ es) h = rw (h.0.0) (assert_all_equal-ok x es h.1 h.0.1)

assert_interval-ok :
    (x : JsonValue) (lo hi : Option Bound)
    → AboveLo x lo
    → BelowHi x hi
    → assert_interval lo hi ≡ ok tt
unfolding assert_interval compare_scalar
assert_interval-ok x none hi a b = refl
assert_interval-ok x (some lo) none a b = refl
assert_interval-ok x (some lo) (some hi) a b =
    let same = same_type_sym x lo.value a.same in
    ground (
      arith,
      same,
      le_le_trans lo.value x hi.value same a.not_below b.not_above,
      lt_le_trans lo.value x hi.value b.same,
      le_lt_trans lo.value x hi.value same a.not_below,
    )

assert_eq_above-ok :
    (x : JsonValue) (lo : Option Bound) → AboveLo x lo → assert_eq_above x lo ≡ ok tt
unfolding assert_eq_above compare_scalar
assert_eq_above-ok x none a = refl
assert_eq_above-ok x (some lo) a = ground arith

assert_eq_below-ok :
    (x : JsonValue) (hi : Option Bound) → BelowHi x hi → assert_eq_below x hi ≡ ok tt
unfolding assert_eq_below compare_scalar
assert_eq_below-ok x none b = refl
assert_eq_below-ok x (some hi) b = ground arith

assert_eq_in_sets-ok :
    (x : JsonValue) (sets : List (List JsonValue))
    → All (IsMember x) sets
    → assert_eq_in_sets x sets ≡ ok tt
unfolding assert_eq_in_sets
assert_eq_in_sets-ok x [] h = refl
assert_eq_in_sets-ok x (set ∷ sets) h = rw (h.0.found) (assert_eq_in_sets-ok x sets h.1)

assert_eq_allowed-ok :
    (x : JsonValue) (es : List JsonValue) (g : FieldGroup)
    → AllAre x es
    → Holds g x
    → assert_eq_allowed es g ≡ ok tt
unfolding assert_eq_allowed
assert_eq_allowed-ok x [] g h k = refl
assert_eq_allowed-ok x (e ∷ es) g h k =
    rw (h.0.0, assert_eq_above-ok x g.lo k.lo, assert_eq_below-ok x g.hi k.hi)
      (assert_eq_in_sets-ok x g.ins k.ins)

keep_common-found :
    (x : JsonValue) (acc set : List JsonValue)
    → is_scalar x ≡ true
    → has_it x acc ≡ true
    → has_it x set ≡ true
    → has_it x (keep_common acc set) ≡ true
unfolding keep_common
keep_common-found x [] set s h k = cc
keep_common-found x (a ∷ acc) set s h k = elim (Bool-cases (deep_equal_document_value x a)) [
  | inl e ↦
      rw (← deep_equal_document_value_sound x a s e)
        (rw k (rw (deep_equal_document_value_refl x s)))
  | inr e ↦ ground (arith, keep_common-found x acc set s)
]

intersect_onto-found :
    (x : JsonValue) (acc : List JsonValue) (sets : List (List JsonValue))
    → IsMember x acc
    → All (IsMember x) sets
    → has_it x (intersect_onto acc sets) ≡ true
unfolding intersect_onto
intersect_onto-found x acc [] m h = m.found
intersect_onto-found x acc (set ∷ sets) m h =
    intersect_onto-found x (keep_common acc set) sets
      (record { scalar = m.scalar; found = keep_common-found x acc set m.scalar m.found h.0.found })
      h.1

not-is_empty : (x : JsonValue) (l : List JsonValue) → has_it x l ≡ true → is_empty l ≡ false
not-is_empty x [] h = sym h
not-is_empty x (a ∷ l) h = refl

assert_sets_intersect-ok :
    (x : JsonValue) (sets : List (List JsonValue))
    → All (IsMember x) sets
    → assert_sets_intersect sets ≡ ok tt
unfolding assert_sets_intersect
assert_sets_intersect-ok x [] h = refl
assert_sets_intersect-ok x (s ∷ []) h = refl
assert_sets_intersect-ok x (s ∷ t ∷ sets) h =
    rw (not-is_empty x (intersect_onto s (t ∷ sets)) (intersect_onto-found x s (t ∷ sets) h.0 h.1))

assert_group-ok : (g : FieldGroup) (x : JsonValue) → Holds g x → assert_group g ≡ ok tt
unfolding assert_group
assert_group-ok g x h =
    rw
      (
        assert_eqs_agree-ok x g.eqs h.eqs,
        assert_interval-ok x g.lo g.hi h.lo h.hi,
        assert_eq_allowed-ok x g.eqs g h.eqs h,
      )
      (assert_sets_intersect-ok x g.ins h.ins)

-- Every group holds of the value that the document has in its field.
abbrev GroupsHold : Fields → Groups → Type 0
GroupsHold doc = All (λ fg. (x : JsonValue) × (lookup_path doc fg.0 ≡ some x) × Holds fg.1 x)

assert_groups-ok :
    (doc : Fields) (groups : Groups) → GroupsHold doc groups → assert_groups groups ≡ ok tt
unfolding assert_groups
assert_groups-ok doc [] h = refl
assert_groups-ok doc ((f, g) ∷ groups) h =
    rw (assert_group-ok g h.0.0 h.0.2) (assert_groups-ok doc groups h.1)

group_of-Holds :
    (doc : Fields) (field : Text) (x : JsonValue) (groups : Groups)
    → lookup_path doc field ≡ some x
    → GroupsHold doc groups
    → Holds (get_or (group_of field groups) empty_group) x
unfolding group_of
group_of-Holds doc field x [] e h = record { eqs = tt; ins = tt; lo = tt; hi = tt }
group_of-Holds doc field x ((f, g) ∷ groups) e h = elim (Bool-cases (text_eq f field)) [
  | inl same ↦ rw same (
      rw
        (some-inj x h.0.0 (sym e ∙ ap (lookup_path doc) (sym (text_eq_sound f field same)) ∙ h.0.1))
        h.0.2)
  | inr other ↦ rw other (group_of-Holds doc field x groups e h.1)
]
  where
    some-inj : (a b : JsonValue) → some a ≡ some b → a ≡ b
    some-inj a b p = cc

put_group-GroupsHold :
    (doc : Fields) (field : Text) (g : FieldGroup) (x : JsonValue) (groups : Groups)
    → lookup_path doc field ≡ some x
    → Holds g x
    → GroupsHold doc groups
    → GroupsHold doc (put_group field g groups)
unfolding put_group
put_group-GroupsHold doc field g x [] e k h = ((x, e, k), tt)
put_group-GroupsHold doc field g x ((f, g') ∷ groups) e k h = elim (Bool-cases (text_eq f field)) [
  | inl same ↦ rw same ((x, ap (lookup_path doc) (text_eq_sound f field same) ∙ e, k), h.1)
  | inr other ↦ rw other (h.0, put_group-GroupsHold doc field g x groups e k h.1)
]

group_onto-GroupsHold :
    (doc : Fields) (wire : PredicateWire) (groups : Groups)
    → AllScalar wire
    → matches_wire wire doc ≡ true
    → GroupsHold doc groups
    → (all : Groups) × (group_onto groups wire ≡ ok all) × GroupsHold doc all
unfolding group_onto matches_wire apply_clause
group_onto-GroupsHold doc [] groups s m h = (groups, refl, h)
group_onto-GroupsHold doc (c ∷ wire) groups s m h =
    let (here, rest) =
      &&_split (matches_clause c (lookup_path doc c.field)) (matches_wire wire doc) m in
    let (x, e) = matches_op-some c.op c.value (lookup_path doc c.field) s.0 here in
    let (g, applied, holds) =
      apply_op-Holds c.op c.value x (get_or (group_of c.field groups) empty_group) s.0
        (rw (← e) here) (group_of-Holds doc c.field x groups e h) in
    rw applied (
      group_onto-GroupsHold doc wire (put_group c.field g groups) s.1 rest
        (put_group-GroupsHold doc c.field g x groups e holds h))

-- A predicate whose equality and membership values are strings, numbers or booleans, and which
-- some document matches, passes the satisfiability check: only contradictions are refused.
pub assert_wire_satisfiable_sound :
    (wire : PredicateWire) (doc : Fields)
    → AllScalar wire
    → matches_wire wire doc ≡ true
    → assert_wire_satisfiable wire ≡ ok tt
unfolding assert_wire_satisfiable
assert_wire_satisfiable_sound wire doc s m =
    let (groups, grouped, holds) = group_onto-GroupsHold doc wire [] s m tt in
    rw grouped (assert_groups-ok doc groups holds)
