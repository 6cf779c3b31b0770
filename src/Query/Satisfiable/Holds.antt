-- ===== src/Query/Satisfiable/Holds.antt =====
-- The clauses of a field that hold of a value are collected into a group that holds of it.
use mathlib.Core.Bool.{Bool, true, false, not, ◌||◌}
use baerly_storage.Common.{
  ◌≡◌, refl, ap, sym, Option, none, some, List, [], ◌∷◌, ◌++◌, All, All-append, any, arith,
  Bool-cases, inl, inr, ◌&&◌, if◌then◌else◌,
}
use baerly_storage.Errors.{ok}
use baerly_storage.Json.{JsonValue, bool, num, str}
use baerly_storage.Query.{OpName, eq, gt, gte, lt, lte, one_of, PredicateWire, members}
use baerly_storage.Query.Scalars.{
  compare_scalar, deep_equal_document_value, is_scalar, strict_eq_sound,
  deep_equal_document_value_refl,
}
use baerly_storage.Query.Scalars.Order.{
  Above, Below, compare_gt-Above, compare_lt-Below, same_type_via,
}
use baerly_storage.Query.Matches.{matches_eq, matches_in, matches_op, compare_gt, compare_lt}
use baerly_storage.Query.Satisfiable.{
  Bound, FieldGroup, is_lt, is_eq, is_gt, tighten_lower, tighten_upper, apply_op,
}

-- The values that a clause compares by equality are strings, numbers or booleans.
abbrev pub AreScalars : List JsonValue → Type 0
AreScalars = All (λ m. is_scalar m ≡ true)

abbrev pub HasScalars : OpName → JsonValue → Type 0
HasScalars eq value = is_scalar value ≡ true
HasScalars one_of value = All (λ m. is_scalar m ≡ true) (members value)
HasScalars _ value = Unit

abbrev pub AllScalar : PredicateWire → Type 0
AllScalar = All (λ c. HasScalars c.op c.value)

pub matches_eq-scalar :
    (e : JsonValue) (v : Option JsonValue) → is_scalar e ≡ true → matches_eq e v ≡ true → v ≡ some e
unfolding matches_eq
matches_eq-scalar (bool b) (some v) s h = ap some (sym (strict_eq_sound (bool b) v h))
matches_eq-scalar (num n) (some v) s h = ap some (sym (strict_eq_sound (num n) v h))
matches_eq-scalar (str t) (some v) s h = ap some (sym (strict_eq_sound (str t) v h))
matches_eq-scalar _ _ s h = cc

abbrev pub has_it : JsonValue → List JsonValue → Bool
has_it x = any (λ m. deep_equal_document_value x m)

-- `x` is a scalar and a member of the set.
pub record IsMember (x : JsonValue) (set : List JsonValue) : Type 0 where
  pub scalar : is_scalar x ≡ true
  pub found : has_it x set ≡ true

pub matches_in-scalar :
    (ms : List JsonValue) (v : Option JsonValue)
    → AreScalars ms
    → matches_in ms v ≡ true
    → (x : JsonValue) × (v ≡ some x) × IsMember x ms
unfolding matches_in
matches_in-scalar [] v s h = cc
matches_in-scalar (m ∷ ms) v s h = elim (Bool-cases (matches_eq m v)) [
  | inl e ↦ (
    m,
    matches_eq-scalar m v s.0 e,
    record { scalar = s.0; found = ground (arith, deep_equal_document_value_refl m s.0) },
  )
  | inr e ↦
      let (x, eq_x, mem) = matches_in-scalar ms v s.1 (ground arith) in
      (x, eq_x, record { scalar = mem.scalar; found = ground (arith, mem.found) })
]

abbrev pub AboveLo : JsonValue → Option Bound → Type 0
AboveLo x none = Unit
AboveLo x (some b) = Above x b.value b.inclusive

abbrev pub BelowHi : JsonValue → Option Bound → Type 0
BelowHi x none = Unit
BelowHi x (some b) = Below x b.value b.inclusive

-- `x` satisfies every clause collected in the group.
pub record Holds (g : FieldGroup) (x : JsonValue) : Type 0 where
  pub eqs : All (λ e. (e ≡ x) × (is_scalar x ≡ true)) g.eqs
  pub ins : All (IsMember x) g.ins
  pub lo : AboveLo x g.lo
  pub hi : BelowHi x g.hi

tighten_lower-Holds :
    (g : FieldGroup) (x value : JsonValue) (i : Bool) (lo : Option Bound)
    → Holds g x
    → AboveLo x lo
    → Above x value i
    → (g' : FieldGroup) × (tighten_lower g lo value i ≡ ok g') × Holds g' x
unfolding tighten_lower
tighten_lower-Holds g x value i none h a b = (
  record g { lo = some (record { value = value; inclusive = i }) },
  refl,
  record { eqs = h.eqs; ins = h.ins; lo = b; hi = h.hi },
)
tighten_lower-Holds g x value i (some lo) h a b =
    rw (same_type_via x lo.value value a.same b.same) (
      choose (
        is_lt (compare_scalar lo.value value)
        || (is_eq (compare_scalar lo.value value) && (not i && lo.inclusive))))
  where
    choose :
        (t : Bool)
        → (g' : FieldGroup) × ((if t
              then ok (record g { lo = some (record { value = value; inclusive = i }) })
              else ok g)
            ≡ ok g')
          × Holds g' x
    choose true = (
      record g { lo = some (record { value = value; inclusive = i }) },
      refl,
      record { eqs = h.eqs; ins = h.ins; lo = b; hi = h.hi },
    )
    choose false = (g, refl, h)

tighten_upper-Holds :
    (g : FieldGroup) (x value : JsonValue) (i : Bool) (hi : Option Bound)
    → Holds g x
    → BelowHi x hi
    → Below x value i
    → (g' : FieldGroup) × (tighten_upper g hi value i ≡ ok g') × Holds g' x
unfolding tighten_upper
tighten_upper-Holds g x value i none h a b = (
  record g { hi = some (record { value = value; inclusive = i }) },
  refl,
  record { eqs = h.eqs; ins = h.ins; lo = h.lo; hi = b },
)
tighten_upper-Holds g x value i (some hi) h a b =
    rw (same_type_via x hi.value value a.same b.same) (
      choose (
        is_gt (compare_scalar hi.value value)
        || (is_eq (compare_scalar hi.value value) && (not i && hi.inclusive))))
  where
    choose :
        (t : Bool)
        → (g' : FieldGroup) × ((if t
              then ok (record g { hi = some (record { value = value; inclusive = i }) })
              else ok g)
            ≡ ok g')
          × Holds g' x
    choose true = (
      record g { hi = some (record { value = value; inclusive = i }) },
      refl,
      record { eqs = h.eqs; ins = h.ins; lo = h.lo; hi = b },
    )
    choose false = (g, refl, h)

compare_gt-some :
    (v : Option JsonValue) (b : JsonValue) (i : Bool)
    → compare_gt v b i ≡ true
    → (x : JsonValue) × (v ≡ some x)
unfolding compare_gt
compare_gt-some none b i h = cc
compare_gt-some (some x) b i h = (x, refl)

compare_lt-some :
    (v : Option JsonValue) (b : JsonValue) (i : Bool)
    → compare_lt v b i ≡ true
    → (x : JsonValue) × (v ≡ some x)
unfolding compare_lt
compare_lt-some none b i h = cc
compare_lt-some (some x) b i h = (x, refl)

-- A clause that holds speaks of a value that is there.
pub matches_op-some :
    (op : OpName) (value : JsonValue) (v : Option JsonValue)
    → HasScalars op value
    → matches_op op value v ≡ true
    → (x : JsonValue) × (v ≡ some x)
unfolding matches_op
matches_op-some eq value v s h = (value, matches_eq-scalar value v s h)
matches_op-some one_of value v s h =
    let (x, e, _) = matches_in-scalar (members value) v s h in (x, e)
matches_op-some gt value v s h = compare_gt-some v value false h
matches_op-some gte value v s h = compare_gt-some v value true h
matches_op-some lt value v s h = compare_lt-some v value false h
matches_op-some lte value v s h = compare_lt-some v value true h

pub some-inj : (a b : JsonValue) → some a ≡ some b → a ≡ b
some-inj a b h = cc

pub apply_op-Holds :
    (op : OpName) (value x : JsonValue) (g : FieldGroup)
    → HasScalars op value
    → matches_op op value (some x) ≡ true
    → Holds g x
    → (g' : FieldGroup) × (apply_op op value g ≡ ok g') × Holds g' x
unfolding apply_op matches_op
apply_op-Holds eq value x g s m h =
    let e = some-inj x value (matches_eq-scalar value (some x) s m) in
    (
      record g { eqs = g.eqs ++ value ∷ [] },
      refl,
      record {
        eqs = All-append _ g.eqs (value ∷ []) h.eqs ((sym e, rw e s), tt);
        ins = h.ins;
        lo = h.lo;
        hi = h.hi;
      },
    )
apply_op-Holds one_of value x g s m h =
    let (y, e, mem) = matches_in-scalar (members value) (some x) s m in
    (
      record g { ins = g.ins ++ members value ∷ [] },
      refl,
      record {
        eqs = h.eqs;
        ins = All-append _ g.ins (members value ∷ []) h.ins (rw (some-inj x y e) mem, tt);
        lo = h.lo;
        hi = h.hi;
      },
    )
apply_op-Holds gt value x g s m h =
    tighten_lower-Holds g x value false g.lo h h.lo (compare_gt-Above x value false m)
apply_op-Holds gte value x g s m h =
    tighten_lower-Holds g x value true g.lo h h.lo (compare_gt-Above x value true m)
apply_op-Holds lt value x g s m h =
    tighten_upper-Holds g x value false g.hi h h.hi (compare_lt-Below x value false m)
apply_op-Holds lte value x g s m h =
    tighten_upper-Holds g x value true g.hi h h.hi (compare_lt-Below x value true m)
