-- ===== src/Implication/Groups.antt =====
-- What the clauses collected under a field say of a document.
use mathlib.Core.Path.{subst}
use baerly_storage.Common.{
  ◌≡◌, refl, ap, sym, ◌∙◌, Text, text_eq, text_eq_sound, true, some, List, [], ◌∷◌, ◌++◌, All,
  All-append, All_of_append, arith, Bool-cases, inl, inr,
}
use baerly_storage.Json.{JsonValue, Fields}
use baerly_storage.Query.{OpName, one_of, PredicateClause, PredicateWire, members}
use baerly_storage.Query.Matches.{matches_wire, matches_clause, matches_op, lookup_path}
use baerly_storage.Query.Satisfiable.Holds.{HasScalars, AllScalar, matches_op-some, some-inj}
use baerly_storage.Implication.{
  ClauseGroups, push_clause, group_clauses_onto, clauses_of, same_typeof,
}

-- The members of a set have one `typeof`.
abbrev pub AreAlike : List JsonValue → Type 0
AreAlike [] = Unit
AreAlike (m ∷ ms) = All (λ n. same_typeof m n ≡ true) ms

abbrev pub HasAlike : OpName → JsonValue → Type 0
HasAlike one_of value = AreAlike (members value)
HasAlike _ value = Unit

-- What a query says of one value: scalars and sets of one `typeof`, and the value satisfies it.
pub record Met (x : JsonValue) (c : PredicateClause) : Type 0 where
  pub scalars : HasScalars c.op c.value
  pub alike : HasAlike c.op c.value
  pub met : matches_op c.op c.value (some x) ≡ true

-- The document has a value at the field that meets every clause.
abbrev pub AllMet : Fields → Text × List PredicateClause → Type 0
AllMet doc g = (x : JsonValue) × (lookup_path doc g.0 ≡ some x) × All (Met x) g.1

push_clause-AllMet :
    (doc : Fields) (c : PredicateClause) (x : JsonValue) (gs : ClauseGroups)
    → lookup_path doc c.field ≡ some x
    → Met x c
    → All (AllMet doc) gs
    → All (AllMet doc) (push_clause c gs)
unfolding push_clause
push_clause-AllMet doc c x [] e m h = ((x, e, (m, tt)), tt)
push_clause-AllMet doc c x ((f, bucket) ∷ gs) e m h = elim (Bool-cases (text_eq f c.field)) [
  | inl t ↦
      let (y, e', ms) = h.0 in
      let same =
        some-inj x y (sym e ∙ (ap (lookup_path doc) (sym (text_eq_sound f c.field t)) ∙ e')) in
      rw t ((y, e', All-append _ bucket (c ∷ []) ms (subst (λ z. Met z c) same m, tt)), h.1)
  | inr t ↦ rw t (h.0, push_clause-AllMet doc c x gs e m h.1)
]

abbrev pub AllAlike : PredicateWire → Type 0
AllAlike = All (λ c. HasAlike c.op c.value)

-- A document that satisfies a query meets the clauses of each of its groups.
pub group_clauses_onto-AllMet :
    (doc : Fields) (wire : PredicateWire) (gs : ClauseGroups)
    → AllScalar wire
    → AllAlike wire
    → matches_wire wire doc ≡ true
    → All (AllMet doc) gs
    → All (AllMet doc) (group_clauses_onto gs wire)
unfolding group_clauses_onto matches_wire matches_clause
group_clauses_onto-AllMet doc [] gs s a m h = h
group_clauses_onto-AllMet doc (c ∷ wire) gs s a m h =
    let met : matches_op c.op c.value (lookup_path doc c.field) ≡ true = ground arith in
    let (x, e) = matches_op-some c.op c.value (lookup_path doc c.field) s.0 met in
    group_clauses_onto-AllMet doc wire (push_clause c gs) s.1 a.1 (ground arith) (
      push_clause-AllMet doc c x gs e (record { scalars = s.0; alike = a.0; met = rw (← e) met }) h)

bucket_inj : (a b : List PredicateClause) → some a ≡ some b → a ≡ b
bucket_inj a b k = cc

pub clauses_of-AllMet :
    (doc : Fields) (field : Text) (clauses : List PredicateClause) (gs : ClauseGroups)
    → All (AllMet doc) gs
    → clauses_of field gs ≡ some clauses
    → AllMet doc (field, clauses)
unfolding clauses_of
clauses_of-AllMet doc field clauses [] h e = cc
clauses_of-AllMet doc field clauses ((f, bucket) ∷ gs) h e = elim (Bool-cases (text_eq f field)) [
  | inl t ↦
      let same : some bucket ≡ some clauses = rw t at e in
      subst (λ b. AllMet doc (field, b)) (bucket_inj bucket clauses same)
        (subst (λ k. AllMet doc (k, bucket)) (text_eq_sound f field t) h.0)
  | inr t ↦ clauses_of-AllMet doc field clauses gs h.1 (rw t at e)
]

-- The document satisfies the clauses of a group.
abbrev pub Accepts : Fields → Text × List PredicateClause → Type 0
Accepts doc g = All (λ c. matches_clause c (lookup_path doc g.0) ≡ true) g.1

push_clause-Accepts :
    (doc : Fields) (c : PredicateClause) (gs : ClauseGroups)
    → All (Accepts doc) (push_clause c gs)
    → All (Accepts doc) gs × (matches_clause c (lookup_path doc c.field) ≡ true)
unfolding push_clause
push_clause-Accepts doc c [] h = (tt, h.0.0)
push_clause-Accepts doc c ((f, bucket) ∷ gs) h = elim (Bool-cases (text_eq f c.field)) [
  | inl t ↦
      let both : All (Accepts doc) ((f, bucket ++ (c ∷ [])) ∷ gs) = rw t at h in
      let (old, new) = All_of_append _ bucket (c ∷ []) both.0 in
      (
        (old, both.1),
        subst (λ k. matches_clause c (lookup_path doc k) ≡ true) (text_eq_sound f c.field t) new.0,
      )
  | inr t ↦
      let both : All (Accepts doc) ((f, bucket) ∷ push_clause c gs) = rw t at h in
      let (old, new) = push_clause-Accepts doc c gs both.1 in ((both.0, old), new)
]

-- A document that satisfies every group satisfies the predicate.
pub group_clauses_onto-Accepts :
    (doc : Fields) (wire : PredicateWire) (gs : ClauseGroups)
    → All (Accepts doc) (group_clauses_onto gs wire)
    → All (Accepts doc) gs × (matches_wire wire doc ≡ true)
unfolding group_clauses_onto matches_wire
group_clauses_onto-Accepts doc [] gs h = (h, refl)
group_clauses_onto-Accepts doc (c ∷ wire) gs h =
    let (grown, rest) = group_clauses_onto-Accepts doc wire (push_clause c gs) h in
    let (old, new) = push_clause-Accepts doc c gs grown in (old, rw (new, rest) refl)
