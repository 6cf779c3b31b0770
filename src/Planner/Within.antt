-- ===== src/Planner/Within.antt =====
-- What the maps of a partition keep, and what its bounds say of a value.
use baerly_storage.Common.{
  ◌≡◌, sym, Text, text_eq, text_eq_sound, Bool, true, false, Option, none, some, List, [], ◌∷◌, All,
  Bool-cases, inl, inr,
}
use mathlib.Core.Path.{subst}
use baerly_storage.Common.Int.{ℤ}
use baerly_storage.Json.{JsonValue, strict_eq}
use baerly_storage.Query.{OpName, eq, gt, gte, lt, lte, one_of}
use baerly_storage.Query.Scalars.{strict_eq_sound}
use baerly_storage.Query.Scalars.Order.{Above, Below, compare_gt-Above, compare_lt-Below}
use baerly_storage.Query.Matches.{matches_op}
use baerly_storage.Implication.{js_lt}
use baerly_storage.Implication.Bounds.{if_intro}
use baerly_storage.Planner.{
  map_get, map_set, map_delete, RangeAcc, raise_gte, raise_gt, reduce_lte, reduce_lt, bound_acc,
}

module _ {ℓ} {V : Type ℓ} (P : Text × V → Type 0) where
  pub map_get-All :
      (key : Text) (v : V) (entries : List (Text × V))
      → All P entries
      → map_get key entries ≡ some v
      → P (key, v)
  unfolding map_get
  map_get-All key v [] h e = cc
  map_get-All key v ((k, w) ∷ entries) h e = elim (Bool-cases (text_eq k key)) [
    | inl t ↦
        subst (λ n. P (n, v)) (text_eq_sound k key t)
          (subst (λ u. P (k, u)) (value-inj w v (rw t at e)) h.0)
    | inr t ↦ map_get-All key v entries h.1 (rw t at e)
  ]
    where
      value-inj : (a b : V) → some a ≡ some b → a ≡ b
      value-inj a b k = cc

  pub map_set-All :
      (key : Text) (v : V) (entries : List (Text × V))
      → P (key, v)
      → All P entries
      → All P (map_set key v entries)
  unfolding map_set
  map_set-All key v [] p h = (p, tt)
  map_set-All key v ((k, w) ∷ entries) p h = elim (Bool-cases (text_eq k key)) [
    | inl t ↦ rw (map_set, t) (subst (λ n. P (n, v)) (sym (text_eq_sound k key t)) p, h.1)
    | inr t ↦ rw (map_set, t) (h.0, map_set-All key v entries p h.1)
  ]

  pub map_delete-All :
      (key : Text) (entries : List (Text × V)) → All P entries → All P (map_delete key entries)
  unfolding map_delete
  map_delete-All key [] h = tt
  map_delete-All key ((k, w) ∷ entries) h = elim (Bool-cases (text_eq k key)) [
    | inl t ↦ rw (map_delete, t) (map_delete-All key entries h.1)
    | inr t ↦ rw (map_delete, t) (h.0, map_delete-All key entries h.1)
  ]

abbrev pub AtLeast : JsonValue → Option JsonValue → Bool → Type 0
AtLeast x none i = Unit
AtLeast x (some b) i = Above x b i

abbrev pub AtMost : JsonValue → Option JsonValue → Bool → Type 0
AtMost x none i = Unit
AtMost x (some b) i = Below x b i

pub record Within (x : JsonValue) (acc : RangeAcc) : Type 0 where
  pub lo : AtLeast x acc.lo acc.lo_inclusive
  pub hi : AtMost x acc.hi acc.hi_inclusive

module _ (number_of : JsonValue → Option ℤ) where
  raise_gte-Within :
      (x v : JsonValue) (lo hi : Option JsonValue) (i j : Bool)
      → Above x v true
      → AtLeast x lo i
      → AtMost x hi j
      → Within x
          (raise_gte number_of v (record { lo = lo; hi = hi; lo_inclusive = i; hi_inclusive = j }))
  unfolding raise_gte
  raise_gte-Within x v none hi i j a l h = record { lo = a; hi = h }
  raise_gte-Within x v (some lo) hi i j a l h =
      if_intro (Within x) (js_lt number_of lo v) (record { lo = a; hi = h })
        (record { lo = l; hi = h })

  raise_gt-Within :
      (x v : JsonValue) (lo hi : Option JsonValue) (i j : Bool)
      → Above x v false
      → AtLeast x lo i
      → AtMost x hi j
      → Within x
          (raise_gt number_of v (record { lo = lo; hi = hi; lo_inclusive = i; hi_inclusive = j }))
  unfolding raise_gt
  raise_gt-Within x v none hi i j a l h = record { lo = a; hi = h }
  raise_gt-Within x v (some lo) hi i j a l h =
      if_intro (Within x) (js_lt number_of lo v) (record { lo = a; hi = h })
        (elim (Bool-cases (strict_eq v lo)) [
          | inl e ↦
              rw e (record { lo = subst (λ b. Above x b false) (strict_eq_sound v lo e) a; hi = h })
          | inr e ↦ rw e (record { lo = l; hi = h })
        ])

  reduce_lte-Within :
      (x v : JsonValue) (lo hi : Option JsonValue) (i j : Bool)
      → Below x v true
      → AtLeast x lo i
      → AtMost x hi j
      → Within x
          (reduce_lte number_of v (record { lo = lo; hi = hi; lo_inclusive = i; hi_inclusive = j }))
  unfolding reduce_lte
  reduce_lte-Within x v lo none i j a l h = record { lo = l; hi = a }
  reduce_lte-Within x v lo (some hi) i j a l h =
      if_intro (Within x) (js_lt number_of v hi) (record { lo = l; hi = a })
        (record { lo = l; hi = h })

  reduce_lt-Within :
      (x v : JsonValue) (lo hi : Option JsonValue) (i j : Bool)
      → Below x v false
      → AtLeast x lo i
      → AtMost x hi j
      → Within x
          (reduce_lt number_of v (record { lo = lo; hi = hi; lo_inclusive = i; hi_inclusive = j }))
  unfolding reduce_lt
  reduce_lt-Within x v lo none i j a l h = record { lo = l; hi = a }
  reduce_lt-Within x v lo (some hi) i j a l h =
      if_intro (Within x) (js_lt number_of v hi) (record { lo = l; hi = a })
        (elim (Bool-cases (strict_eq v hi)) [
          | inl e ↦
              rw e (record { lo = l; hi = subst (λ b. Below x b false) (strict_eq_sound v hi e) a })
          | inr e ↦ rw e (record { lo = l; hi = h })
        ])

  pub bound_acc-Within :
      (op : OpName) (x v : JsonValue) (acc : RangeAcc)
      → matches_op op v (some x) ≡ true
      → Within x acc
      → Within x (bound_acc number_of op v acc)
  unfolding bound_acc matches_op
  bound_acc-Within eq x v acc m h = h
  bound_acc-Within one_of x v acc m h = h
  bound_acc-Within gte x v acc m h =
      raise_gte-Within x v acc.lo acc.hi acc.lo_inclusive acc.hi_inclusive
        (compare_gt-Above x v true m) h.lo h.hi
  bound_acc-Within gt x v acc m h =
      raise_gt-Within x v acc.lo acc.hi acc.lo_inclusive acc.hi_inclusive
        (compare_gt-Above x v false m) h.lo h.hi
  bound_acc-Within lte x v acc m h =
      reduce_lte-Within x v acc.lo acc.hi acc.lo_inclusive acc.hi_inclusive
        (compare_lt-Below x v true m) h.lo h.hi
  bound_acc-Within lt x v acc m h =
      reduce_lt-Within x v acc.lo acc.hi acc.lo_inclusive acc.hi_inclusive
        (compare_lt-Below x v false m) h.lo h.hi
