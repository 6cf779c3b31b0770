-- ===== src/Implication/Sets.antt =====
-- The ends of a set of one `typeof` bound its members.
use baerly_storage.Common.{
  ◌≡◌, true, false, Option, List, [], ◌∷◌, All, Bool-cases, inl, inr, if◌then◌else◌,
}
use baerly_storage.Common.Int.{ℤ}
use baerly_storage.Json.{JsonValue}
use baerly_storage.Query.Scalars.{
  same_comparable_type, scalar_lt, scalar_lt_irrefl, deep_equal_document_value,
  deep_equal_document_value_sound, is_scalar,
}
use baerly_storage.Query.Scalars.Order.{same_type_via, same_type_sym, le_le_trans, scalar_lt_asymm}
use baerly_storage.Query.Satisfiable.Holds.{has_it}
use baerly_storage.Implication.{same_typeof, js_lt}
use baerly_storage.Implication.Check.{smallest, largest}
use baerly_storage.Implication.Bounds.{
  is_comparable, same_typeof-comparable, js_lt-scalar_lt, comparable_right,
}

abbrev pub AllSame : JsonValue → List JsonValue → Type 0
AllSame a = All (λ m. same_comparable_type a m ≡ true)

AllSame-via :
    (a b : JsonValue) (ms : List JsonValue)
    → same_comparable_type a b ≡ true
    → AllSame a ms
    → AllSame b ms
AllSame-via a b [] t h = tt
AllSame-via a b (m ∷ ms) t h = (same_type_via a b m t h.0, AllSame-via a b ms t h.1)

pub AreAlike-AllSame :
    (a : JsonValue) (ms : List JsonValue)
    → is_comparable a ≡ true
    → All (λ n. same_typeof a n ≡ true) ms
    → AllSame a ms
AreAlike-AllSame a [] c h = tt
AreAlike-AllSame a (m ∷ ms) c h = (same_typeof-comparable a m c h.0, AreAlike-AllSame a ms c h.1)

-- Whether the first value is at most the second one.
pub record AtMost (v m : JsonValue) : Type 0 where
  pub same : same_comparable_type v m ≡ true
  pub order : scalar_lt m v ≡ false

AtMost-trans : (a b c : JsonValue) → AtMost a b → AtMost b c → AtMost a c
AtMost-trans a b c h k = record {
  same = same_type_via b a c (same_type_sym a b h.same) k.same;
  order = le_le_trans a b c h.same h.order k.order;
}

module _ (number_of : JsonValue → Option ℤ) where
  abbrev lesser : JsonValue → JsonValue → JsonValue
  lesser v acc = if js_lt number_of v acc then v else acc

  abbrev greater : JsonValue → JsonValue → JsonValue
  greater v acc = if js_lt number_of acc v then v else acc

  lesser-AtMost :
      (v acc : JsonValue)
      → same_comparable_type acc v ≡ true
      → AtMost (lesser v acc) acc × AtMost (lesser v acc) v
  lesser-AtMost v acc t =
      let e = js_lt-scalar_lt number_of v acc (same_type_sym acc v t) in
      elim (Bool-cases (scalar_lt v acc)) [
        | inl l ↦
            rw (e, l)
              (
                record { same = same_type_sym acc v t; order = scalar_lt_asymm v acc l },
                record { same = comparable_right acc v t; order = scalar_lt_irrefl v },
              )
        | inr l ↦
            rw (e, l)
              (
                record {
                  same = comparable_right v acc (same_type_sym acc v t);
                  order = scalar_lt_irrefl acc;
                },
                record { same = t; order = l },
              )
      ]

  greater-AtMost :
      (v acc : JsonValue)
      → same_comparable_type acc v ≡ true
      → AtMost acc (greater v acc) × AtMost v (greater v acc)
  greater-AtMost v acc t =
      let e = js_lt-scalar_lt number_of acc v t in
      elim (Bool-cases (scalar_lt acc v)) [
        | inl l ↦
            rw (e, l)
              (
                record { same = t; order = scalar_lt_asymm acc v l },
                record { same = comparable_right acc v t; order = scalar_lt_irrefl v },
              )
        | inr l ↦
            rw (e, l)
              (
                record {
                  same = comparable_right v acc (same_type_sym acc v t);
                  order = scalar_lt_irrefl acc;
                },
                record { same = same_type_sym acc v t; order = l },
              )
      ]

  pub smallest-AtMost :
      (acc : JsonValue) (set : List JsonValue)
      → is_comparable acc ≡ true
      → AllSame acc set
      → AtMost (smallest number_of acc set) acc × All (AtMost (smallest number_of acc set)) set
  unfolding smallest
  smallest-AtMost acc [] c h = (record { same = c; order = scalar_lt_irrefl acc }, tt)
  smallest-AtMost acc (v ∷ vs) c h =
      let next = lesser v acc in
      let (le_acc, le_v) = lesser-AtMost v acc h.0 in
      let t = same_type_sym next acc le_acc.same in
      let (le_next, le_vs) =
        smallest-AtMost next vs (comparable_right acc next t) (AllSame-via acc next vs t h.1) in
      let first = smallest number_of next vs in
      (AtMost-trans first next acc le_next le_acc, (AtMost-trans first next v le_next le_v, le_vs))

  pub largest-AtMost :
      (acc : JsonValue) (set : List JsonValue)
      → is_comparable acc ≡ true
      → AllSame acc set
      → AtMost acc (largest number_of acc set) × All (λ m. AtMost m (largest number_of acc set)) set
  unfolding largest
  largest-AtMost acc [] c h = (record { same = c; order = scalar_lt_irrefl acc }, tt)
  largest-AtMost acc (v ∷ vs) c h =
      let next = greater v acc in
      let (acc_le, v_le) = greater-AtMost v acc h.0 in
      let t = acc_le.same in
      let (next_le, vs_le) =
        largest-AtMost next vs (comparable_right acc next t) (AllSame-via acc next vs t h.1) in
      let last = largest number_of next vs in
      (AtMost-trans acc next last acc_le next_le, (AtMost-trans v next last v_le next_le, vs_le))

pub IsMember-All :
    (P : JsonValue → Type 0) (x : JsonValue) (set : List JsonValue)
    → is_scalar x ≡ true
    → has_it x set ≡ true
    → All P set
    → P x
IsMember-All P x [] s h a = cc
IsMember-All P x (m ∷ ms) s h a = elim (Bool-cases (deep_equal_document_value x m)) [
  | inl e ↦ rw (deep_equal_document_value_sound x m s e) a.0
  | inr e ↦ IsMember-All P x ms s (rw e at h) a.1
]
