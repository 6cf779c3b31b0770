-- ===== src/Json/Equality.antt =====
-- `jsonValueEqual` is the recursive structural equality, and ends within its fuel.
use mathlib.Core.Bool.{Bool, true, false, ◌&&◌}
use baerly_storage.Common.{
  ℕ, zero, suc, ◌+◌, ◌≤◌, ◌==◌, ◌≡◌, refl, Text, none, some, List, [], ◌∷◌, arith, ◌<◌, ◌∙◌, ap,
  Option-cases, inl, inr,
}
use baerly_storage.Json.{
  JsonValue, Items, Fields, null, bool, num, str, arr, obj, nil, cons, end, prop, strict_eq,
  length_items, length_fields, get, size, size_items, size_fields, push_items, push_fields,
  equal_round, equal_loop, json_value_equal,
}

-- The reference: two arrays agree item by item, two objects have as many keys and agree at each
-- key of the first, and two other values are identical.
unfoldable mutual
  pub deep_equal : JsonValue → JsonValue → Bool
  deep_equal (arr xs) (arr ys) = length_items xs == length_items ys && deep_equal_items xs ys
  deep_equal (obj fs) (obj gs) = length_fields fs == length_fields gs && deep_equal_fields fs gs
  deep_equal null b = strict_eq null b
  deep_equal (bool x) b = strict_eq (bool x) b
  deep_equal (num x) b = strict_eq (num x) b
  deep_equal (str x) b = strict_eq (str x) b
  deep_equal a b = false

  pub deep_equal_items : Items → Items → Bool
  deep_equal_items (cons x xs) (cons y ys) = deep_equal x y && deep_equal_items xs ys
  deep_equal_items _ _ = true

  pub deep_equal_fields : Fields → Fields → Bool
  deep_equal_fields end right = true
  deep_equal_fields (prop k v fs) right = elim (get k right) [
    | none ↦ false
    | some w ↦ deep_equal v w && deep_equal_fields fs right
  ]

abbrev Pending : Type 0
Pending = List (JsonValue × JsonValue)

-- What is left to compare agrees.
agree : Pending → Bool
agree [] = true
agree ((a, b) ∷ pending) = deep_equal a b && agree pending

-- The rounds that it can take.
total : Pending → ℕ
total [] = 0
total ((a, b) ∷ pending) = size a + total pending

push_items_lem :
    (xs ys : Items) (pending : Pending)
    → length_items xs ≡ length_items ys
    → (agree (push_items xs ys pending) ≡ (deep_equal_items xs ys && agree pending))
      × (total (push_items xs ys pending) ≡ size_items xs + total pending)
unfolding push_items length_items deep_equal agree total size
push_items_lem nil ys pending h = (refl, omega arith)
push_items_lem (cons x xs) nil pending h = absurd (omega arith)
push_items_lem (cons x xs) (cons y ys) pending h =
    let ih = push_items_lem xs ys ((x, y) ∷ pending) (omega arith) in
    (ground (arith, ih), omega (arith, ih))

deep_equal_fields-absent :
    (k : Text) (v : JsonValue) (fs gs : Fields)
    → get k gs ≡ none
    → deep_equal_fields (prop k v fs) gs ≡ false
unfolding deep_equal
deep_equal_fields-absent k v fs gs e = rw (e, deep_equal_fields)

deep_equal_fields-present :
    (k : Text) (v w : JsonValue) (fs gs : Fields)
    → get k gs ≡ some w
    → deep_equal_fields (prop k v fs) gs ≡ (deep_equal v w && deep_equal_fields fs gs)
unfolding deep_equal
deep_equal_fields-present k v w fs gs e = rw (e, deep_equal_fields)

push_fields-none :
    (fs gs : Fields) (pending : Pending)
    → push_fields fs gs pending ≡ none
    → deep_equal_fields fs gs ≡ false
unfolding push_fields
push_fields-none end gs pending h = cc
push_fields-none (prop k v fs) gs pending h = elim (Option-cases (get k gs)) [
  | inl e ↦ deep_equal_fields-absent k v fs gs e
  | inr (w, e) ↦
      ground
        (arith, deep_equal_fields-present k v w fs gs e, push_fields-none fs gs ((v, w) ∷ pending))
]

deep_equal_fields-end : (gs : Fields) → deep_equal_fields end gs ≡ true
unfolding deep_equal
deep_equal_fields-end gs = refl

size_fields-end : size_fields end ≡ 0
unfolding size
size_fields-end = refl

size_fields-prop :
    (k : Text) (v : JsonValue) (fs : Fields) → size_fields (prop k v fs) ≡ size v + size_fields fs
unfolding size
size_fields-prop k v fs = refl

push_fields-some :
    (fs gs : Fields) (pending more : Pending)
    → push_fields fs gs pending ≡ some more
    → (agree more ≡ (deep_equal_fields fs gs && agree pending))
      × (total more ≡ size_fields fs + total pending)
unfolding push_fields agree total
push_fields-some end gs pending more h =
    (ground (arith, deep_equal_fields-end gs), ground (arith, size_fields-end))
push_fields-some (prop k v fs) gs pending more h = elim (Option-cases (get k gs)) [
  | inl e ↦ absurd (ground arith)
  | inr (w, e) ↦
      let present = deep_equal_fields-present k v w fs gs e in
      let ih = push_fields-some fs gs ((v, w) ∷ pending) more (ground arith) in
      (ground (arith, present, ih), omega (arith, ih, size_fields-prop k v fs))
]

-- A round that goes on keeps the answer and takes one step off; a round that stops is right.
equal_round-none :
    (a b : JsonValue) (pending : Pending) → equal_round a b pending ≡ none → deep_equal a b ≡ false
unfolding equal_round deep_equal
equal_round-none (arr xs) (arr ys) pending h = ground arith
equal_round-none (obj fs) (obj gs) pending h = ground (arith, push_fields-none fs gs pending)
equal_round-none (arr xs) _ pending h = refl
equal_round-none (obj fs) _ pending h = refl
equal_round-none null b pending h = ground arith
equal_round-none (bool x) b pending h = ground arith
equal_round-none (num x) b pending h = ground arith
equal_round-none (str x) b pending h = ground arith

abbrev Kept : JsonValue → JsonValue → Pending → Pending → Type 0
Kept a b pending more =
    (agree more ≡ (deep_equal a b && agree pending)) × (total more + 1 ≡ size a + total pending)

size-arr : (xs : Items) → size (arr xs) ≡ suc (size_items xs)
unfolding size
size-arr xs = refl

size-obj : (fs : Fields) → size (obj fs) ≡ suc (size_fields fs)
unfolding size
size-obj fs = refl

equal_round-arr :
    (xs ys : Items) (pending more : Pending)
    → equal_round (arr xs) (arr ys) pending ≡ some more
    → Kept (arr xs) (arr ys) pending more
unfolding equal_round deep_equal
equal_round-arr xs ys pending more h =
    let pushed = push_items_lem xs ys pending in
    (ground (arith, pushed), ground (arith, pushed, size-arr xs))

equal_round-obj :
    (fs gs : Fields) (pending more : Pending)
    → equal_round (obj fs) (obj gs) pending ≡ some more
    → Kept (obj fs) (obj gs) pending more
unfolding equal_round deep_equal
equal_round-obj fs gs pending more h =
    let pushed = push_fields-some fs gs pending more in
    (ground (arith, pushed), ground (arith, pushed, size-obj fs))

equal_round-some :
    (a b : JsonValue) (pending more : Pending)
    → equal_round a b pending ≡ some more
    → Kept a b pending more
unfolding equal_round deep_equal size
equal_round-some (arr xs) (arr ys) pending more h = equal_round-arr xs ys pending more h
equal_round-some (obj fs) (obj gs) pending more h = equal_round-obj fs gs pending more h
equal_round-some (arr xs) _ pending more h = cc
equal_round-some (obj fs) _ pending more h = cc
equal_round-some null b pending more h = (ground arith, ground arith)
equal_round-some (bool x) b pending more h = (ground arith, ground arith)
equal_round-some (num x) b pending more h = (ground arith, ground arith)
equal_round-some (str x) b pending more h = (ground arith, ground arith)

size-pos : (a : JsonValue) → 0 < size a
unfolding size
size-pos (arr xs) = omega arith
size-pos _ = omega arith

equal_loop_lem :
    (fuel : ℕ) (pending : Pending)
    → total pending ≤ fuel
    → equal_loop fuel pending ≡ some (agree pending)
unfolding equal_loop agree total
equal_loop_lem zero [] h = refl
equal_loop_lem (suc fuel) [] h = refl
equal_loop_lem zero ((a, b) ∷ pending) h = absurd (omega (arith, size-pos a))
equal_loop_lem (suc fuel) ((a, b) ∷ pending) h = elim (Option-cases (equal_round a b pending)) [
  | inl e ↦ rw (e, equal_loop) (rw (equal_round-none a b pending e))
  | inr (more, e) ↦
      let kept = equal_round-some a b pending more e in
      rw (e, equal_loop) (equal_loop_lem fuel more (omega (arith, kept)) ∙ ap some kept.0)
]

-- For all values `jsonValueEqual` ends, and answers as the recursive structural equality does.
pub json_value_equal-deep_equal : (a b : JsonValue) → json_value_equal a b ≡ some (deep_equal a b)
unfolding json_value_equal agree total
json_value_equal-deep_equal a b = equal_loop_lem (size a) ((a, b) ∷ []) (omega arith) ∙ ground arith
