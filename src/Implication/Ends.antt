-- ===== src/Implication/Ends.antt =====
-- The bounds that the planner reads off a query prove the filter's bounds.
use baerly_storage.Common.{
  ◌≡◌, refl, true, Option, none, some, List, [], ◌∷◌, All, if◌then◌else◌, Bool-cases, inl, inr,
}
use baerly_storage.Common.Int.{ℤ}
use baerly_storage.Json.{JsonValue, null, bool, num, str, arr, obj}
use baerly_storage.Query.Scalars.{same_comparable_type, scalar_lt_irrefl}
use baerly_storage.Query.Scalars.Order.{Above, Below, same_type_sym}
use baerly_storage.Implication.{RangeInfo, same_typeof, js_lt}
use baerly_storage.Implication.Check.{
  lower_bound_implies, upper_bound_implies, smallest, largest, lo_from_query, hi_from_query,
}
use baerly_storage.Implication.Bounds.{
  IsAbove, IsBelow, is_comparable, same_typeof-comparable, comparable_right,
  lower_bound_implies-Above, upper_bound_implies-Below, if_intro,
}
use baerly_storage.Implication.Sets.{
  AtMost, AreAlike-AllSame, smallest-AtMost, largest-AtMost, IsMember-All,
}
use baerly_storage.Implication.Decode.{Pinned, Listed, AboveLo, BelowHi}

same_typeof_refl : (v : JsonValue) → same_typeof v v ≡ true
unfolding same_typeof
same_typeof_refl null = refl
same_typeof_refl (bool b) = refl
same_typeof_refl (num n) = refl
same_typeof_refl (str s) = refl
same_typeof_refl (arr xs) = refl
same_typeof_refl (obj fs) = refl

typeof-comparable :
    (a b : JsonValue) → is_comparable b ≡ true → same_typeof a b ≡ true → is_comparable a ≡ true
unfolding same_typeof same_comparable_type
typeof-comparable (str a) (str b) c h = refl
typeof-comparable (num a) (num b) c h = refl
typeof-comparable _ (str b) c h = cc
typeof-comparable _ (num b) c h = cc
typeof-comparable _ null c h = cc
typeof-comparable _ (bool b) c h = cc
typeof-comparable _ (arr b) c h = cc
typeof-comparable _ (obj b) c h = cc

Above-refl : (x : JsonValue) → is_comparable x ≡ true → Above x x true
Above-refl x c = record { same = c; not_below = scalar_lt_irrefl x; strict = refl }

Below-refl : (x : JsonValue) → is_comparable x ≡ true → Below x x true
Below-refl x c = record { same = c; not_above = scalar_lt_irrefl x; strict = refl }

AtMost-Above : (v x : JsonValue) → AtMost v x → Above x v true
AtMost-Above v x h = record { same = same_type_sym v x h.same; not_below = h.order; strict = refl }

AtMost-Below : (x v : JsonValue) → AtMost x v → Below x v true
AtMost-Below x v h = record { same = h.same; not_above = h.order; strict = refl }

module _ (number_of : JsonValue → Option ℤ) where
  lower_typeof :
      (f q : RangeInfo)
      → lower_bound_implies number_of f (some q) ≡ true
      → same_typeof f.value q.value ≡ true
  unfolding lower_bound_implies
  lower_typeof f q h = elim (Bool-cases (same_typeof f.value q.value)) [
    | inl e ↦ e
    | inr e ↦ cc (rw e at h)
  ]

  upper_typeof :
      (f q : RangeInfo)
      → upper_bound_implies number_of f (some q) ≡ true
      → same_typeof f.value q.value ≡ true
  unfolding upper_bound_implies
  upper_typeof f q h = elim (Bool-cases (same_typeof f.value q.value)) [
    | inl e ↦ e
    | inr e ↦ cc (rw e at h)
  ]

  smallest_intro :
      (P : JsonValue → Type 0) (acc : JsonValue) (set : List JsonValue)
      → P acc
      → All P set
      → P (smallest number_of acc set)
  unfolding smallest
  smallest_intro P acc [] p h = p
  smallest_intro P acc (v ∷ vs) p h =
      smallest_intro P (if js_lt number_of v acc then v else acc) vs
        (if_intro P (js_lt number_of v acc) h.0 p) h.1

  largest_intro :
      (P : JsonValue → Type 0) (acc : JsonValue) (set : List JsonValue)
      → P acc
      → All P set
      → P (largest number_of acc set)
  unfolding largest
  largest_intro P acc [] p h = p
  largest_intro P acc (v ∷ vs) p h =
      largest_intro P (if js_lt number_of acc v then v else acc) vs
        (if_intro P (js_lt number_of acc v) h.0 p) h.1

  pub lo_from_query-Above :
      (x : JsonValue) (f : RangeInfo) (e : Option JsonValue) (s : Option (List JsonValue))
      (lo hi : Option RangeInfo)
      → is_comparable f.value ≡ true
      → Pinned x e
      → Listed x s
      → AboveLo x lo
      → lower_bound_implies number_of f
          (lo_from_query number_of (record { equal = e; lo = lo; hi = hi; in_set = s }))
        ≡ true
      → IsAbove x f
  unfolding lo_from_query lower_bound_implies
  lo_from_query-Above x f (some w) s lo hi c p l a h =
      let t =
        same_typeof-comparable f.value w c
          (lower_typeof f (record { value = w; inclusive = true }) h) in
      lower_bound_implies-Above number_of x f (record { value = w; inclusive = true }) c h
        (rw p.0 (Above-refl x (rw (← p.0) (comparable_right f.value w t))))
  lo_from_query-Above x f none (some []) lo hi c p l a h = cc (l.0.found)
  lo_from_query-Above x f none (some (v ∷ vs)) lo hi c p l a h =
      let least = smallest number_of v (v ∷ vs) in
      let t =
        same_typeof-comparable f.value least c
          (lower_typeof f (record { value = least; inclusive = true }) h) in
      let alike =
        smallest_intro (λ m. same_typeof v m ≡ true) v (v ∷ vs) (same_typeof_refl v)
          (same_typeof_refl v, l.1) in
      let cv = typeof-comparable v least (comparable_right f.value least t) alike in
      let (_, bounds) =
        smallest-AtMost number_of v (v ∷ vs) cv (cv, AreAlike-AllSame v vs cv l.1) in
      lower_bound_implies-Above number_of x f (record { value = least; inclusive = true }) c h
        (AtMost-Above least x (IsMember-All (AtMost least) x (v ∷ vs) l.0.scalar l.0.found bounds))
  lo_from_query-Above x f none none (some lo) hi c p l a h =
      lower_bound_implies-Above number_of x f lo c h a
  lo_from_query-Above x f none none none hi c p l a h = cc h

  pub hi_from_query-Below :
      (x : JsonValue) (f : RangeInfo) (e : Option JsonValue) (s : Option (List JsonValue))
      (lo hi : Option RangeInfo)
      → is_comparable f.value ≡ true
      → Pinned x e
      → Listed x s
      → BelowHi x hi
      → upper_bound_implies number_of f
          (hi_from_query number_of (record { equal = e; lo = lo; hi = hi; in_set = s }))
        ≡ true
      → IsBelow x f
  unfolding hi_from_query upper_bound_implies
  hi_from_query-Below x f (some w) s lo hi c p l a h =
      let t =
        same_typeof-comparable f.value w c
          (upper_typeof f (record { value = w; inclusive = true }) h) in
      upper_bound_implies-Below number_of x f (record { value = w; inclusive = true }) c h
        (rw p.0 (Below-refl x (rw (← p.0) (comparable_right f.value w t))))
  hi_from_query-Below x f none (some []) lo hi c p l a h = cc (l.0.found)
  hi_from_query-Below x f none (some (v ∷ vs)) lo hi c p l a h =
      let most = largest number_of v (v ∷ vs) in
      let t =
        same_typeof-comparable f.value most c
          (upper_typeof f (record { value = most; inclusive = true }) h) in
      let alike =
        largest_intro (λ m. same_typeof v m ≡ true) v (v ∷ vs) (same_typeof_refl v)
          (same_typeof_refl v, l.1) in
      let cv = typeof-comparable v most (comparable_right f.value most t) alike in
      let (_, bounds) = largest-AtMost number_of v (v ∷ vs) cv (cv, AreAlike-AllSame v vs cv l.1) in
      upper_bound_implies-Below number_of x f (record { value = most; inclusive = true }) c h
        (AtMost-Below x most
          (IsMember-All (λ m. AtMost m most) x (v ∷ vs) l.0.scalar l.0.found bounds))
  hi_from_query-Below x f none none lo (some hi) c p l a h =
      upper_bound_implies-Below number_of x f hi c h a
  hi_from_query-Below x f none none lo none c p l a h = cc h
