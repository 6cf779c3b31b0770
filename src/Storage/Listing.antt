-- ===== src/Storage/Listing.antt =====
-- A listing is sorted, complete, and holds nothing else.
use baerly_storage.Common.{
  ℕ, zero, suc, ◌≡◌, refl, ap, sym, ◌∙◌, ◌⊎◌, inl, inr, Text, text_eq, text_eq_sound, text_lt,
  text_lt_irrefl, text_lt_trans, text_lt_connex, starts_with, true, false, ◌&&◌, Option, none, some,
  List, [], ◌∷◌, In, In-cons_cases, here, there, All, All-In, In-All, arith, Bool-cases,
}
use baerly_storage.Storage.{
  StoredObject, MemoryStorage, map_get, at, listed, insert_sorted, sort_by_key, yield_up_to, list,
}

abbrev Entries : Type 0 → Type 0
Entries B = List (Text × StoredObject B)

-- No key is below one that stands before it.
abbrev pub IsSorted {ℓ} : {A : Type ℓ} → List (Text × A) → Type 0
IsSorted [] = Unit
IsSorted (e ∷ l) = All (λ d. text_lt d.0 e.0 ≡ false) l × IsSorted l

-- j ≤ k and k ≤ d give j ≤ d, for keys.
le_le : (j k d : Text) → text_lt k j ≡ false → text_lt d k ≡ false → text_lt d j ≡ false
le_le j k d h g = elim (Bool-cases (text_lt d j)) [
  | inl y ↦ elim (Bool-cases (text_lt j k)) [
    | inl z ↦ ground (arith, text_lt_trans d j k y z)
    | inr n ↦ rw (text_lt_connex j k n h) g
  ]
  | inr n ↦ n
]

module _ {B : Type 0} where
  listed_sound :
      (p a : Text) (m : Entries B) (e : Text × StoredObject B)
      → In e (listed p a m)
      → In e m × ((starts_with e.0 p && text_lt a e.0) ≡ true)
  unfolding listed
  listed_sound p a [] e i = elim i [ ]
  listed_sound p a ((k, o) ∷ m) e i = elim (Bool-cases (starts_with k p && text_lt a k)) [
    | inl y ↦ elim (In-cons_cases e (k, o) (listed p a m) (rw y at i)) [
      | inl q ↦
          (here q, ap (λ (d : Text × StoredObject B). starts_with d.0 p && text_lt a d.0) q ∙ y)
      | inr j ↦ let (j', t) = listed_sound p a m e j in (there j', t)
    ]
    | inr n ↦ let (j, t) = listed_sound p a m e (rw n at i) in (there j, t)
  ]

  listed_complete :
      (p a : Text) (m : Entries B) (e : Text × StoredObject B)
      → In e m
      → (starts_with e.0 p && text_lt a e.0) ≡ true
      → In e (listed p a m)
  unfolding listed
  listed_complete p a [] e i t = elim i [ ]
  listed_complete p a ((k, o) ∷ m) e (here q) t =
      rw (sym (ap (λ (d : Text × StoredObject B). starts_with d.0 p && text_lt a d.0) q) ∙ t)
        (here q)
  listed_complete p a ((k, o) ∷ m) e (there i) t =
      elim (Bool-cases (starts_with k p && text_lt a k)) [
        | inl y ↦ rw y (there (listed_complete p a m e i t))
        | inr n ↦ rw n (listed_complete p a m e i t)
      ]

  insert_sorted-In :
      (x e : Text × StoredObject B) (m : Entries B) → In e (insert_sorted x m) → (e ≡ x) ⊎ In e m
  unfolding insert_sorted
  insert_sorted-In (k, o) e [] i = In-cons_cases e (k, o) [] i
  insert_sorted-In (k, o) e ((j, p) ∷ m) i = elim (Bool-cases (text_lt j k)) [
    | inl y ↦ elim (In-cons_cases e (j, p) (insert_sorted (k, o) m) (rw y at i)) [
      | inl q ↦ inr (here q)
      | inr r ↦ elim (insert_sorted-In (k, o) e m r) [ inl q ↦ inl q | inr s ↦ inr (there s) ]
    ]
    | inr n ↦ In-cons_cases e (k, o) ((j, p) ∷ m) (rw n at i)
  ]

  In-insert_sorted_self : (x : Text × StoredObject B) (m : Entries B) → In x (insert_sorted x m)
  unfolding insert_sorted
  In-insert_sorted_self (k, o) [] = here refl
  In-insert_sorted_self (k, o) ((j, p) ∷ m) = elim (Bool-cases (text_lt j k)) [
    | inl y ↦ rw y (there (In-insert_sorted_self (k, o) m))
    | inr n ↦ rw n (here refl)
  ]

  In-insert_sorted :
      (x e : Text × StoredObject B) (m : Entries B) → In e m → In e (insert_sorted x m)
  unfolding insert_sorted
  In-insert_sorted (k, o) e [] i = elim i [ ]
  In-insert_sorted (k, o) e ((j, p) ∷ m) i = elim (Bool-cases (text_lt j k)) [
    | inl y ↦ rw y (elim (In-cons_cases e (j, p) m i) [
      | inl q ↦ here q
      | inr r ↦ there (In-insert_sorted (k, o) e m r)
    ])
    | inr n ↦ rw n (there i)
  ]

  sort_by_key-In : (e : Text × StoredObject B) (m : Entries B) → In e (sort_by_key m) → In e m
  unfolding sort_by_key
  sort_by_key-In e [] i = elim i [ ]
  sort_by_key-In e (x ∷ m) i = elim (insert_sorted-In x e (sort_by_key m) i) [
    | inl q ↦ here q
    | inr j ↦ there (sort_by_key-In e m j)
  ]

  In-sort_by_key : (e : Text × StoredObject B) (m : Entries B) → In e m → In e (sort_by_key m)
  unfolding sort_by_key
  In-sort_by_key e [] i = elim i [ ]
  In-sort_by_key e (x ∷ m) (here q) = rw q (In-insert_sorted_self x (sort_by_key m))
  In-sort_by_key e (x ∷ m) (there i) = In-insert_sorted x e (sort_by_key m) (In-sort_by_key e m i)

  insert_sorted-IsSorted :
      (x : Text × StoredObject B) (m : Entries B) → IsSorted m → IsSorted (insert_sorted x m)
  unfolding insert_sorted
  insert_sorted-IsSorted (k, o) [] s = (tt, tt)
  insert_sorted-IsSorted (k, o) ((j, p) ∷ m) s = elim (Bool-cases (text_lt j k)) [
    | inl y ↦ rw y (
      In-All (λ d. text_lt d.0 j ≡ false) (insert_sorted (k, o) m)
          (λ e i. elim (insert_sorted-In (k, o) e m i) [
            | inl q ↦ rw q (ground (arith, text_lt_trans j k j y, text_lt_irrefl j))
            | inr r ↦ All-In (λ d. text_lt d.0 j ≡ false) e s.0 r
          ]),
      insert_sorted-IsSorted (k, o) m s.1,
    )
    | inr n ↦ rw n (
      (
        n,
        In-All (λ d. text_lt d.0 k ≡ false) m
            (λ e i. le_le k j e.0 n (All-In (λ d. text_lt d.0 j ≡ false) e s.0 i)),
      ),
      s,
    )
  ]

  sort_by_key-IsSorted : (m : Entries B) → IsSorted (sort_by_key m)
  unfolding sort_by_key
  sort_by_key-IsSorted [] = tt
  sort_by_key-IsSorted (x ∷ m) = insert_sorted-IsSorted x (sort_by_key m) (sort_by_key-IsSorted m)

  yield_up_to-In :
      (limit : Option ℕ) (m : Entries B) (e : Text × ℕ)
      → In e (yield_up_to limit m)
      → (o : StoredObject B) × In (e.0, o) m × (e.1 ≡ o.etag)
  unfolding yield_up_to
  yield_up_to-In (some zero) (x ∷ m) e i = elim i [ ]
  yield_up_to-In (some (suc n)) ((k, o) ∷ m) e (here q) =
      (o, here (ap (λ (d : Text × ℕ). (d.0, o)) q), ap (λ (d : Text × ℕ). d.1) q)
  yield_up_to-In (some (suc n)) ((k, o) ∷ m) e (there i) =
      let (p, j, q) = yield_up_to-In (some n) m e i in (p, there j, q)
  yield_up_to-In none ((k, o) ∷ m) e (here q) =
      (o, here (ap (λ (d : Text × ℕ). (d.0, o)) q), ap (λ (d : Text × ℕ). d.1) q)
  yield_up_to-In none ((k, o) ∷ m) e (there i) =
      let (p, j, q) = yield_up_to-In none m e i in (p, there j, q)
  yield_up_to-In _ [] e i = elim i [ ]

  yield_up_to_complete :
      (k : Text) (o : StoredObject B) (m : Entries B)
      → In (k, o) m
      → In (k, o.etag) (yield_up_to none m)
  unfolding yield_up_to
  yield_up_to_complete k o [] i = elim i [ ]
  yield_up_to_complete k o ((j, p) ∷ m) (here q) =
      here (ap (λ (d : Text × StoredObject B). (d.0, d.1.etag)) q)
  yield_up_to_complete k o ((j, p) ∷ m) (there i) = there (yield_up_to_complete k o m i)

  yield_up_to-IsSorted :
      (limit : Option ℕ) (m : Entries B) → IsSorted m → IsSorted (yield_up_to limit m)
  unfolding yield_up_to
  yield_up_to-IsSorted limit [] s = tt
  yield_up_to-IsSorted (some zero) (e ∷ m) s = tt
  yield_up_to-IsSorted (some (suc n)) ((k, o) ∷ m) s =
      (above k (some n) m s.0, yield_up_to-IsSorted (some n) m s.1)
    where
      above :
          (k : Text) (limit : Option ℕ) (m : Entries B)
          → All (λ d. text_lt d.0 k ≡ false) m
          → All (λ d. text_lt d.0 k ≡ false) (yield_up_to limit m)
      above k limit m h =
          In-All (λ d. text_lt d.0 k ≡ false) (yield_up_to limit m)
            (λ e i.
              All-In (λ d. text_lt d.0 k ≡ false) (e.0, (yield_up_to-In limit m e i).0) h
                (yield_up_to-In limit m e i).1)
  yield_up_to-IsSorted none ((k, o) ∷ m) s = (
    In-All (λ d. text_lt d.0 k ≡ false) (yield_up_to none m)
        (λ e i.
          All-In (λ d. text_lt d.0 k ≡ false) (e.0, (yield_up_to-In none m e i).0) s.0
            (yield_up_to-In none m e i).1),
    yield_up_to-IsSorted none m s.1,
  )

  map_get-In : (k : Text) (o : StoredObject B) (m : Entries B) → map_get k m ≡ some o → In (k, o) m
  unfolding map_get
  map_get-In k o [] h = cc
  map_get-In k o ((j, p) ∷ m) h = elim (Bool-cases (text_eq j k)) [
    | inl y ↦ here (pair (text_eq_sound j k y) (ground arith))
    | inr n ↦ there (map_get-In k o m (ground arith))
  ]
    where
      pair : j ≡ k → p ≡ o → ◌≡◌ {A = Text × StoredObject B} (k, o) (j, p)
      pair e q = cc

  -- A listing of a store, with any prefix, start and limit, is in the byte order of the keys; each
  -- entry is a stored key with its ETag, under the prefix and behind the start; and without a limit
  -- every such key that the store holds is listed.
  pub list_lem :
      (s : MemoryStorage B) (prefix start_after : Text) (limit : Option ℕ)
      → IsSorted (list s prefix start_after limit)
        × ((e : Text × ℕ)
            → In e (list s prefix start_after limit)
            → (o : StoredObject B) × In (e.0, o) s.objects
              × (e.1 ≡ o.etag)
              × ((starts_with e.0 prefix && text_lt start_after e.0) ≡ true))
        × ((k : Text) (o : StoredObject B)
            → at s k ≡ some o
            → (starts_with k prefix && text_lt start_after k) ≡ true
            → In (k, o.etag) (list s prefix start_after none))
  unfolding list at
  list_lem s prefix start_after limit = (
    yield_up_to-IsSorted limit _ (sort_by_key-IsSorted (listed prefix start_after s.objects)),
    (λ e i.
        let (o, j, q) = yield_up_to-In limit _ e i in
        let (stored, t) =
          listed_sound prefix start_after s.objects (e.0, o)
            (sort_by_key-In (e.0, o) (listed prefix start_after s.objects) j) in
        (o, stored, q, t)),
    (λ k o h t. yield_up_to_complete k o _ (
        In-sort_by_key (k, o) (listed prefix start_after s.objects)
          (listed_complete prefix start_after s.objects (k, o) (map_get-In k o s.objects h) t))),
  )
