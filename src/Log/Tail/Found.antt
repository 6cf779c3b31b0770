-- ===== src/Log/Tail/Found.antt =====
-- What the tail search finds in a log of any shape, and in one without gaps.
use baerly_storage.Common.{
  ℕ, zero, suc, ◌+◌, ◌-◌, ◌*◌, ◌/◌, ◌≤◌, ◌<◌, ◌≡◌, refl, ap, sym, ◌∙◌, Text, Bool, true, false, ltb,
  Option, none, some, ◌⊎◌, inl, inr, arith, Bool-cases,
}
use baerly_storage.Errors.{Result, ok, err, internal, >>=-ok}
use baerly_storage.Storage.{MemoryStorage, get}
use baerly_storage.Storage.Laws.{get-at}
use baerly_storage.CurrentJson.Bodies.{Body}
use baerly_storage.Log.{log_object_key, occupied}
use baerly_storage.Log.Keys.{IsPrefix, log_object_key-valid}
use baerly_storage.Log.Tail.{
  exists, gallop, bisect, bisect_bracket, find_tail, find_log_tail, log_forward_probe_cap,
}

doubled : ℕ → ℕ → ℕ
doubled zero step = step
doubled (suc fuel) step = doubled fuel (step * 2)

module _ (occ : ℕ → Bool) where
  -- The slot before it is occupied, or it is where the search began.
  pub record IsTail (hint t : ℕ) : Type 0 where
    pub behind : hint ≤ t
    pub empty : occ t ≡ false
    pub after : (t ≡ hint) ⊎ (occ (t - 1) ≡ true)

  -- A bracket, or an occupied slot beyond the cap.
  data Galloped (hint : ℕ) : Option (Result (ℕ × ℕ)) → Type 0 where
    bracket :
        (lo hi : ℕ)
        → hint ≤ lo
        → lo < hi
        → occ lo ≡ true
        → occ hi ≡ false
        → Galloped hint (some (ok (lo, hi)))
    runaway :
        (n : ℕ)
        → hint + log_forward_probe_cap ≤ n
        → occ n ≡ true
        → Galloped hint (some (err internal))

  abbrev pub Searched : ℕ → Option (Result ℕ) → Type 0
  Searched hint r =
      ((t : ℕ) × (r ≡ some (ok t)) × IsTail hint t)
      ⊎ ((n : ℕ) × (r ≡ some (err internal)) × (hint + log_forward_probe_cap ≤ n) × (occ n ≡ true))

module _ (probe : ℕ → Result Bool) (occ : ℕ → Bool) (probed : (n : ℕ) → probe n ≡ ok (occ n)) where
  gallop-Galloped :
      (hint fuel lo step : ℕ)
      → lo + 1 ≡ hint + step
      → 0 < step
      → step ≤ log_forward_probe_cap
      → log_forward_probe_cap < doubled fuel step
      → occ lo ≡ true
      → Galloped occ hint (gallop probe fuel lo step)
  unfolding gallop doubled
  gallop-Galloped hint zero lo step e p c d o = absurd (omega arith)
  gallop-Galloped hint (suc fuel) lo step e p c d o =
      rw (probed (lo + step), gallop)
        (elim (Bool-cases (occ (lo + step))) [
          | inl found ↦
              rw (found, gallop)
                (elim (Bool-cases (ltb log_forward_probe_cap (step * 2))) [
                  | inl far ↦ rw (far, gallop) (runaway (lo + step) (ground arith) found)
                  | inr near ↦
                      rw (near, gallop)
                        (gallop-Galloped hint fuel (lo + step) (step * 2) (omega arith)
                          (omega arith) (ground arith) d found)
                ])
          | inr gone ↦ rw (gone, gallop) (bracket lo (lo + step) (omega arith) (omega arith) o gone)
        ])

  bisect-IsTail :
      (hint fuel lo hi : ℕ)
      → hint ≤ lo
      → lo < hi
      → hi - lo ≤ fuel
      → occ lo ≡ true
      → occ hi ≡ false
      → (t : ℕ) × (bisect probe fuel lo hi ≡ some (ok t)) × IsTail occ hint t
  unfolding bisect
  bisect-IsTail hint zero lo hi a b f o e = absurd (omega arith)
  bisect-IsTail hint (suc fuel) lo hi a b f o e = elim (Bool-cases (ltb 1 (hi - lo))) [
    | inl wide ↦
        let far : 1 < hi - lo = ground arith in
        elim (Bool-cases (occ (lo + (hi - lo) / 2))) [
          | inl found ↦
              rw (wide, probed (lo + (hi - lo) / 2), found, bisect)
                (bisect-IsTail hint fuel (lo + (hi - lo) / 2) hi (omega arith) (omega arith)
                  (omega arith) found e)
          | inr gone ↦
              rw (wide, probed (lo + (hi - lo) / 2), gone, bisect)
                (bisect-IsTail hint fuel lo (lo + (hi - lo) / 2) a (omega arith) (omega arith) o
                  gone)
        ]
    | inr narrow ↦
        let next : lo ≡ hi - 1 = ground arith in
        rw (narrow, bisect)
          (
            hi,
            refl,
            record { behind = omega arith; empty = e; after = inr (ap occ (sym next) ∙ o) },
          )
  ]

  bracketed :
      (hint : ℕ) (r : Option (Result (ℕ × ℕ)))
      → Galloped occ hint r
      → Searched occ hint (bisect_bracket probe r)
  unfolding bisect_bracket
  bracketed hint r (bracket lo hi a b o e) =
      inl (bisect-IsTail hint (hi - lo) lo hi a b (omega arith) o e)
  bracketed hint r (runaway n far o) = inr (n, refl, far, o)

  -- Every outcome of the search.
  pub find_tail-cases : (hint : ℕ) → Searched occ hint (find_tail probe hint)
  unfolding find_tail
  find_tail-cases hint = elim (Bool-cases (occ hint)) [
    | inl found ↦
        rw (probed hint, found, find_tail)
          (bracketed hint (gallop probe 17 hint 1) (
            gallop-Galloped hint 17 hint 1 refl (omega arith) (omega arith)
              (unfold doubled in omega arith) found))
    | inr gone ↦
        rw (probed hint, gone, find_tail)
          (inl (hint, refl, record { behind = omega arith; empty = gone; after = inl refl }))
  ]

exists-occupied :
    (s : MemoryStorage Body) (prefix : Text) (n : ℕ)
    → IsPrefix prefix
    → exists s prefix n ≡ ok (occupied s prefix n)
unfolding exists occupied
exists-occupied s p n h =
    >>=-ok (get s (log_object_key p n) none) _ _ _
      (get-at s (log_object_key p n) (log_object_key-valid p n h)) refl

-- Where the prefix has no `.` or `..` between its slashes:
-- Whatever slots of the log are occupied, the search ends within its fuel. It finds an empty slot at
-- the hint, or one right behind an occupied slot that is no earlier than the hint; or it is refused,
-- and then a slot at least the cap beyond the hint is occupied.
pub find_log_tail-Searched :
    (s : MemoryStorage Body) (prefix : Text) (hint : ℕ)
    → IsPrefix prefix
    → Searched (occupied s prefix) hint (find_log_tail s prefix hint)
unfolding find_log_tail
find_log_tail-Searched s p hint h =
    find_tail-cases (exists s p) (occupied s p) (λ n. exists-occupied s p n h) hint

-- From `hint` on, the occupied slots are those before `tail`.
pub record IsDense (s : MemoryStorage Body) (prefix : Text) (hint tail : ℕ) : Type 0 where
  pub behind : hint ≤ tail
  pub below : (n : ℕ) → hint ≤ n → n < tail → occupied s prefix n ≡ true
  pub above : (n : ℕ) → tail ≤ n → occupied s prefix n ≡ false

clash : {b : Bool} → b ≡ false → b ≡ true → ⊥
clash e f = cc

IsDense-IsTail :
    (s : MemoryStorage Body) (prefix : Text) (hint tail t : ℕ)
    → IsDense s prefix hint tail
    → IsTail (occupied s prefix) hint t
    → t ≡ tail
IsDense-IsTail s p hint tail t d found = elim (Bool-cases (ltb t tail)) [
  | inl e ↦ absurd (clash found.empty (d.below t found.behind (ground arith)))
  | inr e ↦ elim (Bool-cases (ltb tail t)) [
    | inl f ↦ elim found.after [
      | inl start ↦ absurd (ground (arith, d.behind))
      | inr o ↦ absurd (clash (d.above (t - 1) (ground arith)) o)
    ]
    | inr f ↦ ground arith
  ]
]

-- Where the prefix has no `.` or `..` between its slashes:
-- In a log without gaps whose tail is at most the cap beyond the hint, the search finds the tail.
pub find_log_tail-IsDense :
    (s : MemoryStorage Body) (prefix : Text) (hint tail : ℕ)
    → IsPrefix prefix
    → IsDense s prefix hint tail
    → tail ≤ hint + log_forward_probe_cap
    → find_log_tail s prefix hint ≡ some (ok tail)
find_log_tail-IsDense s p hint tail h d near = elim (find_log_tail-Searched s p hint h) [
  | inl (t, e, found) ↦ e ∙ ap (λ n. some (ok n)) (IsDense-IsTail s p hint tail t d found)
  | inr (n, e, far, o) ↦ absurd (clash (d.above n (omega arith)) o)
]
