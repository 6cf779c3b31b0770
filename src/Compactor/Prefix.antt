-- ===== src/Compactor/Prefix.antt =====
-- What a fold applies: the longest prefix of the fetched entries that keeps the snapshot within its
-- ceiling of rows.
use baerly_storage.Common.{
  ℕ, ◌+◌, ◌≤◌, ◌<◌, ◌≡◌, refl, ap, ◌∙◌, Text, text_eq, true, false, ◌&&◌, not, Option, none, some,
  List, [], ◌∷◌, ◌++◌, arith, Bool-cases, inl, inr, length, max, if◌then◌else◌,
}
use baerly_storage.Json.{Fields}
use baerly_storage.CurrentJson.Bodies.{
  Body, manifest, entry, other_json, malformed, snapshot_json, pending_json, LogOp,
}
use baerly_storage.Log.Fold.{DocMap, doc_get, doc_set, doc_delete, passes, apply_image, fold_entry}
use baerly_storage.Compactor.{
  below, adds_row_at_ceiling, has_image, has_row, fold_body, fold_prefix,
}

unfoldable pub fold_bodies : Text → List Body → DocMap → DocMap
fold_bodies collection [] m = m
fold_bodies collection (b ∷ bodies) m = fold_bodies collection bodies (fold_body collection b m)

-- The map has as many rows as the ceiling, and the entry adds one.
abbrev pub Overflows : Text → Option ℕ → Body → DocMap → Type 0
Overflows collection ceiling b m =
    (limit : ℕ) × (ceiling ≡ some limit)
    × (limit ≤ length m)
    × (length m < length (fold_body collection b m))

-- No entry overflows the map that the ones before it left.
abbrev pub Fits : Text → Option ℕ → List Body → DocMap → Type 0
Fits collection ceiling [] m = Unit
Fits collection ceiling (b ∷ front) m =
    (¬ Overflows collection ceiling b m) × Fits collection ceiling front (fold_body collection b m)

-- Nothing is left, or what comes next overflows.
abbrev pub StoppedAt : Text → Option ℕ → List Body → DocMap → Type 0
StoppedAt collection ceiling [] m = Unit
StoppedAt collection ceiling (b ∷ back) m = Overflows collection ceiling b m

-- `m` and `n` are what a fold of `bodies` onto `base` gives.
pub record Folded (collection : Text) (ceiling : Option ℕ) (bodies : List Body) (base m : DocMap)
    (n : ℕ) : Type 0 where
  pub front : List Body
  pub back : List Body
  pub parts : bodies ≡ front ++ back
  pub applied : n ≡ length front
  pub map : m ≡ fold_bodies collection front base
  pub fits : Fits collection ceiling front base
  pub stopped : StoppedAt collection ceiling back m

length-doc_set :
    (id : Text) (doc : Fields) (m : DocMap)
    → length (doc_set id doc m) ≡ (if has_row id m then length m else length m + 1)
unfolding doc_set doc_get
length-doc_set id doc [] = refl
length-doc_set id doc ((i, d) ∷ m) = ground (arith, length-doc_set id doc m)

length-doc_delete : (id : Text) (m : DocMap) → length (doc_delete id m) ≤ length m
unfolding doc_delete
length-doc_delete id [] = omega arith
length-doc_delete id ((i, d) ∷ m) = ground (arith, length-doc_delete id m)

length-apply_image :
    (op : LogOp) (id : Text) (after : Option Fields) (m : DocMap)
    → length (apply_image op id after m)
      ≤ (if has_image op after && not (has_row id m) then length m + 1 else length m)
unfolding apply_image
length-apply_image LogOp.insert id none m = ground arith
length-apply_image LogOp.insert id (some doc) m = ground (arith, length-doc_set id doc m)
length-apply_image LogOp.update id none m = ground arith
length-apply_image LogOp.update id (some doc) m = ground (arith, length-doc_set id doc m)
length-apply_image LogOp.delete id after m = ground (arith, length-doc_delete id m)

length-fold_body :
    (collection : Text) (ceiling : ℕ) (b : Body) (m : DocMap)
    → adds_row_at_ceiling collection (some ceiling) b m ≡ false
    → length (fold_body collection b m) ≤ max ceiling (length m)
unfolding fold_body adds_row_at_ceiling fold_entry passes
length-fold_body collection ceiling (entry e) m h =
    ground (arith, length-apply_image e.op e.doc_id e.after m)
length-fold_body collection ceiling (manifest c) m h = ground arith
length-fold_body collection ceiling other_json m h = ground arith
length-fold_body collection ceiling (pending_json p) m h = ground arith
length-fold_body collection ceiling (snapshot_json b) m h = ground arith
length-fold_body collection ceiling malformed m h = ground arith

-- An image of a document that has no row adds one.
length-added :
    (op : LogOp) (id : Text) (after : Option Fields) (m : DocMap)
    → has_image op after ≡ true
    → has_row id m ≡ false
    → length (apply_image op id after m) ≡ length m + 1
unfolding apply_image
length-added LogOp.insert id none m h new = cc (h)
length-added LogOp.insert id (some doc) m h new = ground (arith, length-doc_set id doc m)
length-added LogOp.update id none m h new = cc (h)
length-added LogOp.update id (some doc) m h new = ground (arith, length-doc_set id doc m)
length-added LogOp.delete id after m h new = cc (h)

below-false :
    (n : ℕ) (ceiling : Option ℕ)
    → below n ceiling ≡ false
    → (limit : ℕ) × (ceiling ≡ some limit) × (limit ≤ n)
below-false n none h = cc (h)
below-false n (some limit) h = (limit, refl, ground arith)

adds_row_at_ceiling-Overflows :
    (collection : Text) (ceiling : Option ℕ) (b : Body) (m : DocMap)
    → adds_row_at_ceiling collection ceiling b m ≡ true
    → Overflows collection ceiling b m
unfolding adds_row_at_ceiling fold_body fold_entry passes
adds_row_at_ceiling-Overflows collection ceiling (entry e) m h =
    let named : text_eq e.collection collection ≡ true = ground arith in
    let image_there : has_image e.op e.after ≡ true = ground arith in
    let new : has_row e.doc_id m ≡ false = ground arith in
    let (limit, is, full) = below-false (length m) ceiling (ground arith) in
    (
      limit,
      is,
      full,
      rw named (omega (arith, length-added e.op e.doc_id e.after m image_there new)),
    )
adds_row_at_ceiling-Overflows collection ceiling (manifest c) m h = cc (h)
adds_row_at_ceiling-Overflows collection ceiling other_json m h = cc (h)
adds_row_at_ceiling-Overflows collection ceiling (pending_json p) m h = cc (h)
adds_row_at_ceiling-Overflows collection ceiling (snapshot_json b) m h = cc (h)
adds_row_at_ceiling-Overflows collection ceiling malformed m h = cc (h)

not_Overflows :
    (collection : Text) (ceiling : Option ℕ) (b : Body) (m : DocMap)
    → adds_row_at_ceiling collection ceiling b m ≡ false
    → ¬ Overflows collection ceiling b m
not_Overflows collection ceiling b m h (limit, is, full, more) =
    let bound = length-fold_body collection limit b m (rw (← is) h) in
    absurd (ground (arith, bound, full, more))

folded_onto :
    (collection : Text) (ceiling : Option ℕ) (bodies : List Body) (base : DocMap) (applied : ℕ)
    → (front : List Body) × (back : List Body) × (bodies ≡ front ++ back)
      × ((fold_prefix collection ceiling bodies base applied).1 ≡ applied + length front)
      × ((fold_prefix collection ceiling bodies base applied).0 ≡ fold_bodies collection front base)
      × Fits collection ceiling front base
      × StoppedAt collection ceiling back (fold_prefix collection ceiling bodies base applied).0
unfolding fold_prefix fold_bodies
folded_onto collection ceiling [] base applied = ([], [], refl, omega arith, refl, tt, tt)
folded_onto collection ceiling (b ∷ bodies) base applied =
    elim (Bool-cases (adds_row_at_ceiling collection ceiling b base)) [
      | inl e ↦
          rw (e, fold_prefix)
            (
              [],
              b ∷ bodies,
              refl,
              omega arith,
              refl,
              tt,
              adds_row_at_ceiling-Overflows collection ceiling b base e,
            )
      | inr e ↦
          let (front, back, parts, count, map, fits, stopped) =
            folded_onto collection ceiling bodies (fold_body collection b base) (applied + 1) in
          rw (e, fold_prefix)
            (
              b ∷ front,
              back,
              ap (λ l. b ∷ l) parts,
              count ∙ omega arith,
              map,
              (not_Overflows collection ceiling b base e, fits),
              stopped,
            )
    ]

-- A fold applies a prefix of the entries in their order, all of them or up to the first that would
-- add a row to a map that has as many rows as the ceiling: no entry that it applies adds a row to such
-- a map, and the next entry, if there is one, does.
pub fold_prefix-Folded :
    (collection : Text) (ceiling : Option ℕ) (bodies : List Body) (base : DocMap)
    → Folded collection ceiling bodies base
        (fold_prefix collection ceiling bodies base 0).0
        (fold_prefix collection ceiling bodies base 0).1
fold_prefix-Folded collection ceiling bodies base =
    let (front, back, parts, count, map, fits, stopped) =
      folded_onto collection ceiling bodies base 0 in
    record {
      front = front;
      back = back;
      parts = parts;
      applied = count ∙ omega arith;
      map = map;
      fits = fits;
      stopped = stopped;
    }

-- A fold never takes the number of rows over its ceiling: the rows are at most as many as the
-- ceiling, or as before the fold where they were more already.
pub length-fold_prefix :
    (collection : Text) (ceiling applied : ℕ) (bodies : List Body) (base : DocMap)
    → length (fold_prefix collection (some ceiling) bodies base applied).0
      ≤ max ceiling (length base)
unfolding fold_prefix
length-fold_prefix collection ceiling applied [] base = ground arith
length-fold_prefix collection ceiling applied (b ∷ bodies) base =
    elim (Bool-cases (adds_row_at_ceiling collection (some ceiling) b base)) [
      | inl e ↦ rw (e, fold_prefix) (ground arith)
      | inr e ↦
          rw (e, fold_prefix)
            (ground (
              arith,
              length-fold_body collection ceiling b base e,
              length-fold_prefix collection ceiling (applied + 1) bodies
                  (fold_body collection b base),
            ))
    ]
