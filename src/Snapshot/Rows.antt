-- ===== src/Snapshot/Rows.antt =====
-- The rows of a snapshot hold the documents of the map that they are written from.
use baerly_storage.Common.{
  Text, text_eq, text_eq_iff, text_eq_sound, text_lt, text_lt_irrefl, ◌≡◌, refl, ap, ◌∙◌, true,
  false, ◌&&◌, Option, none, some, List, [], ◌∷◌, arith, Bool-cases, inl, inr, if◌then◌else◌,
}
use baerly_storage.Json.{Fields}
use baerly_storage.CurrentJson.Bodies.{LogEntry, LogOp}
use baerly_storage.Log.Fold.{DocMap, doc_get, doc_set, doc_delete, passes, apply_image, fold_entry}
use baerly_storage.Log.Fold.Last.{doc_get-set, doc_get-delete}
use baerly_storage.Snapshot.{rows_onto, insert_row, sorted_docs}

-- No two rows have the same id.
abbrev pub Distinct : DocMap → Type 0
Distinct [] = Unit
Distinct ((id, doc) ∷ m) = (doc_get id m ≡ none) × Distinct m

text_lt_ne : (a b : Text) → text_lt a b ≡ true → text_eq a b ≡ false
text_lt_ne a b h = elim (Bool-cases (text_eq a b)) [
  | inr e ↦ e
  | inl e ↦ let same = text_eq_sound a b e in cc (h, text_lt_irrefl b, ap (λ x. text_lt x b) same)
]

pub doc_get-insert_row :
    (id j : Text) (doc : Fields) (m : DocMap)
    → doc_get j (insert_row (id, doc) m) ≡ (if text_eq id j then some doc else doc_get j m)
unfolding doc_get insert_row
doc_get-insert_row id j doc [] = refl
doc_get-insert_row id j doc ((i, d) ∷ m) = elim (Bool-cases (text_lt i id)) [
  | inr e ↦ rw (e, insert_row) refl
  | inl e ↦
      rw (e, insert_row)
        (ground (
          arith,
          text_lt_ne i id e,
          text_eq_iff i id,
          text_eq_iff i j,
          text_eq_iff id j,
          doc_get-insert_row id j doc m,
        ))
]

pub doc_get-sorted_docs : (j : Text) (m : DocMap) → doc_get j (sorted_docs m) ≡ doc_get j m
unfolding sorted_docs doc_get
doc_get-sorted_docs j [] = refl
doc_get-sorted_docs j ((i, d) ∷ m) =
    doc_get-insert_row i j d (sorted_docs m)
    ∙ ap (λ o. if text_eq i j then some d else o) (doc_get-sorted_docs j m)

insert_row-Distinct :
    (id : Text) (doc : Fields) (m : DocMap)
    → doc_get id m ≡ none
    → Distinct m
    → Distinct (insert_row (id, doc) m)
unfolding insert_row doc_get
insert_row-Distinct id doc [] h d = (refl, tt)
insert_row-Distinct id doc ((i, e) ∷ m) h d = elim (Bool-cases (text_lt i id)) [
  | inr t ↦ rw (t, insert_row) (h, d)
  | inl t ↦
      rw (t, insert_row)
        (
          doc_get-insert_row id i doc m ∙ ground (arith, text_eq_iff i id, text_eq_iff id i, d.0),
          insert_row-Distinct id doc m (ground (arith, h)) d.1,
        )
]

pub sorted_docs-Distinct : (m : DocMap) → Distinct m → Distinct (sorted_docs m)
unfolding sorted_docs
sorted_docs-Distinct [] d = tt
sorted_docs-Distinct ((i, e) ∷ m) d =
    insert_row-Distinct i e (sorted_docs m) (doc_get-sorted_docs i m ∙ d.0)
      (sorted_docs-Distinct m d.1)

-- The first answer, if there is one.
abbrev pub first_of : Option Fields → Option Fields → Option Fields
first_of none other = other
first_of (some doc) other = some doc

doc_get-rows_onto :
    (j : Text) (rows m : DocMap)
    → Distinct rows
    → doc_get j (rows_onto rows m) ≡ first_of (doc_get j rows) (doc_get j m)
unfolding doc_get rows_onto
doc_get-rows_onto j [] m d = refl
doc_get-rows_onto j ((id, doc) ∷ rows) m d =
    doc_get-rows_onto j rows (doc_set id doc m) d.1
    ∙ ap (first_of (doc_get j rows)) (doc_get-set id j doc m)
    ∙ ground (arith, text_eq_iff id j, d.0)

-- Loading rows with different ids gives the documents of the rows.
pub doc_get-loaded :
    (j : Text) (rows : DocMap) → Distinct rows → doc_get j (rows_onto rows []) ≡ doc_get j rows
doc_get-loaded j rows d = doc_get-rows_onto j rows [] d ∙ same (doc_get j rows)
  where
    same : (o : Option Fields) → first_of o (doc_get j []) ≡ o
    same none = unfold doc_get in refl
    same (some doc) = refl

doc_set-Distinct :
    (id : Text) (doc : Fields) (m : DocMap) → Distinct m → Distinct (doc_set id doc m)
unfolding doc_set doc_get
doc_set-Distinct id doc [] d = (refl, tt)
doc_set-Distinct id doc ((i, e) ∷ m) d = elim (Bool-cases (text_eq i id)) [
  | inl t ↦ rw (t, doc_set) d
  | inr t ↦
      rw (t, doc_set)
        (
          doc_get-set id i doc m ∙ ground (arith, text_eq_iff id i, text_eq_iff i id, d.0),
          doc_set-Distinct id doc m d.1,
        )
]

doc_delete-Distinct : (id : Text) (m : DocMap) → Distinct m → Distinct (doc_delete id m)
unfolding doc_delete
doc_delete-Distinct id [] d = tt
doc_delete-Distinct id ((i, e) ∷ m) d = elim (Bool-cases (text_eq i id)) [
  | inl t ↦ rw (t, doc_delete) (doc_delete-Distinct id m d.1)
  | inr t ↦
      rw (t, doc_delete) (doc_get-delete id i m ∙ ground (arith, d.0), doc_delete-Distinct id m d.1)
]

pub rows_onto-Distinct : (rows m : DocMap) → Distinct m → Distinct (rows_onto rows m)
unfolding rows_onto
rows_onto-Distinct [] m d = d
rows_onto-Distinct ((id, doc) ∷ rows) m d =
    rows_onto-Distinct rows (doc_set id doc m) (doc_set-Distinct id doc m d)

pub fold_entry-Distinct :
    (collection : Text) (filter : Option (List Text)) (e : LogEntry) (m : DocMap)
    → Distinct m
    → Distinct (fold_entry collection filter e m)
unfolding fold_entry
fold_entry-Distinct collection filter e m d =
    elim (Bool-cases (text_eq e.collection collection && passes filter e.doc_id)) [
      | inl t ↦ rw (t, fold_entry) (apply_image-Distinct e.op e.doc_id e.after m d)
      | inr t ↦ rw (t, fold_entry) d
    ]
  where
    apply_image-Distinct :
        (op : LogOp) (id : Text) (after : Option Fields) (m : DocMap)
        → Distinct m
        → Distinct (apply_image op id after m)
    apply_image-Distinct LogOp.insert id none m d = unfold apply_image in d
    apply_image-Distinct LogOp.insert id (some doc) m d =
        unfold apply_image in doc_set-Distinct id doc m d
    apply_image-Distinct LogOp.update id none m d = unfold apply_image in d
    apply_image-Distinct LogOp.update id (some doc) m d =
        unfold apply_image in doc_set-Distinct id doc m d
    apply_image-Distinct LogOp.delete id after m d =
        unfold apply_image in doc_delete-Distinct id m d
