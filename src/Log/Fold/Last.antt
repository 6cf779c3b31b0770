-- ===== src/Log/Fold/Last.antt =====
-- A fold leaves of each document what its last entry says.
use baerly_storage.Common.{
  Text, text_eq, text_eq_iff, ◌&&◌, Option, none, some, List, [], ◌∷◌, if◌then◌else◌, ◌≡◌, refl,
  ◌∙◌, arith, get_or,
}
use baerly_storage.Json.{Fields}
use baerly_storage.CurrentJson.Bodies.{LogEntry, LogOp}
use baerly_storage.Log.Fold.{
  DocMap, doc_get, doc_set, doc_delete, passes, apply_image, fold_entry, fold_log_entries_onto,
}

-- What an operation says of its document: nothing, its removal, or its new image.
unfoldable pub image : LogOp → Option Fields → Option (Option Fields)
image LogOp.delete after = some none
image _ none = none
image _ (some doc) = some (some doc)

-- What the last entry that concerns the document says, from the end of the list.
unfoldable pub last_image :
    Text → Option (List Text) → Text → List LogEntry → Option (Option Fields)
unfolding image
last_image collection filter id [] = none
last_image collection filter id (e ∷ entries) = elim (last_image collection filter id entries) [
  | some later ↦ some later
  | none ↦
      if text_eq e.collection collection && passes filter e.doc_id && text_eq e.doc_id id
      then image e.op e.after
      else none
]

pub doc_get-set :
    (k j : Text) (doc : Fields) (m : DocMap)
    → doc_get j (doc_set k doc m) ≡ (if text_eq k j then some doc else doc_get j m)
unfolding doc_get doc_set
doc_get-set k j doc [] = refl
doc_get-set k j doc ((i, d) ∷ m) =
    ground (arith, text_eq_iff k j, text_eq_iff i k, text_eq_iff i j, doc_get-set k j doc m)

pub doc_get-delete :
    (k j : Text) (m : DocMap)
    → doc_get j (doc_delete k m) ≡ (if text_eq k j then none else doc_get j m)
unfolding doc_get doc_delete
doc_get-delete k j [] = ground arith
doc_get-delete k j ((i, d) ∷ m) =
    ground (arith, text_eq_iff k j, text_eq_iff i k, text_eq_iff i j, doc_get-delete k j m)

doc_get-apply_image :
    (op : LogOp) (k j : Text) (after : Option Fields) (m : DocMap)
    → doc_get j (apply_image op k after m)
      ≡ get_or (if text_eq k j then image op after else none) (doc_get j m)
unfolding apply_image image
doc_get-apply_image LogOp.insert k j none m = ground arith
doc_get-apply_image LogOp.insert k j (some doc) m = doc_get-set k j doc m ∙ ground arith
doc_get-apply_image LogOp.update k j none m = ground arith
doc_get-apply_image LogOp.update k j (some doc) m = doc_get-set k j doc m ∙ ground arith
doc_get-apply_image LogOp.delete k j after m = doc_get-delete k j m ∙ ground arith

pub doc_get-fold_entry :
    (collection : Text) (filter : Option (List Text)) (e : LogEntry) (m : DocMap) (id : Text)
    → doc_get id (fold_entry collection filter e m)
      ≡ get_or
          (if text_eq e.collection collection && passes filter e.doc_id && text_eq e.doc_id id
            then image e.op e.after
            else none)
          (doc_get id m)
unfolding fold_entry
doc_get-fold_entry collection filter e m id =
    ground (arith, doc_get-apply_image e.op e.doc_id id e.after m)

-- After entries are folded onto the documents of a collection, each document is what the last entry
-- says that is of the collection, passes the filter and concerns it: its post-image, or nothing where
-- it was deleted; a document that no such entry concerns is as before.
pub doc_get-fold_log_entries_onto :
    (collection : Text) (filter : Option (List Text)) (entries : List LogEntry) (m : DocMap)
    (id : Text)
    → doc_get id (fold_log_entries_onto collection filter entries m)
      ≡ get_or (last_image collection filter id entries) (doc_get id m)
unfolding fold_log_entries_onto last_image
doc_get-fold_log_entries_onto collection filter [] m id = refl
doc_get-fold_log_entries_onto collection filter (e ∷ entries) m id =
    doc_get-fold_log_entries_onto collection filter entries (fold_entry collection filter e m) id
    ∙ ground (arith, doc_get-fold_entry collection filter e m id)
