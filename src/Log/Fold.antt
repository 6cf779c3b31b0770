-- ===== src/Log/Fold.antt =====
-- server/src/log-walk.ts: folding log entries onto the documents of a collection. The map is an
-- association list; every entry has a document id, as its type declares.
pub mod Last
use baerly_storage.Common.{
  Text, text_eq, Bool, true, false, ◌&&◌, ◌||◌, Option, none, some, List, [], ◌∷◌, if◌then◌else◌,
}
use baerly_storage.Json.{Fields}
use baerly_storage.CurrentJson.Bodies.{LogEntry, LogOp}

abbrev pub DocMap : Type 0
DocMap = List (Text × Fields)

unfoldable pub doc_get : Text → DocMap → Option Fields
doc_get id [] = none
doc_get id ((i, doc) ∷ m) = if text_eq i id then some doc else doc_get id m

unfoldable pub doc_set : Text → Fields → DocMap → DocMap
doc_set id doc [] = (id, doc) ∷ []
doc_set id doc ((i, d) ∷ m) =
    let rest = doc_set id doc m in if text_eq i id then (i, doc) ∷ m else (i, d) ∷ rest

unfoldable pub doc_delete : Text → DocMap → DocMap
doc_delete id [] = []
doc_delete id ((i, d) ∷ m) =
    let rest = doc_delete id m in if text_eq i id then rest else (i, d) ∷ rest

-- `docIdFilter` is a set of ids, if it is given.
unfoldable pub passes : Option (List Text) → Text → Bool
passes none id = true
passes (some []) id = false
passes (some (i ∷ ids)) id = let rest = passes (some ids) id in text_eq i id || rest

unfoldable pub apply_image : LogOp → Text → Option Fields → DocMap → DocMap
unfolding doc_set doc_delete
apply_image LogOp.insert id none m = m
apply_image LogOp.insert id (some doc) m = doc_set id doc m
apply_image LogOp.update id none m = m
apply_image LogOp.update id (some doc) m = doc_set id doc m
apply_image LogOp.delete id after m = doc_delete id m

unfoldable pub fold_entry : Text → Option (List Text) → LogEntry → DocMap → DocMap
unfolding passes apply_image
fold_entry collection filter e m =
    if text_eq e.collection collection && passes filter e.doc_id
    then apply_image e.op e.doc_id e.after m
    else m

unfoldable pub fold_log_entries_onto : Text → Option (List Text) → List LogEntry → DocMap → DocMap
unfolding fold_entry
fold_log_entries_onto collection filter [] m = m
fold_log_entries_onto collection filter (e ∷ entries) m =
    fold_log_entries_onto collection filter entries (fold_entry collection filter e m)
