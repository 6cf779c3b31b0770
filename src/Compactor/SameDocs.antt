-- ===== src/Compactor/SameDocs.antt =====
-- What a fold of bodies keeps: the keys differ, and equal documents stay equal.
use baerly_storage.Common.{
  ◌≡◌, refl, ap, sym, ◌∙◌, Text, text_eq, ◌&&◌, none, List, [], ◌∷◌, ◌++◌, if◌then◌else◌, get_or,
}
use baerly_storage.CurrentJson.Bodies.{
  Body, manifest, entry, other_json, malformed, snapshot_json, pending_json,
}
use baerly_storage.Log.Fold.{DocMap, doc_get, passes}
use baerly_storage.Log.Fold.Last.{image, doc_get-fold_entry}
use baerly_storage.Snapshot.Rows.{Distinct, fold_entry-Distinct}
use baerly_storage.Compactor.{fold_body}
use baerly_storage.Compactor.Prefix.{fold_bodies}

fold_body-Distinct :
    (collection : Text) (b : Body) (m : DocMap) → Distinct m → Distinct (fold_body collection b m)
unfolding fold_body
fold_body-Distinct collection (entry e) m d = fold_entry-Distinct collection none e m d
fold_body-Distinct collection (manifest c) m d = d
fold_body-Distinct collection other_json m d = d
fold_body-Distinct collection (pending_json p) m d = d
fold_body-Distinct collection (snapshot_json b) m d = d
fold_body-Distinct collection malformed m d = d

pub fold_bodies-Distinct :
    (collection : Text) (bodies : List Body) (m : DocMap)
    → Distinct m
    → Distinct (fold_bodies collection bodies m)
unfolding fold_bodies
fold_bodies-Distinct collection [] m d = d
fold_bodies-Distinct collection (b ∷ bodies) m d =
    fold_bodies-Distinct collection bodies (fold_body collection b m)
      (fold_body-Distinct collection b m d)

pub fold_bodies-append :
    (collection : Text) (a b : List Body) (m : DocMap)
    → fold_bodies collection (a ++ b) m ≡ fold_bodies collection b (fold_bodies collection a m)
unfolding fold_bodies
fold_bodies-append collection [] b m = refl
fold_bodies-append collection (x ∷ a) b m =
    fold_bodies-append collection a b (fold_body collection x m)

-- The documents of two maps agree.
abbrev pub SameDocs : DocMap → DocMap → Type 0
SameDocs a b = (id : Text) → doc_get id a ≡ doc_get id b

fold_body-SameDocs :
    (collection : Text) (x : Body) (a b : DocMap)
    → SameDocs a b
    → SameDocs (fold_body collection x a) (fold_body collection x b)
unfolding fold_body
fold_body-SameDocs collection (entry e) a b h id =
    doc_get-fold_entry collection none e a id
    ∙ ap
        (get_or (
          if text_eq e.collection collection && passes none e.doc_id && text_eq e.doc_id id
          then image e.op e.after
          else none))
        (h id)
    ∙ sym (doc_get-fold_entry collection none e b id)
fold_body-SameDocs collection (manifest c) a b h id = h id
fold_body-SameDocs collection other_json a b h id = h id
fold_body-SameDocs collection (pending_json p) a b h id = h id
fold_body-SameDocs collection (snapshot_json s) a b h id = h id
fold_body-SameDocs collection malformed a b h id = h id

pub fold_bodies-SameDocs :
    (collection : Text) (bodies : List Body) (a b : DocMap)
    → SameDocs a b
    → SameDocs (fold_bodies collection bodies a) (fold_bodies collection bodies b)
unfolding fold_bodies
fold_bodies-SameDocs collection [] a b h = h
fold_bodies-SameDocs collection (x ∷ bodies) a b h =
    fold_bodies-SameDocs collection bodies (fold_body collection x a) (fold_body collection x b)
      (fold_body-SameDocs collection x a b h)
