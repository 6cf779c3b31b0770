-- ===== src/Snapshot/Loads.antt =====
-- A snapshot's key decides what is loaded from it.
use baerly_storage.Common.{
  ◌==◌, ◌≡◌, refl, ap, sym, ◌∙◌, Text, text_eq, text_eq_sound, text_eq_refl, Bool, true, false, not,
  Option, none, some, [], arith,
}
use baerly_storage.Errors.{ok, internal, invalid_response, >>=-eq-ok, >>-eq-ok, ok-inj}
use baerly_storage.Storage.{MemoryStorage, StoredObject, at, get, assert_valid_storage_key}
use baerly_storage.Storage.Laws.{get-at}
use baerly_storage.CurrentJson.Bodies.{Body, snapshot_json, SnapshotBody}
use baerly_storage.CurrentJson.Updates.{get-ok}
use baerly_storage.Log.Fold.{DocMap}
use baerly_storage.Snapshot.{
  expected_hash, pointed, decode_snapshot, rows_onto, load_snapshot_as_map,
}

module _ (hash : Body → Text) where
  pub record Loaded (s : MemoryStorage Body) (key : Text) (m : DocMap) : Type 0 where
    pub object : StoredObject Body
    pub held : at s key ≡ some object
    pub named : hash object.body ≡ expected_hash key
    pub parsed : SnapshotBody
    pub decoded : decode_snapshot object.body ≡ ok parsed
    pub rows : m ≡ rows_onto parsed.docs []

  pointed-ok :
      (o : Option (StoredObject Body)) (b : Body)
      → pointed o ≡ ok b
      → (p : StoredObject Body) × (o ≡ some p) × (p.body ≡ b)
  unfolding pointed
  pointed-ok none b h = cc
  pointed-ok (some p) b h = (p, refl, ok-inj h)

  negated : (b : Bool) → not b ≡ false → b ≡ true
  negated b h = ground arith

  pub load_snapshot_as_map-ok :
      (s : MemoryStorage Body) (key collection : Text) (m : DocMap)
      → load_snapshot_as_map hash s key collection ≡ ok m
      → Loaded s key m
  unfolding load_snapshot_as_map
  load_snapshot_as_map-ok s key collection m h =
      let (got, h1, t1) = >>=-eq-ok (get s key none) _ h in
      let (body, h2, t2) = >>=-eq-ok (pointed got) _ t1 in
      let (h3, t3) = >>-eq-ok (not (text_eq (hash body) (expected_hash key))) internal _ t2 in
      let (parsed, h4, t4) = >>=-eq-ok (decode_snapshot body) _ t3 in
      let (h5, t5) = >>-eq-ok (not (parsed.schema_version == 1)) invalid_response _ t4 in
      let (h6, t6) = >>-eq-ok (not (text_eq parsed.collection collection)) invalid_response _ t5 in
      let (p, found, same) = pointed-ok got body h2 in
      record {
        object = p;
        held = get-ok s key got h1 ∙ found;
        named = ap hash same ∙ text_eq_sound (hash body) (expected_hash key) (negated _ h3);
        parsed = parsed;
        decoded = ap decode_snapshot same ∙ h4;
        rows = sym (ok-inj t6);
      }

  -- Where the objects that two stores hold under a key are the same body if they have the same hash:
  -- What is loaded under the key in one store is what is loaded in the other one.
  pub load_snapshot_as_map_unique :
      (s t : MemoryStorage Body) (key c d : Text) (m n : DocMap)
      → ((o p : StoredObject Body)
          → at s key ≡ some o
          → at t key ≡ some p
          → hash o.body ≡ hash p.body
          → o.body ≡ p.body)
      → load_snapshot_as_map hash s key c ≡ ok m
      → load_snapshot_as_map hash t key d ≡ ok n
      → m ≡ n
  load_snapshot_as_map_unique s t key c d m n distinct h g =
      let a = load_snapshot_as_map-ok s key c m h in
      let b = load_snapshot_as_map-ok t key d n g in
      let same : a.object.body ≡ b.object.body =
        distinct a.object b.object a.held b.held (a.named ∙ sym b.named) in
      let parsed : a.parsed ≡ b.parsed =
        ok-inj (sym a.decoded ∙ ap decode_snapshot same ∙ b.decoded) in
      a.rows ∙ ap (λ x. rows_onto x.docs []) parsed ∙ sym b.rows

  pub load_snapshot_as_map-written :
      (s : MemoryStorage Body) (key collection : Text) (o : StoredObject Body) (b : SnapshotBody)
      → assert_valid_storage_key key ≡ ok tt
      → at s key ≡ some o
      → o.body ≡ snapshot_json b
      → hash (snapshot_json b) ≡ expected_hash key
      → b.schema_version ≡ 1
      → b.collection ≡ collection
      → load_snapshot_as_map hash s key collection ≡ ok (rows_onto b.docs [])
  unfolding load_snapshot_as_map pointed decode_snapshot
  load_snapshot_as_map-written s key collection o b valid held body named version coll =
      let same : text_eq (hash (snapshot_json b)) (expected_hash key) ≡ true =
        ap (λ t. text_eq t (expected_hash key)) named ∙ text_eq_refl (expected_hash key) in
      let first : (b.schema_version == 1) ≡ true = ap (λ n. n == 1) version in
      let of_it : text_eq b.collection collection ≡ true =
        ap (λ t. text_eq t collection) coll ∙ text_eq_refl collection in
      let found : get s key none ≡ ok (some o) = get-at s key valid ∙ ap ok held in
      rw (found, body, same, first, of_it) refl
