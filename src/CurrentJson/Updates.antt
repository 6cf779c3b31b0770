-- ===== src/CurrentJson/Updates.antt =====
-- What a read, a write and a compare-and-swap of a manifest leave behind.
use baerly_storage.Common.{
  ℕ, ◌≤◌, ◌≡◌, ◌≢◌, refl, ap, sym, ◌∙◌, Text, Bool, false, ltb, Option, none, some, List, arith,
}
use baerly_storage.Errors.{
  Result, ok, ◌>>◌, throw_if, internal, >>=-eq-ok, >>=-ok, ok-inj, throw_if-ok,
}
use baerly_storage.Storage.{
  StoredObject, MemoryStorage, assert_valid_storage_key, at, get, put, Op, run, if_changed,
}
use baerly_storage.Storage.Laws.{put-valid, at-put, at-put-other}
use baerly_storage.Storage.Etags.{IsFresh, put-if_match}
use baerly_storage.CurrentJson.Bodies.{
  CurrentJson, Body, manifest, entry, other_json, malformed, snapshot_json, pending_json,
}
use baerly_storage.CurrentJson.{
  assert_current_json, encode_json, log_delete_floor_of, assert_current_json_transition,
  decode_current, decode_read, read_current_json, write_current, or_missing,
  cas_update_current_json,
}
use baerly_storage.CurrentJson.Guard.{
  IsValid, encode_json-IsValid, assert_current_json-encode_json, assert_current_json-IsValid,
}

-- A read that found a manifest.
pub record ReadFrom (s : MemoryStorage Body) (key : Text) (c : CurrentJson) (etag : ℕ)
    : Type 0 where
  pub object : StoredObject Body
  pub held : at s key ≡ some object
  pub named : object.etag ≡ etag
  pub decoded : decode_current object.body ≡ ok c

if_changed-none : (o : Option (StoredObject Body)) → if_changed none o ≡ o
unfolding if_changed
if_changed-none none = refl
if_changed-none (some o) = refl

pub get-ok :
    (s : MemoryStorage Body) (key : Text) (o : Option (StoredObject Body))
    → get s key none ≡ ok o
    → at s key ≡ o
unfolding get
get-ok s key o h =
    let (u, v, e) = >>=-eq-ok (assert_valid_storage_key key) _ h in
    sym (if_changed-none (at s key)) ∙ ok-inj e

pub get-held :
    (s : MemoryStorage Body) (key : Text) (o : StoredObject Body)
    → assert_valid_storage_key key ≡ ok tt
    → at s key ≡ some o
    → get s key none ≡ ok (some o)
unfolding get if_changed
get-held s key o v h = rw (v, h)

decode_read-ok :
    (o : Option (StoredObject Body)) (c : CurrentJson) (etag : ℕ)
    → decode_read o ≡ ok (some (c, etag))
    → (p : StoredObject Body) × (o ≡ some p) × (p.etag ≡ etag) × (decode_current p.body ≡ ok c)
unfolding decode_read
decode_read-ok none c etag h = cc
decode_read-ok (some p) c etag h =
    let (d, e, r) = >>=-eq-ok (decode_current p.body) _ h in (p, refl, cc (r), e ∙ cc (r))

pub read_current_json-ok :
    (s : MemoryStorage Body) (key : Text) (c : CurrentJson) (etag : ℕ)
    → read_current_json s key ≡ ok (some (c, etag))
    → ReadFrom s key c etag
unfolding read_current_json
read_current_json-ok s key c etag h =
    let (o, g, d) = >>=-eq-ok (get s key none) decode_read h in
    let (p, e, n, r) = decode_read-ok o c etag d in
    record { object = p; held = get-ok s key o g ∙ e; named = n; decoded = r }

-- A store that holds the object still gives the same manifest.
pub read_current_json-held :
    (s t : MemoryStorage Body) (key : Text) (c : CurrentJson) (etag : ℕ)
    → (from : ReadFrom s key c etag) → assert_valid_storage_key key ≡ ok tt
    → at t key ≡ some from.object
    → read_current_json t key ≡ ok (some (c, etag))
unfolding read_current_json decode_read
read_current_json-held s t key c etag from valid held =
    rw (get-held t key from.object valid held, from.decoded, from.named) refl

decode_current-IsValid : (b : Body) (c : CurrentJson) → decode_current b ≡ ok c → IsValid c
unfolding decode_current
decode_current-IsValid (manifest r) c h = assert_current_json-IsValid r c h
decode_current-IsValid (entry e) c h = cc
decode_current-IsValid other_json c h = cc
decode_current-IsValid (pending_json p) c h = cc
decode_current-IsValid malformed c h = cc
decode_current-IsValid (snapshot_json b) c h = cc

-- What readers get is well formed.
pub ReadFrom-IsValid :
    (s : MemoryStorage Body) (key : Text) (c : CurrentJson) (etag : ℕ)
    → ReadFrom s key c etag
    → IsValid c
ReadFrom-IsValid s key c etag from = decode_current-IsValid from.object.body c from.decoded

pub or_missing-ok :
    (o : Option (CurrentJson × ℕ)) (r : CurrentJson × ℕ) → or_missing o ≡ ok r → o ≡ some r
unfolding or_missing
or_missing-ok none r h = cc
or_missing-ok (some q) r h = ap some (ok-inj h)

-- A write whose manifest readers accept is what the next read gets.
pub write_current-ok :
    (s s' : MemoryStorage Body) (key : Text) (json json' : CurrentJson) (c : Bool) (m : Option ℕ)
    (etag : ℕ)
    → write_current s key json c m ≡ ok (s', json', etag)
    → (json' ≡ json) × (put s key (manifest (encode_json json)) c m ≡ ok (s', etag))
unfolding write_current
write_current-ok s s' key json json' c m etag h =
    let ((t, e), p, r) = >>=-eq-ok (put s key (manifest (encode_json json)) c m) _ h in
    (cc (r), p ∙ cc (r))

pub read-after-write :
    (s s' : MemoryStorage Body) (key : Text) (json : CurrentJson) (c : Bool) (m : Option ℕ)
    (etag : ℕ)
    → IsValid json
    → put s key (manifest (encode_json json)) c m ≡ ok (s', etag)
    → read_current_json s' key ≡ ok (some (json, etag))
unfolding read_current_json decode_read decode_current
read-after-write s s' key json c m etag v p =
    >>=-ok (get s' key none) decode_read _ _
      (get-held s' key _ (put-valid s s' key (manifest (encode_json json)) c m etag p)
        (at-put s s' key (manifest (encode_json json)) c m etag p))
      (>>=-ok (assert_current_json (encode_json json)) _ _ _
        (assert_current_json-encode_json json v) refl)

-- The two bounds of the live range only move forward, and the delete floor stays behind the start.
pub record Forward (before after : CurrentJson) : Type 0 where
  pub start : before.log_seq_start ≤ after.log_seq_start
  pub floor : log_delete_floor_of before ≤ log_delete_floor_of after
  pub behind : log_delete_floor_of after ≤ after.log_seq_start

ltb-false : (a b : ℕ) → ltb a b ≡ false → b ≤ a
ltb-false a b h = ground arith

pub assert_current_json_transition-ok :
    (before after : CurrentJson)
    → assert_current_json_transition before after ≡ ok tt
    → Forward before after
unfolding assert_current_json_transition log_delete_floor_of
assert_current_json_transition-ok before after h =
    let (_, h1, h2) = >>=-eq-ok (throw_if _ internal >> throw_if _ internal) _ h in
    let (_, h3, h4) = >>=-eq-ok (throw_if _ internal) _ h1 in
    record {
      start = ltb-false after.log_seq_start before.log_seq_start (throw_if-ok _ internal h3);
      floor =
          ltb-false (log_delete_floor_of after) (log_delete_floor_of before)
            (throw_if-ok _ internal h4);
      behind =
          ltb-false after.log_seq_start (log_delete_floor_of after) (throw_if-ok _ internal h2);
    }

-- What a compare-and-swap leaves: `before` is what the caller read, `object` where it read it.
pub record Updated (s : MemoryStorage Body) (between : List (Op Body)) (key : Text)
    (mutator : CurrentJson → Result CurrentJson) (s' : MemoryStorage Body) (next : CurrentJson)
    (etag : ℕ) : Type 0 where
  pub before : CurrentJson
  pub before_etag : ℕ
  pub read : ReadFrom s key before before_etag
  pub mutated : mutator before ≡ ok next
  pub untouched : at (run between s) key ≡ some read.object
  pub forward : Forward before next
  pub reread : read_current_json s' key ≡ ok (some (next, etag))

-- In a store without an ETag ahead of its counter:
-- An update of the manifest that succeeds ran the mutator on the manifest that the key still held
-- when the write took place, whatever other clients did since the read. It moved neither the start of
-- the live range nor the delete floor back, left the floor at or below that start, and readers get
-- exactly the mutator's result.
pub cas_update_current_json-ok :
    (s s' : MemoryStorage Body) (between : List (Op Body)) (key : Text)
    (mutator : CurrentJson → Result CurrentJson) (next : CurrentJson) (etag : ℕ)
    → IsFresh s
    → cas_update_current_json s between key mutator ≡ ok (s', next, etag)
    → Updated s between key mutator s' next etag
unfolding cas_update_current_json
cas_update_current_json-ok s s' between key mutator next etag fresh h =
    let (r, h1, t1) = >>=-eq-ok (read_current_json s key) _ h in
    let ((before, e), h2, t2) = >>=-eq-ok (or_missing r) _ t1 in
    let (n, h3, t3) = >>=-eq-ok (mutator before) _ t2 in
    let (d, h4, t4) = >>=-eq-ok (assert_current_json (encode_json n)) _ t3 in
    let (_, h5, t5) = >>=-eq-ok (assert_current_json_transition before n) _ t4 in
    let (same, p) = write_current-ok (run between s) s' key n next false (some e) etag t5 in
    let read = read_current_json-ok s key before e (h1 ∙ ap ok (or_missing-ok r (before, e) h2)) in
    record {
      before = before;
      before_etag = e;
      read = read;
      mutated = h3 ∙ ap ok (sym same);
      untouched =
          put-if_match s s' between key read.object (manifest (encode_json n)) etag fresh read.held
            (rw (read.named) p);
      forward = rw same (assert_current_json_transition-ok before n h5);
      reread = rw same (
          read-after-write (run between s) s' key n false (some e) etag (encode_json-IsValid n d h4)
            p);
    }

-- An update that succeeds leaves every other key as other clients left it.
pub cas_update_current_json-others :
    (s s' : MemoryStorage Body) (between : List (Op Body)) (key k : Text)
    (mutator : CurrentJson → Result CurrentJson) (next : CurrentJson) (etag : ℕ)
    → cas_update_current_json s between key mutator ≡ ok (s', next, etag)
    → key ≢ k
    → at s' k ≡ at (run between s) k
unfolding cas_update_current_json
cas_update_current_json-others s s' between key k mutator next etag h apart =
    let (r, h1, t1) = >>=-eq-ok (read_current_json s key) _ h in
    let ((before, e), h2, t2) = >>=-eq-ok (or_missing r) _ t1 in
    let (n, h3, t3) = >>=-eq-ok (mutator before) _ t2 in
    let (d, h4, t4) = >>=-eq-ok (assert_current_json (encode_json n)) _ t3 in
    let (_, h5, t5) = >>=-eq-ok (assert_current_json_transition before n) _ t4 in
    let (same, p) = write_current-ok (run between s) s' key n next false (some e) etag t5 in
    at-put-other (run between s) s' key k (manifest (encode_json n)) false (some e) etag p apart
