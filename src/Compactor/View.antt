-- ===== src/Compactor/View.antt =====
-- What readers see of a collection: the snapshot of its manifest, and behind it the log up to a tail.
-- Two stores show the same where they hold the same objects at the keys that are read.
use baerly_storage.Common.{
  ℕ, zero, suc, ◌+◌, ◌-◌, ◌<◌, ◌≤◌, ◌≡◌, ◌≢◌, refl, ap, sym, ◌∙◌, Text, true, Option, none, some,
  List, [], ◌∷◌, ◌++◌, All, arith, length, codes,
}
use baerly_storage.Common.Decimal.{decimal}
use baerly_storage.Errors.{Result, ok, err, ◌>>=◌, >>=-eq-ok, >>=-ok, ok-inj}
use baerly_storage.Storage.{
  MemoryStorage, StoredObject, at, get, if_changed, assert_valid_storage_key, Op, put_op, delete_op,
  apply_op, run,
}
use baerly_storage.Storage.Laws.{Change, same, written, removed, apply_op-Change}
use baerly_storage.CurrentJson.Bodies.{Body, CurrentJson}
use baerly_storage.CurrentJson.{log_seq_start_of}
use baerly_storage.CurrentJson.Updates.{get-ok}
use baerly_storage.Log.{log_object_key, log_slot, has_slash, collection_prefix, decode_json_bytes}
use baerly_storage.Log.Keys.{append-injective}
use baerly_storage.Log.Fold.{DocMap}
use baerly_storage.Log.Walk.{read_log_entry, found_entry, read_range}
use baerly_storage.Log.Walk.Chunks.{both, read_range-add}
use baerly_storage.Snapshot.{snapshot_path, snapshot_name}
use baerly_storage.Compactor.{load_base}
use baerly_storage.Compactor.Prefix.{fold_bodies}

-- The documents of the collection up to `tail`.
unfoldable pub viewed :
    (Body → Text) → MemoryStorage Body → Text → Text → CurrentJson → ℕ → Result DocMap
unfolding fold_bodies
viewed hash s prefix collection c tail = do
  base ← load_base hash s c.snapshot collection
  bodies ← read_range s prefix (log_seq_start_of c) (tail - log_seq_start_of c)
  ok (fold_bodies collection bodies base)

-- The slots of the log that the first store has stand in the second one, unchanged.
abbrev pub SlotsKept : Text → MemoryStorage Body → MemoryStorage Body → Type 0
SlotsKept prefix s t =
    (n : ℕ) (o : StoredObject Body)
    → at s (log_object_key prefix n) ≡ some o
    → at t (log_object_key prefix n) ≡ some o

-- What a successful read of a key saw.
get-value :
    (s : MemoryStorage Body) (key : Text) (o : StoredObject Body) (t : MemoryStorage Body)
    → get s key none ≡ ok (some o)
    → at t key ≡ some o
    → get t key none ≡ ok (some o)
unfolding get if_changed
get-value s key o t h there =
    let (u, v, e) = >>=-eq-ok (assert_valid_storage_key key) _ h in rw (v, there) refl

found_entry-ok :
    (o : Option (StoredObject Body)) (b : Body)
    → found_entry o ≡ ok b
    → (p : StoredObject Body) × (o ≡ some p) × (decode_json_bytes p.body ≡ ok b)
unfolding found_entry
found_entry-ok none b h = cc
found_entry-ok (some p) b h = (p, refl, h)

read_log_entry-kept :
    (prefix : Text) (s t : MemoryStorage Body) (n : ℕ) (b : Body)
    → SlotsKept prefix s t
    → read_log_entry s (log_object_key prefix n) ≡ ok b
    → read_log_entry t (log_object_key prefix n) ≡ ok b
unfolding read_log_entry
read_log_entry-kept prefix s t n b kept h =
    let (o, got, found) = >>=-eq-ok (get s (log_object_key prefix n) none) found_entry h in
    let (p, is, decoded) = found_entry-ok o b found in
    let here : get s (log_object_key prefix n) none ≡ ok (some p) = got ∙ ap ok is in
    >>=-ok (get t (log_object_key prefix n) none) found_entry (some p) (ok b)
      (get-value s (log_object_key prefix n) p t here
        (kept n p (get-ok s (log_object_key prefix n) (some p) here)))
      (unfold found_entry in decoded)

pub read_range-kept :
    (prefix : Text) (s t : MemoryStorage Body) (seq count : ℕ) (bodies : List Body)
    → SlotsKept prefix s t
    → read_range s prefix seq count ≡ ok bodies
    → read_range t prefix seq count ≡ ok bodies
unfolding read_range
read_range-kept prefix s t seq zero bodies kept h = h
read_range-kept prefix s t seq (suc count) bodies kept h =
    let (b, first, h1) = >>=-eq-ok (read_log_entry s (log_object_key prefix seq)) _ h in
    let (rest, others, h2) = >>=-eq-ok (read_range s prefix (seq + 1) count) _ h1 in
    rw
      (
        read_log_entry-kept prefix s t seq b kept first,
        read_range-kept prefix s t (seq + 1) count rest kept others,
      )
      h2

-- The first part of a range.
pub read_range-front :
    (s : MemoryStorage Body) (prefix : Text) (seq count : ℕ) (front back : List Body)
    → read_range s prefix seq count ≡ ok (front ++ back)
    → (length front ≤ count) × (read_range s prefix seq (length front) ≡ ok front)
unfolding read_range
read_range-front s prefix seq count [] back h = (omega arith, refl)
read_range-front s prefix seq zero (b ∷ front) back h = cc
read_range-front s prefix seq (suc count) (b ∷ front) back h =
    let (x, first, h1) = >>=-eq-ok (read_log_entry s (log_object_key prefix seq)) _ h in
    let (rest, others, h2) = >>=-eq-ok (read_range s prefix (seq + 1) count) _ h1 in
    let is : x ∷ rest ≡ b ∷ (front ++ back) = ok-inj h2 in
    let (few, part) =
      read_range-front s prefix (seq + 1) count front back (others ∙ ap ok (cc (is))) in
    (omega arith, rw (first, part, read_range) (ap ok (cc (is))))

both-ok :
    (first second : Result (List Body)) (a l : List Body)
    → first ≡ ok a
    → both first second ≡ ok l
    → (b : List Body) × (second ≡ ok b) × (l ≡ a ++ b)
both-ok (err c) second a l e h = cc
both-ok (ok x) (err c) a l e h = cc
both-ok (ok x) (ok y) a l e h = (y, refl, cc (e, h))

-- The rest of a range whose first part is known.
pub read_range-back :
    (s : MemoryStorage Body) (prefix : Text) (seq m n : ℕ) (front bodies : List Body)
    → read_range s prefix seq m ≡ ok front
    → read_range s prefix seq (m + n) ≡ ok bodies
    → (back : List Body) × (read_range s prefix (seq + m) n ≡ ok back) × (bodies ≡ front ++ back)
read_range-back s prefix seq m n front bodies h g =
    both-ok (read_range s prefix seq m) (read_range s prefix (seq + m) n) front bodies h
      (sym (read_range-add s prefix seq m n) ∙ g)

-- Another client writes under the key only what has the hash that the key names, and leaves it there.
abbrev pub IsAddressed : (Body → Text) → Text → Text → Op Body → Type 0
IsAddressed hash key sha (put_op j b create_only if_match) = (j ≡ key → hash b ≡ sha)
IsAddressed hash key sha (delete_op j) = j ≢ key

abbrev pub Holds : MemoryStorage Body → Text → Body → Type 0
Holds s key b = (o : StoredObject Body) × (at s key ≡ some o) × (o.body ≡ b)

-- Every body that the store holds, or that a call writes, is of the kind.
abbrev pub Stores : (Body → Type 0) → MemoryStorage Body → Type 0
Stores Known s = (j : Text) (o : StoredObject Body) → at s j ≡ some o → Known o.body

abbrev pub Writes : (Body → Type 0) → Op Body → Type 0
Writes Known (put_op j b create_only if_match) = Known b
Writes Known (delete_op j) = Unit

apply_op-Stores :
    (Known : Body → Type 0) (op : Op Body) (s : MemoryStorage Body)
    → Writes Known op
    → Stores Known s
    → Stores Known (apply_op op s)
apply_op-Stores Known op s writes stores j o held = step op writes (apply_op-Change op s j)
  where
    step : (p : Op Body) → Writes Known p → Change s j p (apply_op op s) → Known o.body
    step p w (same q) = stores j o (sym q ∙ held)
    step (put_op i c create_only if_match) w (written d _ _ q after _ _) =
        let is : c ≡ o.body = cc (q, after, held) in rw (← is) w
    step (delete_op i) w (written d _ _ q _ _ _) = cc
    step p w (removed q after) = cc (after, held)

pub run-Stores :
    (Known : Body → Type 0) (ops : List (Op Body)) (s : MemoryStorage Body)
    → All (Writes Known) ops
    → Stores Known s
    → Stores Known (run ops s)
unfolding run
run-Stores Known [] s w h = h
run-Stores Known (op ∷ ops) s w h =
    run-Stores Known ops (apply_op op s) w.1 (apply_op-Stores Known op s w.0 h)

module _ (hash : Body → Text) (Known : Body → Type 0)
    (distinct : (a b : Body) → Known a → Known b → hash a ≡ hash b → a ≡ b) where
  apply_op-Holds :
      (op : Op Body) (s : MemoryStorage Body) (key : Text) (b : Body)
      → Known b
      → Writes Known op
      → IsAddressed hash key (hash b) op
      → Holds s key b
      → Holds (apply_op op s) key b
  apply_op-Holds op s key b known writes addressed (o, held, is) =
      step op writes addressed (apply_op-Change op s key)
    where
      step :
          (p : Op Body)
          → Writes Known p
          → IsAddressed hash key (hash b) p
          → Change s key p (apply_op op s)
          → Holds (apply_op op s) key b
      step p w a (same q) = (o, q ∙ held, is)
      step (put_op j c create_only if_match) w a (written d _ _ q after _ _) =
          let body : d ≡ c = cc (q) in (_, after, body ∙ distinct c b w known (a (cc (q))))
      step (delete_op j) w a (written d _ _ q _ _ _) = cc
      step (put_op j c create_only if_match) w a (removed q _) = cc
      step (delete_op j) w a (removed q _) = absurd (a (cc (q)))

  pub run-Holds :
      (ops : List (Op Body)) (s : MemoryStorage Body) (key : Text) (b : Body)
      → Known b
      → All (Writes Known) ops
      → All (IsAddressed hash key (hash b)) ops
      → Holds s key b
      → Holds (run ops s) key b
  unfolding run
  run-Holds [] s key b known w a h = h
  run-Holds (op ∷ ops) s key b known w a h =
      run-Holds ops (apply_op op s) key b known w.1 a.1 (apply_op-Holds op s key b known w.0 a.0 h)

-- A key is no key below its own collection.
has_slash-append : (p r : Text) → has_slash (p ++ (b'/' ∷ r)) ≡ true
unfolding has_slash
has_slash-append [] r = refl
has_slash-append (x ∷ p) r = ground (arith, has_slash-append p r)

collection_prefix-deeper :
    (p r : Text) → has_slash r ≡ true → length p < length (collection_prefix (p ++ (b'/' ∷ r)))
unfolding collection_prefix
collection_prefix-deeper [] r h = rw h (omega arith)
collection_prefix-deeper (x ∷ p) r h =
    rw (has_slash-append p r) (omega (arith, collection_prefix-deeper p r h))

not_below : (key r : Text) → has_slash r ≡ true → key ≢ collection_prefix key ++ (b'/' ∷ r)
not_below key r h e = omega (
  arith,
  collection_prefix-deeper (collection_prefix key) r h,
  ap (λ k. length (collection_prefix k)) e,
)

pub not_log_object_key : (key : Text) (n : ℕ) → key ≢ log_object_key (collection_prefix key) n
unfolding log_object_key log_slot
not_log_object_key key n =
    not_below key (log_slot n) (has_slash-append (codes "log") (decimal n ++ codes ".json"))

pub not_snapshot_path :
    (key : Text) (m n : ℕ) (sha : Text) → key ≢ snapshot_path (collection_prefix key) m n sha
unfolding snapshot_path
not_snapshot_path key m n sha =
    not_below key (codes "snapshot/L9" ++ (b'/' ∷ (snapshot_name m n sha ++ codes ".json")))
      (has_slash-append (codes "snapshot/L9") (snapshot_name m n sha ++ codes ".json"))

abbrev second : Text → ℕ
second (x ∷ (y ∷ s)) = y
second _ = 0

pub snapshot_path-log :
    (prefix : Text) (m n k : ℕ) (sha : Text)
    → snapshot_path prefix m n sha ≢ log_object_key prefix k
unfolding snapshot_path log_object_key log_slot
snapshot_path-log prefix m n k sha e =
    let letters : b's' ≡ b'l' = ap second (append-injective prefix _ _ e) in omega (arith, letters)
