-- ===== src/CurrentJson/Guard.antt =====
-- What the shape guard accepts, and the round trip through a stored manifest.
use baerly_storage.Common.{
  ℕ, ◌≤◌, ◌≡◌, refl, Text, true, false, ltb, Option, none, some, arith, ap, ltb_of_le,
}
use baerly_storage.Common.Int.{pos, negsuc}
use baerly_storage.Errors.{
  ok, throw_if, invalid_response, Ensures, Ensures-bind, Ensures-throw, Ensures-ok, >>=-ok,
}
use baerly_storage.CurrentJson.Bodies.{
  WriterFence, CurrentJson, RawField, absent, null, text, int, other, RawCurrent,
}
use baerly_storage.CurrentJson.{
  natural, natural_if_present, string, string_or_null, string_if_present, generation_matches,
  generation_if_present, schema_supported, assert_fence, assert_current_json, encode_json,
  field_of_text, field_of_number, field_of_snapshot,
}

abbrev pub GenerationOk : Option Text → Type 0
GenerationOk none = Unit
GenerationOk (some g) = generation_matches g ≡ true

-- A manifest that readers accept.
pub record IsValid (c : CurrentJson) : Type 0 where
  pub supported : c.schema_version ≡ 3
  pub ordered : c.log_seq_start ≤ c.tail_hint
  pub hex : GenerationOk c.generation

ltb-false : (a b : ℕ) → ltb a b ≡ false → b ≤ a
ltb-false a b h = ground arith

schema_supported-ok : (f : RawField) (n : ℕ) → schema_supported f ≡ ok n → n ≡ 3
unfolding schema_supported
schema_supported-ok (int (pos m)) n h = ground arith
schema_supported-ok (int (negsuc m)) n h = cc
schema_supported-ok _ n h = cc

generation_if_present-ok :
    (f : RawField) (g : Option Text) → generation_if_present f ≡ ok g → GenerationOk g
unfolding generation_if_present
generation_if_present-ok absent none h = tt
generation_if_present-ok absent (some g) h = cc
generation_if_present-ok (text s) none h = ground arith
generation_if_present-ok (text s) (some g) h = ground arith
generation_if_present-ok (int n) g h = cc
generation_if_present-ok null g h = cc
generation_if_present-ok other g h = cc

Ensures-assert_current_json : (r : RawCurrent) → Ensures IsValid (assert_current_json r)
unfolding assert_current_json
Ensures-assert_current_json r =
    Ensures-bind IsValid (schema_supported r.schema_version) _ λ schema schema_eq.
      Ensures-bind IsValid (string_or_null r.snapshot) _ λ snapshot _.
        Ensures-bind IsValid (natural r.tail_hint) _ λ tail_hint _.
          Ensures-bind IsValid (natural r.log_seq_start) _ λ start _.
            Ensures-throw IsValid (ltb tail_hint start) invalid_response _ λ ordered.
              Ensures-bind IsValid (assert_fence r.writer_fence) _ λ fence _.
                Ensures-bind IsValid (natural r.snapshot_bytes) _ λ bytes _.
                  Ensures-bind IsValid (natural r.snapshot_rows) _ λ rows _.
                    Ensures-bind IsValid (natural_if_present r.last_warned_seq) _ λ warned _.
                      Ensures-bind IsValid (natural_if_present r.log_delete_floor) _ λ floor _.
                        Ensures-bind IsValid (natural_if_present r.mean_entry_bytes) _ λ mean _.
                          Ensures-bind IsValid (generation_if_present r.generation) _
                            λ generation generation_eq. record {
                              supported = schema_supported-ok r.schema_version schema schema_eq;
                              ordered = ltb-false tail_hint start ordered;
                              hex = generation_if_present-ok r.generation generation generation_eq;
                            }

-- Whatever object the bucket holds, what the shape guard lets through has schema version 3, a live
-- range that is not negative, and a generation, if any, of lower-case hexadecimal digits.
pub assert_current_json-IsValid :
    (r : RawCurrent) (c : CurrentJson) → assert_current_json r ≡ ok c → IsValid c
assert_current_json-IsValid r c =
    Ensures-ok IsValid (assert_current_json r) c (Ensures-assert_current_json r)

string_or_null_field : (o : Option Text) → string_or_null (field_of_snapshot o) ≡ ok o
unfolding string_or_null
string_or_null_field none = refl
string_or_null_field (some s) = refl

natural_field : (o : Option ℕ) → natural_if_present (field_of_number o) ≡ ok o
unfolding natural_if_present
natural_field none = refl
natural_field (some n) = refl

generation_field :
    (o : Option Text) → GenerationOk o → generation_if_present (field_of_text o) ≡ ok o
unfolding generation_if_present
generation_field none h = refl
generation_field (some s) h = rw h refl

string_field : (o : Option Text) → string_if_present (field_of_text o) ≡ ok o
unfolding string_if_present
string_field none = refl
string_field (some s) = refl

fence_field :
    (f : WriterFence)
    → assert_fence (
        some (record {
          epoch = int (pos f.epoch);
          owner = text f.owner;
          claimed_at = text f.claimed_at;
          lease_until = field_of_text f.lease_until;
        }))
      ≡ ok f
unfolding assert_fence natural string
fence_field f =
    >>=-ok (string_if_present (field_of_text f.lease_until)) _ _ _ (string_field f.lease_until) refl

supported_field : (n : ℕ) → n ≡ 3 → schema_supported (int (pos n)) ≡ ok n
unfolding schema_supported
supported_field n h = ground arith

natural_int : (n : ℕ) → natural (int (pos n)) ≡ ok n
unfolding natural
natural_int n = refl

-- A manifest that readers accept is read back as it was written.
pub assert_current_json-encode_json :
    (c : CurrentJson) → IsValid c → assert_current_json (encode_json c) ≡ ok c
unfolding assert_current_json encode_json
assert_current_json-encode_json c v =
    >>=-ok _ _ _ _ (supported_field c.schema_version v.supported) (
      >>=-ok _ _ _ _ (string_or_null_field c.snapshot) (
        >>=-ok _ _ _ _ (natural_int c.tail_hint) (
          >>=-ok _ _ _ _ (natural_int c.log_seq_start) (
            >>=-ok _ _ _ _
              (ap (λ t. throw_if t invalid_response)
                (ltb_of_le c.tail_hint c.log_seq_start v.ordered))
              (>>=-ok _ _ _ _ (fence_field c.writer_fence) (
                >>=-ok _ _ _ _ (natural_int c.snapshot_bytes) (
                  >>=-ok _ _ _ _ (natural_int c.snapshot_rows) (
                    >>=-ok _ _ _ _ (natural_field c.last_warned_seq) (
                      >>=-ok _ _ _ _ (natural_field c.log_delete_floor) (
                        >>=-ok _ _ _ _ (natural_field c.mean_entry_bytes)
                          (>>=-ok _ _ _ _ (generation_field c.generation v.hex) refl)))))))))))

natural-int : (n m : ℕ) → natural (int (pos n)) ≡ ok m → m ≡ n
unfolding natural
natural-int n m h = cc

supported-int : (n m : ℕ) → schema_supported (int (pos n)) ≡ ok m → n ≡ 3
unfolding schema_supported
supported-int n m h = ground arith

generation-text :
    (o g : Option Text) → generation_if_present (field_of_text o) ≡ ok g → GenerationOk o
unfolding generation_if_present
generation-text none g h = tt
generation-text (some s) g h = ground arith

-- A manifest that the guard accepts before it is written is one that readers accept.
Ensures-encode_json :
    (c : CurrentJson)
    → Ensures (λ (d : CurrentJson). IsValid c) (assert_current_json (encode_json c))
unfolding assert_current_json encode_json
Ensures-encode_json c =
    let P : CurrentJson → Type 0 = λ d. IsValid c in
    Ensures-bind P (schema_supported (int (pos c.schema_version))) _ λ schema schema_eq.
      Ensures-bind P (string_or_null (field_of_snapshot c.snapshot)) _ λ snapshot _.
        Ensures-bind P (natural (int (pos c.tail_hint))) _ λ tail_hint tail_eq.
          Ensures-bind P (natural (int (pos c.log_seq_start))) _ λ start start_eq.
            Ensures-throw P (ltb tail_hint start) invalid_response _ λ ordered.
              Ensures-bind P (assert_fence _) _ λ fence _.
                Ensures-bind P (natural (int (pos c.snapshot_bytes))) _ λ bytes _.
                  Ensures-bind P (natural (int (pos c.snapshot_rows))) _ λ rows _.
                    Ensures-bind P (natural_if_present (field_of_number c.last_warned_seq)) _
                      λ warned _.
                        Ensures-bind P (natural_if_present (field_of_number c.log_delete_floor)) _
                          λ floor _.
                            Ensures-bind P (natural_if_present (field_of_number c.mean_entry_bytes))
                              _
                              λ mean _.
                                Ensures-bind P (generation_if_present (field_of_text c.generation))
                                  _
                                  λ generation generation_eq. record {
                                    supported = supported-int c.schema_version schema schema_eq;
                                    ordered = omega (
                                      arith,
                                      ltb-false tail_hint start ordered,
                                      natural-int c.tail_hint tail_hint tail_eq,
                                      natural-int c.log_seq_start start start_eq,
                                    );
                                    hex = generation-text c.generation generation generation_eq;
                                  }

pub encode_json-IsValid :
    (c d : CurrentJson) → assert_current_json (encode_json c) ≡ ok d → IsValid c
encode_json-IsValid c d =
    Ensures-ok (λ (d : CurrentJson). IsValid c) (assert_current_json (encode_json c)) d
      (Ensures-encode_json c)
