-- ===== src/Snapshot/Names.antt =====
-- A snapshot's key names its content: the hash is read back from it.
use baerly_storage.Common.{
  ℕ, zero, suc, ◌+◌, ◌<◌, ◌==◌, ◌≡◌, refl, ap, sym, ◌∙◌, ◌-◌, ◌/◌, ◌%◌, Text, codes, length,
  length-append, true, false, ◌||◌, [], ◌∷◌, ◌++◌, arith, Bool-cases, inl, inr,
}
use baerly_storage.Common.Texts.{text_eq}
use baerly_storage.Common.Decimal.{decimal, digits_onto}
use baerly_storage.CurrentJson.{all_hex}
use baerly_storage.Log.Lsn.{zeros}
use baerly_storage.Log.Keys.{text_ne}
use baerly_storage.Snapshot.{
  pad, snapshot_name, snapshot_path, mentions, after_last, strip_json, expected_hash,
}

append_assoc : (a b c : Text) → (a ++ b) ++ c ≡ a ++ (b ++ c)
append_assoc [] b c = refl
append_assoc (x ∷ a) b c = ap (λ s. x ∷ s) (append_assoc a b c)

mentions-append : (c : ℕ) (a b : Text) → mentions c (a ++ b) ≡ (mentions c a || mentions c b)
unfolding mentions
mentions-append c [] b = refl
mentions-append c (x ∷ a) b = ground (arith, mentions-append c a b)

mentions-last : (c : ℕ) (a b : Text) → mentions c (a ++ (c ∷ b)) ≡ true
unfolding mentions
mentions-last c [] b = ground arith
mentions-last c (x ∷ a) b = ground (arith, mentions-last c a b)

after_last-append : (c : ℕ) (a b : Text) → mentions c b ≡ false → after_last c (a ++ (c ∷ b)) ≡ b
unfolding after_last
after_last-append c [] b h = ground arith
after_last-append c (x ∷ a) b h = rw (mentions-last c a b) (after_last-append c a b h)

strip_json-append : (a : Text) → strip_json (a ++ codes ".json") ≡ a
unfolding strip_json text_eq
strip_json-append [] = refl
strip_json-append (x ∷ a) =
    rw
      (text_ne (x ∷ (a ++ codes ".json")) (codes ".json")
        (omega (arith, length-append a (codes ".json"))))
      (ap (λ s. x ∷ s) (strip_json-append a))

-- Digits and letters are no dash and no slash.
mentions-all_hex : (c : ℕ) (s : Text) → c < b'0' → all_hex s ≡ true → mentions c s ≡ false
unfolding mentions all_hex
mentions-all_hex c [] h d = refl
mentions-all_hex c (x ∷ s) h d = ground (arith, mentions-all_hex c s h)

mentions-zeros : (c n : ℕ) → c < b'0' → mentions c (zeros n) ≡ false
unfolding mentions zeros
mentions-zeros c zero h = refl
mentions-zeros c (suc n) h = ground (arith, mentions-zeros c n h)

mentions-digits_onto :
    (c fuel n : ℕ) (acc : Text)
    → c < b'0'
    → mentions c acc ≡ false
    → mentions c (digits_onto fuel n acc) ≡ false
unfolding mentions digits_onto
mentions-digits_onto c zero n acc h a = a
mentions-digits_onto c (suc fuel) n acc h a =
    let shown : mentions c ((n % 10 + b'0') ∷ acc) ≡ false = ground arith in
    elim (Bool-cases (n / 10 == 0)) [
      | inl e ↦ rw e shown
      | inr e ↦ rw e (mentions-digits_onto c fuel (n / 10) ((n % 10 + b'0') ∷ acc) h shown)
    ]

mentions-pad : (c n : ℕ) → c < b'0' → mentions c (pad n) ≡ false
unfolding pad decimal
mentions-pad c n h =
    mentions-append c (zeros (12 - length (digits_onto (suc n) n []))) (digits_onto (suc n) n [])
    ∙ rw
        (
          mentions-zeros c (12 - length (digits_onto (suc n) n [])) h,
          mentions-digits_onto c (suc n) n [] h (unfold mentions in refl),
        )
        refl

mentions-snapshot_name :
    (min_seq max_seq : ℕ) (sha : Text)
    → all_hex sha ≡ true
    → mentions b'/' (snapshot_name min_seq max_seq sha) ≡ false
unfolding snapshot_name mentions
mentions-snapshot_name m n sha h =
    mentions-append b'/' (pad m) (b'-' ∷ (pad n ++ (b'-' ∷ sha)))
    ∙ rw
        (
          mentions-pad b'/' m (omega arith),
          mentions-append b'/' (pad n) (b'-' ∷ sha),
          mentions-pad b'/' n (omega arith),
          mentions-all_hex b'/' sha (omega arith) h,
        )
        refl

-- The hash that a loader expects behind a key is the one that the key was built from.
pub expected_hash-snapshot_path :
    (prefix : Text) (min_seq max_seq : ℕ) (sha : Text)
    → all_hex sha ≡ true
    → expected_hash (snapshot_path prefix min_seq max_seq sha) ≡ sha
unfolding expected_hash snapshot_path
expected_hash-snapshot_path prefix m n sha h =
    ap (λ s. after_last b'-' (strip_json s)) file
    ∙ ap (after_last b'-') (strip_json-append (snapshot_name m n sha))
    ∙ name
  where
    file :
        after_last b'/' (
          prefix
          ++ (b'/' ∷ (codes "snapshot/L9" ++ (b'/' ∷ (snapshot_name m n sha ++ codes ".json")))))
        ≡ snapshot_name m n sha ++ codes ".json"
    file =
        ap (after_last b'/') (
          sym (
            append_assoc prefix (b'/' ∷ codes "snapshot/L9")
              (b'/' ∷ (snapshot_name m n sha ++ codes ".json"))))
        ∙ after_last-append b'/' (prefix ++ (b'/' ∷ codes "snapshot/L9"))
            (snapshot_name m n sha ++ codes ".json")
            (mentions-append b'/' (snapshot_name m n sha) (codes ".json")
              ∙ rw (mentions-snapshot_name m n sha h) (unfold mentions in refl))

    name : after_last b'-' (snapshot_name m n sha) ≡ sha
    name =
        unfold snapshot_name in
        (ap (after_last b'-') (sym (append_assoc (pad m) (b'-' ∷ pad n) (b'-' ∷ sha)))
          ∙ after_last-append b'-' (pad m ++ (b'-' ∷ pad n)) sha
              (mentions-all_hex b'-' sha (omega arith) h))
