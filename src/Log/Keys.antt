-- ===== src/Log/Keys.antt =====
-- Slot keys are valid where the prefix is, and no two slots share one.
use baerly_storage.Common.{
  ℕ, zero, suc, ◌+◌, ◌%◌, ◌/◌, ◌<◌, ◌≡◌, ◌≢◌, refl, ap, ◌∙◌, Text, codes, false, ◌||◌, ◌==◌, List,
  [], ◌∷◌, ◌++◌, All, All-append, arith, Bool-cases, length, length-append, text_eq, text_eq_sound,
  ◌≤◌, inl, inr,
}
use baerly_storage.Common.Decimal.{decimal, digits_onto, decimal-injective}
use baerly_storage.Errors.{ok}
use baerly_storage.Storage.{split_slash, has_dot_segment, assert_valid_storage_key}
use baerly_storage.Log.{log_slot, log_object_key}

pub append-injective : (p a b : Text) → p ++ a ≡ p ++ b → a ≡ b
append-injective [] a b h = h
append-injective (x ∷ p) a b h = append-injective p a b (cc (h))

-- Two texts before a common tail without slash.
cancel-right : (a b t : Text) → a ++ t ≡ b ++ t → a ≡ b
cancel-right [] [] t h = refl
cancel-right [] (y ∷ b) t h = absurd (omega (arith, ap length h, length-append b t))
cancel-right (x ∷ a) [] t h = absurd (omega (arith, ap length h, length-append a t))
cancel-right (x ∷ a) (y ∷ b) t h = cc (h, cancel-right a b t (cc (h)))

-- Two different sequence numbers of one collection have different keys.
pub log_object_key-injective :
    (prefix : Text) (m n : ℕ) → log_object_key prefix m ≡ log_object_key prefix n → m ≡ n
unfolding log_object_key log_slot
log_object_key-injective p m n h = decimal-injective m n (
    cancel-right (decimal m) (decimal n) (codes ".json")
      (append-injective (codes "log/") _ _ (cc (append-injective p _ _ h))))

-- A prefix with neither `.` nor `..` between its slashes.
abbrev pub IsPrefix : Text → Type 0
IsPrefix p = has_dot_segment (split_slash p) ≡ false

abbrev NoSlash : Text → Type 0
NoSlash = All (λ (c : ℕ). (c == b'/') ≡ false)

digits_onto-NoSlash : (fuel n : ℕ) (acc : Text) → NoSlash acc → NoSlash (digits_onto fuel n acc)
unfolding digits_onto
digits_onto-NoSlash zero n acc h = h
digits_onto-NoSlash (suc fuel) n acc h = elim (Bool-cases (n / 10 == 0)) [
  | inl e ↦ rw e (ground arith, h)
  | inr e ↦ rw e (digits_onto-NoSlash fuel (n / 10) ((n % 10 + b'0') ∷ acc) (ground arith, h))
]

split_slash_cons : (s : Text) → (w : Text) × (ws : List Text) × (split_slash s ≡ w ∷ ws)
unfolding split_slash
split_slash_cons [] = ([], [], refl)
split_slash_cons (x ∷ s) = elim (Bool-cases (x == b'/')) [
  | inl e ↦ ([], split_slash s, rw e refl)
  | inr e ↦ let (w, ws, p) = split_slash_cons s in (x ∷ w, ws, rw (e, p) refl)
]

split_slash-append : (p r : Text) → split_slash (p ++ (b'/' ∷ r)) ≡ split_slash p ++ split_slash r
unfolding split_slash
split_slash-append [] r = refl
split_slash-append (x ∷ p) r = elim (Bool-cases (x == b'/')) [
  | inl e ↦ rw (e, split_slash-append p r) refl
  | inr e ↦ let (w, ws, q) = split_slash_cons p in rw (e, split_slash-append p r, q) refl
]

split_slash-NoSlash : (s : Text) → NoSlash s → split_slash s ≡ s ∷ []
unfolding split_slash
split_slash-NoSlash [] h = refl
split_slash-NoSlash (x ∷ s) h = rw (h.0, split_slash-NoSlash s h.1) refl

has_dot_segment-append :
    (a b : List Text) → has_dot_segment (a ++ b) ≡ (has_dot_segment a || has_dot_segment b)
unfolding has_dot_segment
has_dot_segment-append [] b = refl
has_dot_segment-append (w ∷ a) b = ground (arith, has_dot_segment-append a b)

file_name : ℕ → Text
file_name n = decimal n ++ codes ".json"

file_name-NoSlash : (n : ℕ) → NoSlash (file_name n)
unfolding file_name decimal
file_name-NoSlash n =
    All-append (λ (c : ℕ). (c == b'/') ≡ false) (digits_onto (suc n) n []) (codes ".json")
      (digits_onto-NoSlash (suc n) n [] tt) (refl, (refl, (refl, (refl, (refl, tt)))))

pub text_ne : (a b : Text) → length b < length a → text_eq a b ≡ false
text_ne a b h = elim (Bool-cases (text_eq a b)) [
  | inl e ↦ absurd (omega (arith, ap length (text_eq_sound a b e)))
  | inr e ↦ e
]

file_name-long : (n : ℕ) → 5 ≤ length (file_name n)
unfolding file_name
file_name-long n = omega (arith, length-append (decimal n) (codes ".json"))

slot_segments : (n : ℕ) → has_dot_segment (split_slash (log_slot n)) ≡ false
unfolding log_slot file_name has_dot_segment
slot_segments n =
    let long = file_name-long n in
    rw
      (
        split_slash-append (codes "log") (file_name n),
        split_slash-NoSlash (codes "log") (refl, (refl, (refl, tt))),
        split_slash-NoSlash (file_name n) (file_name-NoSlash n),
        text_ne (codes "log") (codes ".") (omega arith),
        text_ne (codes "log") (codes "..") (omega arith),
        text_ne (file_name n) (codes ".") (omega arith),
        text_ne (file_name n) (codes "..") (omega arith),
      )
      refl

valid_of_segments :
    (k : Text)
    → 0 < length k
    → has_dot_segment (split_slash k) ≡ false
    → assert_valid_storage_key k ≡ ok tt
unfolding assert_valid_storage_key
valid_of_segments [] h d = absurd (omega arith)
valid_of_segments (x ∷ k) h d = rw d refl

-- Where the collection's prefix has no `.` or `..` between its slashes, the store accepts the key of
-- every slot.
pub log_object_key-valid :
    (prefix : Text) (seq : ℕ)
    → IsPrefix prefix
    → assert_valid_storage_key (log_object_key prefix seq) ≡ ok tt
unfolding log_object_key
log_object_key-valid p n h =
    valid_of_segments (p ++ (b'/' ∷ log_slot n))
      (omega (arith, length-append p (b'/' ∷ log_slot n)))
      (ap has_dot_segment (split_slash-append p (log_slot n))
        ∙ has_dot_segment-append (split_slash p) (split_slash (log_slot n))
        ∙ rw (h, slot_segments n) refl)

pub log_object_key-ne :
    (prefix : Text) (m n : ℕ)
    → m ≢ n
    → text_eq (log_object_key prefix m) (log_object_key prefix n) ≡ false
log_object_key-ne p m n h = elim (Bool-cases (text_eq (log_object_key p m) (log_object_key p n))) [
  | inl e ↦ absurd (h (log_object_key-injective p m n (text_eq_sound _ _ e)))
  | inr e ↦ e
]
