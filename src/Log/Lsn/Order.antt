-- ===== src/Log/Lsn/Order.antt =====
-- The padded base-32 numbers: their width, and the order of their texts.
use baerly_storage.Common.{
  ℕ, zero, suc, ◌+◌, ◌-◌, ◌*◌, ◌/◌, ◌%◌, ◌^◌, ◌≤◌, ◌<◌, ◌≡◌, refl, ap, sym, ◌∙◌, Text, Bool, true,
  false, ltb, ◌==◌, some, [], ◌∷◌, ◌++◌, length, arith, Bool-cases, lt→ltb, inl, inr, if◌then◌else◌,
}
use baerly_storage.Common.Texts.{text_lt}
use baerly_storage.Log.Lsn.{
  digit32, base32_onto, zeros, uint2str, uint2str_desc, count_key, value32, read32, str2uint_desc,
}

-- The `w` last digits of a number, the most significant one first, in front of `acc`.
unfoldable digits : ℕ → ℕ → Text → Text
digits zero n acc = acc
digits (suc w) n acc = digits w (n / 32) (digit32 (n % 32) ∷ acc)

-- The largest number of a width, and one more.
unfoldable pub values : ℕ → ℕ
values zero = 1
values (suc w) = 32 * values w

length-digits : (w n : ℕ) (acc : Text) → length (digits w n acc) ≡ w + length acc
unfolding digits
length-digits zero n acc = omega arith
length-digits (suc w) n acc = omega (arith, length-digits w (n / 32) (digit32 (n % 32) ∷ acc))

digits_zero : (w : ℕ) (acc : Text) → digits w 0 acc ≡ zeros w ++ acc
unfolding digits zeros
digits_zero zero acc = refl
digits_zero (suc w) acc = digits_zero w (b'0' ∷ acc) ∙ shift w
  where
    shift : (k : ℕ) → zeros k ++ (b'0' ∷ acc) ≡ b'0' ∷ (zeros k ++ acc)
    shift zero = unfold zeros in refl
    shift (suc k) = unfold zeros in ap (λ s. b'0' ∷ s) (shift k)

length-base32_onto : (fuel n : ℕ) (acc : Text) → length acc ≤ length (base32_onto fuel n acc)
unfolding base32_onto
length-base32_onto zero n acc = omega arith
length-base32_onto (suc fuel) n acc = elim (Bool-cases (n / 32 == 0)) [
  | inl e ↦ rw (e, base32_onto) (omega arith)
  | inr e ↦
      rw (e, base32_onto) (omega (arith, length-base32_onto fuel (n / 32) (digit32 (n % 32) ∷ acc)))
]

-- One digit is left.
short :
    (k n : ℕ) (acc : Text)
    → (n / 32 == 0) ≡ true
    → zeros (suc k + length acc - length (digit32 (n % 32) ∷ acc)) ++ (digit32 (n % 32) ∷ acc)
      ≡ digits k (n / 32) (digit32 (n % 32) ∷ acc)
short k n acc e =
    let none_left : n / 32 ≡ 0 = ground arith in
    let room : suc k + length acc - length (digit32 (n % 32) ∷ acc) ≡ k = omega arith in
    ap (λ r. zeros r ++ (digit32 (n % 32) ∷ acc)) room
    ∙ sym (digits_zero k (digit32 (n % 32) ∷ acc))
    ∙ ap (λ m. digits k m (digit32 (n % 32) ∷ acc)) (sym none_left)

-- Padded to its width, a number that fits has all its digits.
padded :
    (w fuel n : ℕ) (acc : Text)
    → suc w ≤ fuel
    → n < values (suc w)
    → zeros (suc w + length acc - length (base32_onto fuel n acc)) ++ base32_onto fuel n acc
      ≡ digits (suc w) n acc
unfolding base32_onto digits values
padded w zero n acc enough fits = absurd (omega arith)
padded zero (suc fuel) n acc enough fits = elim (Bool-cases (n / 32 == 0)) [
  | inl e ↦ rw (e, base32_onto) (short 0 n acc e)
  | inr e ↦ absurd (ground arith)
]
padded (suc w) (suc fuel) n acc enough fits = elim (Bool-cases (n / 32 == 0)) [
  | inl e ↦ rw (e, base32_onto) (short (suc w) n acc e)
  | inr e ↦
      let rest : Text = base32_onto fuel (n / 32) (digit32 (n % 32) ∷ acc) in
      let room : suc (suc w) + length acc - length rest
          ≡ suc w + length (digit32 (n % 32) ∷ acc) - length rest =
        omega arith in
      rw (e, base32_onto)
        (ap (λ r. zeros r ++ rest) room
          ∙ padded w fuel (n / 32) (digit32 (n % 32) ∷ acc) (omega arith) (omega arith))
]

-- The texts of two lists of digits compare as the numbers do.
digit32-lt : (d e : ℕ) → d < 32 → e < 32 → ltb (digit32 d) (digit32 e) ≡ ltb d e
digit32-lt d e h g = ground arith

text_lt_cons :
    (x y : ℕ) (a b : Text)
    → text_lt (x ∷ a) (y ∷ b) ≡ (if ltb x y then true else if ltb y x then false else text_lt a b)
unfolding text_lt
text_lt_cons x y a b = ground arith

by_last_digit :
    (m n : ℕ) (t : Bool)
    → (if ltb (m / 32) (n / 32)
        then true
        else if ltb (n / 32) (m / 32)
        then false
        else if ltb (m % 32) (n % 32)
        then true
        else if ltb (n % 32) (m % 32)
        then false
        else t)
      ≡ (if ltb m n then true else if ltb n m then false else t)
by_last_digit m n t = ground arith

text_lt-digits :
    (w m n : ℕ) (a b : Text)
    → m < values w
    → n < values w
    → text_lt (digits w m a) (digits w n b)
      ≡ (if ltb m n then true else if ltb n m then false else text_lt a b)
unfolding digits values
text_lt-digits zero m n a b h g = let same : m ≡ n = omega arith in ground (arith, same)
text_lt-digits (suc w) m n a b h g =
    text_lt-digits w (m / 32) (n / 32) (digit32 (m % 32) ∷ a) (digit32 (n % 32) ∷ b) (omega arith)
      (omega arith)
    ∙ ap (λ t. if ltb (m / 32) (n / 32) then true else if ltb (n / 32) (m / 32) then false else t)
        (text_lt_cons (digit32 (m % 32)) (digit32 (n % 32)) a b
          ∙ rw
              (
                digit32-lt (m % 32) (n % 32) (omega arith) (omega arith),
                digit32-lt (n % 32) (m % 32) (omega arith) (omega arith),
              )
              refl)
    ∙ by_last_digit m n (text_lt a b)

uint2str-digits :
    (w bits n : ℕ)
    → w ≤ 12
    → (bits + 4) / 5 ≡ suc w
    → n < values (suc w)
    → uint2str n bits ≡ digits (suc w) n []
unfolding uint2str
uint2str-digits w bits n few width fits =
    ap (λ k. zeros (k - length (base32_onto 13 n [])) ++ base32_onto 13 n []) (width ∙ omega arith)
    ∙ padded w 13 n [] (omega arith) fits

values_11 : values 11 ≡ 36028797018963968
unfolding values
values_11 = refl

-- The sequence numbers of a log up to 2^53 - 1 have texts of eleven characters, and a later number has
-- the smaller text.
pub count_key-Order :
    (m n : ℕ)
    → m < n
    → n < 9007199254740992
    → (length (count_key m) ≡ 11)
      × (length (count_key n) ≡ 11)
      × (text_lt (count_key n) (count_key m) ≡ true)
unfolding count_key uint2str_desc
count_key-Order m n h fits =
    let below_m : 2 ^ 53 - 1 - m < values 11 = omega (arith, values_11) in
    let below_n : 2 ^ 53 - 1 - n < values 11 = omega (arith, values_11) in
    let first : uint2str (2 ^ 53 - 1 - m) 53 ≡ digits 11 (2 ^ 53 - 1 - m) [] =
      uint2str-digits 10 53 (2 ^ 53 - 1 - m) (omega arith) refl below_m in
    let second : uint2str (2 ^ 53 - 1 - n) 53 ≡ digits 11 (2 ^ 53 - 1 - n) [] =
      uint2str-digits 10 53 (2 ^ 53 - 1 - n) (omega arith) refl below_n in
    let smaller : ltb (2 ^ 53 - 1 - n) (2 ^ 53 - 1 - m) ≡ true = lt→ltb _ _ (omega arith) in
    (
      ap length first ∙ length-digits 11 (2 ^ 53 - 1 - m) [],
      ap length second ∙ length-digits 11 (2 ^ 53 - 1 - n) [],
      rw (first, second)
          (text_lt-digits 11 (2 ^ 53 - 1 - n) (2 ^ 53 - 1 - m) [] [] below_n below_m
            ∙ rw smaller refl),
    )

value32-digit32 : (d : ℕ) → d < 32 → value32 (digit32 d) ≡ some d
unfolding value32
value32-digit32 d h = ground arith

read32-digits : (w n : ℕ) (s : Text) → n < values w → read32 0 (digits w n s) ≡ read32 n s
unfolding digits values read32
read32-digits zero n s h = let none_left : n ≡ 0 = omega arith in rw none_left refl
read32-digits (suc w) n s h =
    let whole : n / 32 * 32 + n % 32 ≡ n = omega arith in
    read32-digits w (n / 32) (digit32 (n % 32) ∷ s) (omega arith)
    ∙ rw (read32, value32-digit32 (n % 32) (omega arith), whole) refl

-- A sequence number up to 2^53 - 1 is read back from its text.
pub str2uint_desc-count_key : (n : ℕ) → n < 9007199254740992 → str2uint_desc (count_key n) 53 ≡ n
unfolding str2uint_desc count_key uint2str_desc
str2uint_desc-count_key n fits =
    let below : 2 ^ 53 - 1 - n < values 11 = omega (arith, values_11) in
    let read : read32 0 (uint2str (2 ^ 53 - 1 - n) 53) ≡ 2 ^ 53 - 1 - n =
      ap (read32 0) (uint2str-digits 10 53 (2 ^ 53 - 1 - n) (omega arith) refl below)
      ∙ read32-digits 11 (2 ^ 53 - 1 - n) [] below
      ∙ unfold read32 in refl in
    ap (λ x. 2 ^ 53 - 1 - x) read ∙ omega arith
