-- ===== src/Log/Lsn.antt =====
-- protocol/src/types.ts: the base-32 numbers of a log entry's LSN, padded to their width and
-- descending, so that later entries come first in the order of texts.
pub mod Order
use baerly_storage.Common.{
  ℕ, zero, suc, ◌+◌, ◌-◌, ◌*◌, ◌/◌, ◌%◌, ◌^◌, ltb, leb, ◌&&◌, Option, none, some, ◌==◌,
  if◌then◌else◌, Text, length, [], ◌∷◌, ◌++◌,
}

abbrev pub digit32 : ℕ → ℕ
digit32 d = if ltb d 10 then b'0' + d else b'a' + (d - 10)

-- `num.toString(32)`
unfoldable pub base32_onto : ℕ → ℕ → Text → Text
base32_onto zero n acc = acc
base32_onto (suc fuel) n acc =
    let shown = digit32 (n % 32) ∷ acc in
    let rest = base32_onto fuel (n / 32) shown in if n / 32 == 0 then shown else rest

unfoldable pub zeros : ℕ → Text
zeros zero = []
zeros (suc n) = b'0' ∷ zeros n

-- A number below 2^64 has at most 13 digits.
unfoldable pub uint2str : ℕ → ℕ → Text
unfolding base32_onto zeros
uint2str num bits =
    let shown = base32_onto 13 num [] in zeros ((bits + 4) / 5 - length shown) ++ shown

unfoldable pub uint2str_desc : ℕ → ℕ → Text
unfolding uint2str
uint2str_desc num bits = uint2str (2 ^ bits - 1 - num) bits

unfoldable pub count_key : ℕ → Text
unfolding uint2str_desc
count_key seq = uint2str_desc seq 53

-- The value of a digit of `parseInt(str, 32)`.
unfoldable pub value32 : ℕ → Option ℕ
value32 c =
    if leb b'0' c && leb c b'9'
    then some (c - b'0')
    else if leb b'a' c && leb c b'v'
    then some (c - b'a' + 10)
    else if leb b'A' c && leb c b'V'
    then some (c - b'A' + 10)
    else none

-- `parseInt` reads as many digits as there are. A text without a digit, whose value is NaN, stands
-- for 0 here.
unfoldable pub read32 : ℕ → Text → ℕ
unfolding value32
read32 acc [] = acc
read32 acc (c ∷ s) = elim (value32 c) [ none ↦ acc | some d ↦ read32 (acc * 32 + d) s ]

unfoldable pub str2uint_desc : Text → ℕ → ℕ
unfolding read32
str2uint_desc s bits = 2 ^ bits - 1 - read32 0 s
