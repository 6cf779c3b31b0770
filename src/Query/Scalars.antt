-- ===== src/Query/Scalars.antt =====
-- The comparators of protocol/src/query/_internals.ts, and the order of strings and numbers.
pub mod Order
use Prim.Native.Nat.{Ordering}
use baerly_storage.Common.{
  ℕ, zero, suc, ◌+◌, ◌==◌, ◌≡◌, refl, ap, sym, ◌∙◌, Text, text_eq, text_eq_sound, text_eq_refl,
  text_lt, text_lt_irrefl, text_lt_trans, text_lt_connex, Bool, true, false, ◌&&◌, ◌||◌, Option,
  none, some, arith, if◌then◌else◌,
}
use baerly_storage.Common.Decimal.{decimal}
use baerly_storage.Common.Int.{ℤ, pos, negsuc, ltb_ℤ, ltb_ℤ_irrefl, ltb_ℤ_trans, ltb_ℤ_connex}
use baerly_storage.Json.{
  JsonValue, Items, Fields, null, bool, num, str, arr, obj, nil, cons, end, prop, get, length_items,
  length_fields, strict_eq,
}
use baerly_storage.Query.{own_props}

-- `sameComparableType`
unfoldable pub same_comparable_type : JsonValue → JsonValue → Bool
same_comparable_type (str a) (str b) = true
same_comparable_type (num a) (num b) = true
same_comparable_type _ _ = false

-- `<` on two strings or two numbers.
unfoldable pub scalar_lt : JsonValue → JsonValue → Bool
scalar_lt (str a) (str b) = text_lt a b
scalar_lt (num a) (num b) = ltb_ℤ a b
scalar_lt _ _ = false

-- The sign of `compareScalar`: less, equal or greater than 0.
unfoldable pub compare_scalar : JsonValue → JsonValue → Ordering
unfolding scalar_lt
compare_scalar a b =
    if scalar_lt a b then Ordering.lt else if scalar_lt b a then Ordering.gt else Ordering.eq

-- `deepEqualDocumentValue`. An array has its indices for keys. `null` is no document value: it
-- counts here as having no key, where `Object.keys` would throw.
unfoldable mutual
  pub deep_equal_document_value : JsonValue → JsonValue → Bool
  deep_equal_document_value (arr xs) (arr ys) =
      length_items xs == length_items ys && items_agree 0 xs (own_props (arr ys))
  deep_equal_document_value (arr xs) (obj gs) =
      length_items xs == length_fields gs && items_agree 0 xs gs
  deep_equal_document_value (obj fs) (obj gs) =
      length_fields fs == length_fields gs && fields_agree fs gs
  deep_equal_document_value (obj fs) (arr ys) =
      length_fields fs == length_items ys && fields_agree fs (own_props (arr ys))
  deep_equal_document_value null b = strict_eq null b
  deep_equal_document_value (bool x) b = strict_eq (bool x) b
  deep_equal_document_value (num x) b = strict_eq (num x) b
  deep_equal_document_value (str x) b = strict_eq (str x) b
  deep_equal_document_value a b = false

  pub items_agree : ℕ → Items → Fields → Bool
  items_agree i nil right = true
  items_agree i (cons x xs) right = elim (get (decimal i) right) [
    | none ↦ false
    | some y ↦ deep_equal_document_value x y && items_agree (suc i) xs right
  ]

  pub fields_agree : Fields → Fields → Bool
  fields_agree end right = true
  fields_agree (prop k x fs) right = elim (get k right) [
    | none ↦ false
    | some y ↦ deep_equal_document_value x y && fields_agree fs right
  ]

-- A string, a number or a boolean.
abbrev pub is_scalar : JsonValue → Bool
is_scalar (str s) = true
is_scalar (num n) = true
is_scalar (bool b) = true
is_scalar _ = false

pub scalar_lt_irrefl : (a : JsonValue) → scalar_lt a a ≡ false
unfolding scalar_lt
scalar_lt_irrefl (str s) = text_lt_irrefl s
scalar_lt_irrefl (num n) = ltb_ℤ_irrefl n
scalar_lt_irrefl _ = refl

pub scalar_lt_trans :
    (a b c : JsonValue) → scalar_lt a b ≡ true → scalar_lt b c ≡ true → scalar_lt a c ≡ true
unfolding scalar_lt
scalar_lt_trans (str a) (str b) (str c) h k = text_lt_trans a b c h k
scalar_lt_trans (num a) (num b) (num c) h k = ltb_ℤ_trans a b c h k
scalar_lt_trans _ _ _ h k = cc

pub scalar_lt_connex :
    (a b : JsonValue)
    → same_comparable_type a b ≡ true
    → scalar_lt a b ≡ false
    → scalar_lt b a ≡ false
    → a ≡ b
unfolding scalar_lt same_comparable_type
scalar_lt_connex (str a) (str b) t h k = ap str (text_lt_connex a b h k)
scalar_lt_connex (num a) (num b) t h k = ap num (ltb_ℤ_connex a b h k)
scalar_lt_connex _ _ t h k = cc

pub strict_eq_sound : (a b : JsonValue) → strict_eq a b ≡ true → a ≡ b
unfolding strict_eq
strict_eq_sound null null h = refl
strict_eq_sound (bool a) (bool b) h = ground arith
strict_eq_sound (num a) (num b) h = ground arith
strict_eq_sound (str a) (str b) h = ap str (text_eq_sound a b h)
strict_eq_sound _ _ h = cc

pub deep_equal_document_value_refl :
    (a : JsonValue) → is_scalar a ≡ true → deep_equal_document_value a a ≡ true
unfolding deep_equal_document_value strict_eq
deep_equal_document_value_refl (bool b) h = ground arith
deep_equal_document_value_refl (num n) h = ground arith
deep_equal_document_value_refl (str s) h = text_eq_refl s
deep_equal_document_value_refl _ h = cc

pub deep_equal_document_value_sound :
    (a b : JsonValue) → is_scalar a ≡ true → deep_equal_document_value a b ≡ true → a ≡ b
unfolding deep_equal_document_value
deep_equal_document_value_sound (bool x) b s h = strict_eq_sound (bool x) b h
deep_equal_document_value_sound (num x) b s h = strict_eq_sound (num x) b h
deep_equal_document_value_sound (str x) b s h = strict_eq_sound (str x) b h
deep_equal_document_value_sound _ b s h = cc
