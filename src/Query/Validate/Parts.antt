-- ===== src/Query/Validate/Parts.antt =====
-- Which operators, fields and values pass the check of a clause.
use baerly_storage.Common.{
  ℕ, ◌≡◌, ◌≢◌, refl, ap, sym, ◌∙◌, ◌++◌, ◌||◌, arith, codes, Text, text_eq_sound, text_eq_refl,
  starts_with, starts_with_sound, starts_with-append, Bool, true, false, Option, none, some, List,
  [], ◌∷◌, ◌&&◌, Bool-cases, inl, inr, if◌then◌else◌,
}
use baerly_storage.Common.Texts.{text_eq}
use baerly_storage.Errors.{ok, err, invalid_config, ok-inj}
use baerly_storage.Json.{JsonValue, Items, null, bool, num, str, arr, obj, nil, cons}
use baerly_storage.Query.{OpName, eq, gt, gte, lt, lte, one_of}
use baerly_storage.Query.Validate.{
  op_text, op_names, find_op, validate_op, is_id_path, validate_field, validate_member_value,
  validate_members, validate_scalar, validate_range_bound, validate_value,
}

-- A string, a number, a boolean or an object.
abbrev pub is_plain_value : JsonValue → Bool
is_plain_value null = false
is_plain_value (arr xs) = false
is_plain_value _ = true

abbrev pub all_plain : Items → Bool
all_plain nil = true
all_plain (cons x xs) = is_plain_value x && all_plain xs

abbrev pub is_bound : JsonValue → Bool
is_bound (str s) = true
is_bound (num n) = true
is_bound _ = false

-- The value that fits an operator.
abbrev pub suits : OpName → JsonValue → Bool
suits eq v = is_plain_value v
suits one_of (arr (cons x xs)) = all_plain (cons x xs)
suits one_of _ = false
suits op v = is_bound v

neither : (a b : Bool) → (a || b) ≡ false → (a ≡ false) × (b ≡ false)
neither a b h = ground arith

-- A field that a predicate may have: not empty, not `_id`, and no path below it.
pub record IsField (f : Text) : Type 0 where
  pub non_empty : f ≢ []
  pub no_id : f ≢ codes "_id"
  pub no_id_path : (rest : Text) → f ≢ codes "_id." ++ rest

is_id_path-IsField : (c : ℕ) (s : Text) → is_id_path (c ∷ s) ≡ false → IsField (c ∷ s)
is_id_path-IsField c s h =
    let (no_root, no_path) = neither _ _ h in
    record {
      non_empty = λ e. cc e;
      no_id = λ e.
          let yes : text_eq (c ∷ s) (codes "_id") ≡ true = rw e (text_eq_refl (codes "_id")) in
          cc (sym no_root ∙ yes);
      no_id_path = λ rest e.
          let yes : starts_with (c ∷ s) (codes "_id.") ≡ true =
            rw e (starts_with-append (codes "_id.") rest) in
          cc (sym no_path ∙ yes);
    }

IsField-is_id_path : (f : Text) → IsField f → is_id_path f ≡ false
IsField-is_id_path f h = elim (Bool-cases (text_eq f (codes "_id"))) [
  | inl e ↦ absurd (h.no_id (text_eq_sound f (codes "_id") e))
  | inr e ↦ elim (Bool-cases (starts_with f (codes "_id."))) [
    | inl k ↦
        let (rest, same) = starts_with_sound f (codes "_id.") k in absurd (h.no_id_path rest same)
    | inr k ↦ rw (e, k) refl
  ]
]

find_op_sound : (s : Text) (ops : List OpName) (o : OpName) → find_op s ops ≡ ok o → s ≡ op_text o
unfolding find_op
find_op_sound s [] o h = cc
find_op_sound s (p ∷ ops) o h = elim (Bool-cases (text_eq s (op_text p))) [
  | inl e ↦ rw (← ok-inj (rw (find_op, e) at h)) (text_eq_sound s (op_text p) e)
  | inr e ↦ find_op_sound s ops o (rw (find_op, e) at h)
]

pub validate_op_sound :
    (v : Option JsonValue) (o : OpName) → validate_op v ≡ ok o → v ≡ some (str (op_text o))
unfolding validate_op
validate_op_sound (some (str s)) o h = ap (λ t. some (str t)) (find_op_sound s op_names o h)
validate_op_sound _ o h = cc

pub validate_op_complete : (o : OpName) → validate_op (some (str (op_text o))) ≡ ok o
unfolding validate_op text_eq
validate_op_complete eq = refl
validate_op_complete gt = refl
validate_op_complete gte = refl
validate_op_complete lt = refl
validate_op_complete lte = refl
validate_op_complete one_of = refl

pub validate_field_sound :
    (v : Option JsonValue) (f : Text) → validate_field v ≡ ok f → (v ≡ some (str f)) × IsField f
unfolding validate_field
validate_field_sound (some (str (c ∷ s))) f h = elim (Bool-cases (is_id_path (c ∷ s))) [
  | inl e ↦ cc (rw (validate_field, e) at h)
  | inr e ↦ rw (← ok-inj (rw (validate_field, e) at h)) (refl, is_id_path-IsField c s e)
]
validate_field_sound (some (str [])) f h = cc
validate_field_sound _ f h = cc

pub validate_field_complete : (f : Text) → IsField f → validate_field (some (str f)) ≡ ok f
unfolding validate_field
validate_field_complete [] h = absurd (h.non_empty refl)
validate_field_complete (c ∷ s) h = rw (validate_field, IsField-is_id_path (c ∷ s) h) refl

validate_members-plain :
    (xs : Items) → validate_members xs ≡ (if all_plain xs then ok tt else err invalid_config)
unfolding validate_members validate_member_value
validate_members-plain nil = refl
validate_members-plain (cons null xs) = refl
validate_members-plain (cons (arr ys) xs) = refl
validate_members-plain (cons (bool b) xs) = validate_members-plain xs
validate_members-plain (cons (num n) xs) = validate_members-plain xs
validate_members-plain (cons (str t) xs) = validate_members-plain xs
validate_members-plain (cons (obj fs) xs) = validate_members-plain xs

validate_scalar-plain :
    (v : JsonValue) → validate_scalar v ≡ (if is_plain_value v then ok v else err invalid_config)
unfolding validate_scalar
validate_scalar-plain null = refl
validate_scalar-plain (arr ys) = refl
validate_scalar-plain (bool b) = refl
validate_scalar-plain (num n) = refl
validate_scalar-plain (str t) = refl
validate_scalar-plain (obj fs) = refl

validate_range_bound-bound :
    (v : JsonValue) → validate_range_bound v ≡ (if is_bound v then ok v else err invalid_config)
unfolding validate_range_bound
validate_range_bound-bound null = refl
validate_range_bound-bound (arr ys) = refl
validate_range_bound-bound (bool b) = refl
validate_range_bound-bound (num n) = refl
validate_range_bound-bound (str t) = refl
validate_range_bound-bound (obj fs) = refl

-- A check that returns its value answers as the test does.
tested :
    (p : JsonValue → Bool) (v w : JsonValue)
    → (if p v then ok v else err invalid_config) ≡ ok w
    → (some v ≡ some w) × (p w ≡ true)
tested p v w h = elim (Bool-cases (p v)) [
  | inl e ↦ let same : v ≡ w = ok-inj (rw e at h) in (ap some same, rw (← same) e)
  | inr e ↦ cc (rw e at h)
]

-- Only a non-empty set can suit a membership, and each other operator has one test.
pub suits_check :
    (op : OpName) (v : JsonValue) → suits op v ≡ true → validate_value op (some v) ≡ ok v
unfolding validate_value
suits_check eq v h = rw (validate_scalar-plain v, h) refl
suits_check one_of (arr (cons x xs)) h = rw (validate_members-plain (cons x xs), h) refl
suits_check gt v h = rw (validate_range_bound-bound v, h) refl
suits_check gte v h = rw (validate_range_bound-bound v, h) refl
suits_check lt v h = rw (validate_range_bound-bound v, h) refl
suits_check lte v h = rw (validate_range_bound-bound v, h) refl
suits_check _ _ h = cc

pub check_suits :
    (op : OpName) (o : Option JsonValue) (w : JsonValue)
    → validate_value op o ≡ ok w
    → (o ≡ some w) × (suits op w ≡ true)
unfolding validate_value
check_suits op none w h = cc
check_suits eq (some v) w h = tested is_plain_value v w (rw (validate_scalar-plain v) at h)
check_suits gt (some v) w h = tested is_bound v w (rw (validate_range_bound-bound v) at h)
check_suits gte (some v) w h = tested is_bound v w (rw (validate_range_bound-bound v) at h)
check_suits lt (some v) w h = tested is_bound v w (rw (validate_range_bound-bound v) at h)
check_suits lte (some v) w h = tested is_bound v w (rw (validate_range_bound-bound v) at h)
check_suits one_of (some (arr (cons x xs))) w h = elim (Bool-cases (all_plain (cons x xs))) [
  | inr e ↦ cc (rw (validate_members-plain (cons x xs), e) at h)
  | inl e ↦
      let same : arr (cons x xs) ≡ w = ok-inj (rw (validate_members-plain (cons x xs), e) at h) in
      (ap some same, rw (← same) e)
]
check_suits one_of (some (arr nil)) w h = cc
check_suits one_of (some null) w h = cc
check_suits one_of (some (bool b)) w h = cc
check_suits one_of (some (num n)) w h = cc
check_suits one_of (some (str t)) w h = cc
check_suits one_of (some (obj fs)) w h = cc
