-- ===== src/Query/Matches/Paths.antt =====
-- The fast path of `lookupPath` is the traversal.
use baerly_storage.Common.{ℕ, Text, ◌≡◌, refl, false, some, [], ◌∷◌, arith, Bool-cases, inl, inr}
use baerly_storage.Json.{Fields, obj}
use baerly_storage.Query.Matches.{includes, split, walk, lookup_path}

pub split_of_not_includes : (c : ℕ) (s : Text) → includes c s ≡ false → split c s ≡ s ∷ []
unfolding includes split
split_of_not_includes c [] h = refl
split_of_not_includes c (x ∷ s) h = ground (arith, split_of_not_includes c s)

-- For every document and field, looking a field up is walking the segments between its dots,
-- whichever of its two branches the lookup takes.
pub lookup_path-walk :
    (doc : Fields) (field : Text) → lookup_path doc field ≡ walk (split b'.' field) (some (obj doc))
unfolding lookup_path
lookup_path-walk doc field = elim (Bool-cases (includes b'.' field)) [
  | inl e ↦ rw e
  | inr e ↦ rw (e, split_of_not_includes b'.' field e)
]
