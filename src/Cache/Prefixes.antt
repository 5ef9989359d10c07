-- ===== src/Cache/Prefixes.antt =====
-- What is left of the cache after an invalidation by a prefix.
use property_platform_backen.Prelude.{
  ℕ, ◌≡◌, refl, ◌∙◌, Text, codes, true, false, Option, none, some, List, [], ◌∷◌, ◌++◌,
  if◌then◌else◌, Bool-cases, inl, inr, arith,
}
use property_platform_backen.Redis.{Redis, starts, is_literal, holds, is_some}
use property_platform_backen.Cache.{CacheEnvelope, is_nil, del_all, invalidate_cache_by_prefix}

nothing_there : {A : Type 0} (o : Option A) → is_some o ≡ false → none ≡ o
nothing_there none h = refl
nothing_there (some a) h = ground arith

module _ {T : Type 0} (redis : Redis (CacheEnvelope T)) where
  open redis use {Store, get, scan, get-del, scan_literal}

  get-del_all :
      (t : ℕ) (k : Text) (ks : List Text) (s : Store)
      → get t k (del_all redis ks s) ≡ (if holds k ks then none else get t k s)
  unfolding del_all holds
  get-del_all t k [] s = refl
  get-del_all t k (j ∷ ks) s =
      get-del_all t k ks (redis.del j s) ∙ rw (get-del t j k s) (ground arith)

  -- No test is needed for an empty list of keys.
  unless_nil :
      (ks : List Text) (s : Store)
      → (if is_nil ks then s else del_all redis ks s) ≡ del_all redis ks s
  unfolding del_all
  unless_nil [] s = refl
  unless_nil (k ∷ ks) s = refl

  -- The invalidation of a prefix without pattern characters takes away just those keys that start
  -- with it.
  pub get-invalidate_cache_by_prefix :
      (t : ℕ) (prefix k : Text) (s : Store)
      → is_literal prefix ≡ true
      → get t k (invalidate_cache_by_prefix redis t prefix s)
        ≡ (if starts prefix k then none else get t k s)
  unfolding invalidate_cache_by_prefix
  get-invalidate_cache_by_prefix t prefix k s h =
      let keys = scan t (prefix ++ codes "*") s in
      rw (unless_nil keys s, get-del_all t k keys s, scan_literal t prefix k s h)
        (elim (Bool-cases (is_some (get t k s))) [
          | inl found ↦ rw found (ground arith)
          | inr lost ↦ rw lost (ground (arith, nothing_there (get t k s) lost))
        ])
