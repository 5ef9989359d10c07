-- ===== src/Cms/Keys.antt =====
-- Which pages of the CMS share a key of the cache.
use property_platform_backen.Prelude.{
  ℕ, ◌≡◌, ◌≢◌, refl, ap, sym, drop, Text, codes, decimal, [], ◌∷◌, ◌++◌, Option, none, some, All,
  arith,
}
use property_platform_backen.Hash.Decimal.{decimal-injective, decimal-ne}
use property_platform_backen.Cms.{or_start, properties_key}

-- The first colon divides a text in one way.
colon_unique :
    (s s' t t' : Text)
    → All (λ c. c ≢ b':') s
    → All (λ c. c ≢ b':') s'
    → s ++ b':' ∷ t ≡ s' ++ b':' ∷ t'
    → (s ≡ s') × (t ≡ t')
colon_unique [] [] t t' h h' e = ground arith
colon_unique [] (c ∷ s') t t' h h' e = ground arith
colon_unique (c ∷ s) [] t t' h h' e = ground arith
colon_unique (c ∷ s) (d ∷ s') t t' h h' e = ground (arith, colon_unique s s' t t')

or_start-injective :
    (a a' : Option Text)
    → a ≢ some (codes "start")
    → a' ≢ some (codes "start")
    → or_start a ≡ or_start a'
    → a ≡ a'
or_start-injective none none h h' e = refl
or_start-injective none (some t) h h' e = absurd (h' (ap some (sym e)))
or_start-injective (some t) none h h' e = absurd (h (ap some e))
or_start-injective (some t) (some t') h h' e = ap some e

without_prefix :
    (first first' : ℕ) (after after' : Option Text)
    → properties_key first after ≡ properties_key first' after'
    → decimal first ++ b':' ∷ or_start after ≡ decimal first' ++ b':' ∷ or_start after'
unfolding properties_key codes
without_prefix first first' after after' e = ap (drop 17) e

-- Two pages share a key only if they have the same size and the same cursor, where neither cursor
-- is the text "start".
pub properties_key-injective :
    (first first' : ℕ) (after after' : Option Text)
    → after ≢ some (codes "start")
    → after' ≢ some (codes "start")
    → properties_key first after ≡ properties_key first' after'
    → (first ≡ first') × (after ≡ after')
properties_key-injective first first' after after' h h' e =
    let (size, cursor) =
      colon_unique (decimal first) (decimal first') (or_start after) (or_start after')
        (decimal-ne b':' first (omega arith)) (decimal-ne b':' first' (omega arith))
        (without_prefix first first' after after' e) in
    (decimal-injective first first' size, or_start-injective after after' h h' cursor)
