-- ===== src/Security/Origins.antt =====
-- Which origins are allowed.
use property_platform_backen.Prelude.{
  ◌≡◌, ◌≢◌, ◌↔◌, ◌⊎◌, inl, inr, refl, ap, Text, text_eq, text_eq_iff, Bool, true, false, some, List,
  [], ◌∷◌, ◌++◌, any, All, Bool-cases, arith,
}
use property_platform_backen.Hash.{trim, trim_start, trim_end, join}
use property_platform_backen.Security.{
  split, cons_first, is_filled, allowed_origins, allow, cors_origin_validator,
}

-- An origin as it is written in the list: not empty, without a comma, and without spaces around.
pub record IsPlain (o : Text) : Type 0 where
  pub filled : is_filled o ≡ true
  pub no_comma : All (λ c. c ≢ b',') o
  pub trimmed : trim o ≡ o

abbrev pub Listed : Text → List Text → Type 0
Listed o [] = ⊥
Listed o (p ∷ ps) = (p ≡ o) ⊎ Listed o ps

split_last : (s : Text) → All (λ c. c ≢ b',') s → split b',' s ≡ s ∷ []
unfolding split cons_first
split_last [] h = refl
split_last (c ∷ s) h = rw (split_last s h.1) (ground arith)

split-append : (s t : Text) → All (λ c. c ≢ b',') s → split b',' (s ++ b',' ∷ t) ≡ s ∷ split b',' t
unfolding split cons_first
split-append [] t h = refl
split-append (c ∷ s) t h = rw (split-append s t h.1) (ground arith)

allowed_origins-join : (os : List Text) → All IsPlain os → allowed_origins (join b',' os) ≡ os
unfolding allowed_origins join
allowed_origins-join [] h = unfold split trim trim_start trim_end in refl
allowed_origins-join (o ∷ []) h = rw (split_last o h.0.no_comma, h.0.trimmed, h.0.filled)
allowed_origins-join (o ∷ p ∷ os) h =
    rw (split-append o (join b',' (p ∷ os)) h.0.no_comma, h.0.trimmed, h.0.filled)
      (ap (λ r. o ∷ r) (allowed_origins-join (p ∷ os) h.1))

any_iff : (o : Text) (os : List Text) → (any (λ p. text_eq p o) os ≡ true) ↔ Listed o os
any_iff o [] = ground arith
any_iff o (p ∷ os) = ground (arith, any_iff o os, text_eq_iff p o)

clash : (b : Bool) → b ≡ true → b ≡ false → ⊥
clash b h k = cc

-- If the setting is a list of origins with commas between them, none of them empty, with a comma
-- or with spaces around, then a request that names an origin is let through exactly when the
-- origin is in the list.
pub cors_origin_validator_iff :
    (os : List Text) (o : Text)
    → All IsPlain os
    → is_filled o ≡ true
    → (cors_origin_validator (join b',' os) (some o) ≡ allow) ↔ Listed o os
unfolding cors_origin_validator
cors_origin_validator_iff os [] h f = cc
cors_origin_validator_iff os (c ∷ s) h f =
    rw (allowed_origins-join os h) (elim (Bool-cases (any (λ o. text_eq o (c ∷ s)) os)) [
      | inl listed ↦ rw listed ((λ _. (any_iff (c ∷ s) os).0 listed), (λ _. refl))
      | inr other ↦ rw other (
        (λ e. cc),
        (λ l. absurd (clash (any (λ o. text_eq o (c ∷ s)) os) ((any_iff (c ∷ s) os).1 l) other)),
      )
    ])
