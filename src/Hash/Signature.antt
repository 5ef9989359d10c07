-- ===== src/Hash/Signature.antt =====
-- Which signatures `verifyHmacSignature` accepts.
use property_platform_backen.Prelude.{
  ℕ, ◌+◌, ◌-◌, ◌*◌, ◌<◌, ◌≤◌, ◌≡◌, refl, ap, ◌∙◌, inl, inr, Text, codes, true, [], ◌∷◌, List,
  Option, none, some, map, take, drop, length, text_eq_iff, leb, ◌&&◌, if◌then◌else◌, Option-cases,
  arith, ◌↔◌, ◌⊎◌,
}
use property_platform_backen.Hash.{
  Platform, is_digit, hex_value, hex_byte, cons_byte, from_hex, strip_prefix, verify_hmac_signature,
}

abbrev pub IsLowerDigit : ℕ → Type 0
IsLowerDigit c = ((b'0' ≤ c) × (c ≤ b'9')) ⊎ ((b'a' ≤ c) × (c ≤ b'f'))

-- A text of whole bytes in lower-case hexadecimal, as `digest('hex')` returns.
abbrev pub IsLowerHex : Text → Type 0
IsLowerHex [] = Unit
IsLowerHex (a ∷ []) = ⊥
IsLowerHex (a ∷ b ∷ t) = IsLowerDigit a × IsLowerDigit b × IsLowerHex t

pub lower_hex : ℕ → ℕ
lower_hex c = if leb b'A' c && leb c b'F' then c + 32 else c

hex_value-injective :
    (c a x : ℕ) → hex_value c ≡ some x → hex_value a ≡ some x → IsLowerDigit a → lower_hex c ≡ a
unfolding hex_value is_digit lower_hex
hex_value-injective c a x h k l = ground arith

hex_value-lt : (c x : ℕ) → hex_value c ≡ some x → x < 16
unfolding hex_value is_digit
hex_value-lt c x h = ground arith

hex_value_of_lower : (c : ℕ) → IsLowerDigit c → (x : ℕ) × (hex_value c ≡ some x)
unfolding hex_value is_digit
hex_value_of_lower c (inl h) = (c - b'0', ground arith)
hex_value_of_lower c (inr h) = (c - b'a' + 10, ground arith)

-- What begins with the digits of one byte, in either case.
pair-injective :
    (a b c d x y : ℕ)
    → IsLowerDigit a
    → IsLowerDigit b
    → hex_value a ≡ some x
    → hex_value b ≡ some y
    → hex_byte (hex_value c) (hex_value d) ≡ some (x * 16 + y)
    → (lower_hex c ≡ a) × (lower_hex d ≡ b)
unfolding hex_byte
pair-injective a b c d x y la lb ha hb h = elim (Option-cases (hex_value c)) [
  | inl e ↦ cc (ap (λ o. hex_byte o (hex_value d)) e)
  | inr (x', e) ↦ elim (Option-cases (hex_value d)) [
    | inl e' ↦ ground arith
    | inr (y', e') ↦
        let same : x' * 16 + y' ≡ x * 16 + y = ground arith in
        let p = hex_value-lt d y' e' in
        let q = hex_value-lt b y hb in
        let ex : x' ≡ x = omega arith in
        let ey : y' ≡ y = omega arith in
        (
          hex_value-injective c a x (e ∙ ap some ex) ha la,
          hex_value-injective d b y (e' ∙ ap some ey) hb lb,
        )
  ]
]

cons_byte-inv :
    (o : Option ℕ) (r bytes : List ℕ) (b : ℕ)
    → cons_byte o r ≡ b ∷ bytes
    → (o ≡ some b) × (r ≡ bytes)
unfolding cons_byte
cons_byte-inv none r bytes b h = cc
cons_byte-inv (some c) r bytes b h = ground arith

-- The bytes of a text of lower-case hexadecimal, one pair at a time.
from_hex_of_lower :
    (a b : ℕ) (t : Text)
    → IsLowerDigit a
    → IsLowerDigit b
    → (x : ℕ) × (y : ℕ) × (hex_value a ≡ some x)
      × (hex_value b ≡ some y)
      × (from_hex (a ∷ b ∷ t) ≡ (x * 16 + y) ∷ from_hex t)
unfolding from_hex cons_byte hex_byte
from_hex_of_lower a b t la lb =
    let (x, ha) = hex_value_of_lower a la in
    let (y, hb) = hex_value_of_lower b lb in (x, y, ha, hb, rw (ha, hb))

-- `s` begins with `t`, up to the case of its letters, and no byte follows.
abbrev pub Spells : Text → Text → Type 0
Spells t s = (map lower_hex (take (length t) s) ≡ t) × (from_hex (drop (length t) s) ≡ [])

Spells-of_from_hex : (t s : Text) → IsLowerHex t → from_hex s ≡ from_hex t → Spells t s
unfolding from_hex
Spells-of_from_hex [] s h e = (refl, e)
Spells-of_from_hex (a ∷ []) s h e = elim h [ ]
Spells-of_from_hex (a ∷ b ∷ t) [] (la, lb, h) e = cc ((from_hex_of_lower a b t la lb).4)
Spells-of_from_hex (a ∷ b ∷ t) (c ∷ []) (la, lb, h) e = cc ((from_hex_of_lower a b t la lb).4)
Spells-of_from_hex (a ∷ b ∷ t) (c ∷ d ∷ s) (la, lb, h) e =
    let (x, y, ha, hb, bytes) = from_hex_of_lower a b t la lb in
    let (pair, later) =
      cons_byte-inv (hex_byte (hex_value c) (hex_value d)) (from_hex s) (from_hex t) (x * 16 + y)
        (e ∙ bytes) in
    let (ec, ed) = pair-injective a b c d x y la lb ha hb pair in
    let (rest, none_left) = Spells-of_from_hex t s h later in (cc, none_left)

hex_value-lower_hex : (c : ℕ) → hex_value (lower_hex c) ≡ hex_value c
unfolding hex_value is_digit lower_hex
hex_value-lower_hex c = ground arith

from_hex_of_Spells : (t s : Text) → IsLowerHex t → Spells t s → from_hex s ≡ from_hex t
unfolding from_hex
from_hex_of_Spells [] s h (begins, ends) = ends
from_hex_of_Spells (a ∷ []) s h e = elim h [ ]
from_hex_of_Spells (a ∷ b ∷ t) [] h (begins, ends) = cc
from_hex_of_Spells (a ∷ b ∷ t) (c ∷ []) h (begins, ends) = cc
from_hex_of_Spells (a ∷ b ∷ t) (c ∷ d ∷ s) (la, lb, h) (begins, ends) =
    cc (hex_value-lower_hex c, hex_value-lower_hex d, from_hex_of_Spells t s h ((cc), ends))

verify_hmac_signature-bytes :
    (platform : Platform) (payload secret signature : Text)
    → (verify_hmac_signature platform payload secret signature ≡ true) ↔ (
        from_hex (strip_prefix (codes "sha256=") signature)
        ≡ from_hex (platform.hmac_sha256_hex secret payload))
unfolding verify_hmac_signature
verify_hmac_signature-bytes platform payload secret signature =
    let expected = from_hex (platform.hmac_sha256_hex secret payload) in
    let given = from_hex (strip_prefix (codes "sha256=") signature) in
    ground (arith, text_eq_iff expected given, λ (p : given ≡ expected). ap length p)

-- If the HMAC is lower-case hexadecimal, a signature is accepted exactly when, without a prefix
-- "sha256=", it begins with the HMAC up to the case of its letters, and what follows does not
-- begin with a further byte.
pub verify_hmac_signature_iff :
    (platform : Platform) (payload secret signature : Text)
    → IsLowerHex (platform.hmac_sha256_hex secret payload)
    → (verify_hmac_signature platform payload secret signature ≡ true)
      ↔ Spells (platform.hmac_sha256_hex secret payload) (strip_prefix (codes "sha256=") signature)
verify_hmac_signature_iff platform payload secret signature h =
    let (to, from) = verify_hmac_signature-bytes platform payload secret signature in
    (λ e. Spells-of_from_hex _ _ h (to e), λ s. from (from_hex_of_Spells _ _ h s))
