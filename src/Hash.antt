-- ===== src/Hash.antt =====
-- src/utils/hash.ts: the fingerprint of an enquiry and the check of a webhook's signature.
-- A `Platform` is the code of Node.js that both call.
pub mod Decimal
pub mod Words
pub mod Trim
pub mod Fingerprint
pub mod Signature
mod Tests
use property_platform_backen.Prelude.{
  ℕ, ◌+◌, ◌-◌, ◌*◌, Text, codes, text_eq, decimal, length, Bool, true, false, not, ◌&&◌, ◌||◌,
  Option, none, some, List, [], ◌∷◌, ◌++◌, select, leb, ◌==◌, if◌then◌else◌,
}

pub record Platform : Type 0 where
  -- `String.prototype.toLowerCase`
  pub to_lower_case : Text → Text
  -- `crypto.createHash('sha256').update(t).digest('hex')`
  pub sha256_hex : Text → Text
  -- `crypto.createHmac('sha256', secret).update(payload).digest('hex')`
  pub hmac_sha256_hex : Text → Text → Text

-- What `trim` removes and `\s` matches.
unfoldable pub is_space : ℕ → Bool
is_space c =
    leb 0x09 c && leb c 0x0d
    || c == 0x20
    || c == 0xa0
    || c == 0x1680
    || leb 0x2000 c && leb c 0x200a
    || c == 0x2028
    || c == 0x2029
    || c == 0x202f
    || c == 0x205f
    || c == 0x3000
    || c == 0xfeff

unfoldable pub is_digit : ℕ → Bool
is_digit c = leb b'0' c && leb c b'9'

unfoldable pub trim_start : Text → Text
trim_start [] = []
trim_start (c ∷ s) = let rest = trim_start s in if is_space c then rest else c ∷ s

-- A space with nothing but spaces behind it is dropped.
unfoldable pub cons_unless_blank : ℕ → Text → Text
cons_unless_blank c [] = if is_space c then [] else c ∷ []
cons_unless_blank c (d ∷ s) = c ∷ d ∷ s

unfoldable pub trim_end : Text → Text
trim_end [] = []
trim_end (c ∷ s) = cons_unless_blank c (trim_end s)

unfoldable pub trim : Text → Text
trim s = trim_end (trim_start s)

-- `.replace(/\s+/g, ' ')`; the flag says that the last unit was a space.
unfoldable pub collapse_from : Bool → Text → Text
collapse_from in_run [] = []
collapse_from in_run (c ∷ s) =
    let after_space = collapse_from true s in
    let after_other = collapse_from false s in
    if is_space c then if in_run then after_space else b' ' ∷ after_space else c ∷ after_other

unfoldable pub collapse : Text → Text
collapse = collapse_from false

-- `.replace(/\D/g, '')`
unfoldable pub digits_of : Text → Text
digits_of = select is_digit

pub record FingerprintInput : Type 0 where
  pub email : Text
  pub phone : Option Text
  pub property_id : ℕ
  pub message : Text

-- `input.phone || ''`
abbrev pub or_empty : Option Text → Text
or_empty none = []
or_empty (some t) = t

-- `parts.join(sep)`, for a separator of one unit.
unfoldable pub join : ℕ → List Text → Text
join sep [] = []
join sep (part ∷ []) = part
join sep (part ∷ next ∷ parts) = part ++ sep ∷ join sep (next ∷ parts)

module _ (platform : Platform) where
  open platform use {to_lower_case, sha256_hex}

  unfoldable pub normal_email : FingerprintInput → Text
  normal_email input = to_lower_case (trim input.email)

  unfoldable pub normal_message : FingerprintInput → Text
  normal_message input = collapse (to_lower_case (trim input.message))

  unfoldable pub normalized : FingerprintInput → Text
  normalized input = join b'|' (
      normal_email input
      ∷ digits_of (or_empty input.phone)
      ∷ decimal input.property_id
      ∷ normal_message input
      ∷ [])

  unfoldable pub fingerprint_enquiry : FingerprintInput → Text
  fingerprint_enquiry input = sha256_hex (normalized input)

-- The value of a hexadecimal digit, in either case.
unfoldable pub hex_value : ℕ → Option ℕ
hex_value c =
    if is_digit c
    then some (c - b'0')
    else if leb b'a' c && leb c b'f'
    then some (c - b'a' + 10)
    else if leb b'A' c && leb c b'F'
    then some (c - b'A' + 10)
    else none

unfoldable pub hex_byte : Option ℕ → Option ℕ → Option ℕ
hex_byte (some x) (some y) = some (x * 16 + y)
hex_byte _ _ = none

unfoldable pub cons_byte : Option ℕ → List ℕ → List ℕ
cons_byte none bytes = []
cons_byte (some b) bytes = b ∷ bytes

-- `Buffer.from(t, 'hex')`: it stops at the first pair that is no byte, and drops a last odd digit.
unfoldable pub from_hex : Text → List ℕ
from_hex [] = []
from_hex (a ∷ []) = []
from_hex (a ∷ b ∷ t) = cons_byte (hex_byte (hex_value a) (hex_value b)) (from_hex t)

-- `.replace(/^p/, '')`: the text behind a prefix, or the text itself.
unfoldable pub behind : Text → Text → Option Text
behind [] t = some t
behind (c ∷ p) [] = none
behind (c ∷ p) (d ∷ t) = if c == d then behind p t else none

unfoldable pub strip_prefix : Text → Text → Text
strip_prefix p t = elim (behind p t) [ none ↦ t | some rest ↦ rest ]

-- `timingSafeEqual` compares two buffers of one length.
unfoldable pub verify_hmac_signature : Platform → Text → Text → Text → Bool
verify_hmac_signature platform payload secret signature =
    let expected = from_hex (platform.hmac_sha256_hex secret payload) in
    let given = from_hex (strip_prefix (codes "sha256=") signature) in
    if not (length expected == length given) then false else text_eq expected given
