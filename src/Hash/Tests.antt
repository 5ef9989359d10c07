-- ===== src/Hash/Tests.antt =====
-- Instances of the theorems on fingerprints and signatures, and a run of `trim`.
use property_platform_backen.Prelude.{
  ℕ, ◌+◌, ◌≡◌, ◌↔◌, inl, inr, refl, ap, ◌∙◌, codes, true, some, map, leb, ◌&&◌, if◌then◌else◌,
  Bool-cases, arith,
}
use property_platform_backen.Hash.Trim.{trim-twice, trim-map}
use property_platform_backen.Hash.{
  Platform, FingerprintInput, is_space, trim_start, cons_unless_blank, trim_end, trim, normal_email,
  fingerprint_enquiry, verify_hmac_signature, strip_prefix,
}
use property_platform_backen.Hash.Fingerprint.{
  NoBar, KeepsTrimmed, SameIntent, fingerprint_enquiry_iff,
}
use property_platform_backen.Hash.Signature.{Spells, verify_hmac_signature_iff}
use property_platform_backen.Samples.{plain}

-- The lower-case letter of a Latin capital letter.
lower : ℕ → ℕ
lower c = if leb 0x41 c && leb c 0x5a then c + 32 else c

is_space-lower : (c : ℕ) → is_space (lower c) ≡ is_space c
unfolding lower is_space
is_space-lower c = elim (Bool-cases (leb 0x41 c && leb c 0x5a)) [
  | inl capital ↦ rw capital (ground arith)
  | inr other ↦ rw other refl
]

-- A platform that puts Latin letters into lower case.
abbrev latin : Platform
latin = record plain { to_lower_case = map lower }

latin-KeepsTrimmed : KeepsTrimmed latin
latin-KeepsTrimmed = record {
  stays_trimmed = λ s. trim-map lower is_space-lower (trim s) ∙ ap (map lower) (trim-twice s);
}

abbrev sent : FingerprintInput
sent = record {
  email = codes " A@b ";
  phone = some (codes "5-1");
  property_id = 7;
  message = codes "Hi you";
}

abbrev resent : FingerprintInput
resent = record {
  email = codes "a@b";
  phone = some (codes "51");
  property_id = 7;
  message = codes " hi   you";
}

sent-NoBar : NoBar (normal_email latin sent)
unfolding normal_email trim trim_start trim_end cons_unless_blank is_space lower codes
sent-NoBar = ((λ e. ground arith), ((λ e. ground arith), ((λ e. ground arith), tt)))

resent-NoBar : NoBar (normal_email latin resent)
unfolding normal_email trim trim_start trim_end cons_unless_blank is_space lower codes
resent-NoBar = ((λ e. ground arith), ((λ e. ground arith), ((λ e. ground arith), tt)))

fingerprint_enquiry_iff_example :
    (fingerprint_enquiry latin sent ≡ fingerprint_enquiry latin resent)
    ↔ SameIntent latin sent resent
fingerprint_enquiry_iff_example =
    fingerprint_enquiry_iff latin latin-KeepsTrimmed sent resent sent-NoBar resent-NoBar (λ e. e)

verify_hmac_signature_iff_example :
    (verify_hmac_signature plain (codes "{}") (codes "s") (codes "sha256=0A") ≡ true)
    ↔ Spells (codes "0a") (strip_prefix (codes "sha256=") (codes "sha256=0A"))
unfolding codes
verify_hmac_signature_iff_example =
    verify_hmac_signature_iff plain (codes "{}") (codes "s") (codes "sha256=0A")
      (inl (omega arith, omega arith), inr (omega arith, omega arith), tt)

trim_run : trim (codes "  a b ") ≡ codes "a b"
unfolding trim trim_start trim_end cons_unless_blank is_space codes
trim_run = refl
