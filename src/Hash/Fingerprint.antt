-- ===== src/Hash/Fingerprint.antt =====
-- Which enquiries have the same fingerprint.
use property_platform_backen.Prelude.{
  ℕ, ◌≡◌, ◌≢◌, ◌↔◌, ap, sym, ◌∙◌, Text, [], ◌∷◌, ◌++◌, decimal, All, arith,
}
use property_platform_backen.Hash.{
  Platform, FingerprintInput, is_digit, digits_of, or_empty, trim, collapse, join, normal_email,
  normal_message, normalized, fingerprint_enquiry,
}
use property_platform_backen.Hash.Words.{words, collapse-trim, words-collapse}
use property_platform_backen.Hash.Decimal.{decimal-injective, decimal-ne}

-- `toLowerCase` maps no white space to other units and no other units to white space, so that a
-- text that was trimmed stays trimmed.
pub record KeepsTrimmed (platform : Platform) : Type 0 where
  pub stays_trimmed :
      (s : Text) → trim (platform.to_lower_case (trim s)) ≡ platform.to_lower_case (trim s)

abbrev pub NoBar : Text → Type 0
NoBar = All (λ c. c ≢ b'|')

-- The first bar divides a text in one way.
split_unique :
    (s s' t t' : Text) → NoBar s → NoBar s' → s ++ b'|' ∷ t ≡ s' ++ b'|' ∷ t' → (s ≡ s') × (t ≡ t')
split_unique [] [] t t' h h' e = ground arith
split_unique [] (c ∷ s') t t' h h' e = ground arith
split_unique (c ∷ s) [] t t' h h' e = ground arith
split_unique (c ∷ s) (d ∷ s') t t' h h' e = ground (arith, split_unique s s' t t')

digits_of-NoBar : (s : Text) → NoBar (digits_of s)
unfolding digits_of is_digit
digits_of-NoBar [] = tt
digits_of-NoBar (c ∷ s) = ground (arith, digits_of-NoBar s)

decimal-NoBar : (n : ℕ) → NoBar (decimal n)
decimal-NoBar n = decimal-ne b'|' n (omega arith)

module _ (platform : Platform) where
  open platform use {to_lower_case, sha256_hex}

  -- "The same enquiry": the same address in lower case, phone digits and property, and the same
  -- words of the message in lower case.
  pub record SameIntent (a b : FingerprintInput) : Type 0 where
    pub email : to_lower_case (trim a.email) ≡ to_lower_case (trim b.email)
    pub phone : digits_of (or_empty a.phone) ≡ digits_of (or_empty b.phone)
    pub property : a.property_id ≡ b.property_id
    pub message : words (to_lower_case (trim a.message)) ≡ words (to_lower_case (trim b.message))

  module _ (keeps : KeepsTrimmed platform) where
    normal_message-eq :
        (a : FingerprintInput)
        → normal_message platform a ≡ join b' ' (words (to_lower_case (trim a.message)))
    unfolding normal_message
    normal_message-eq a =
        ap collapse (sym (keeps.stays_trimmed a.message))
        ∙ collapse-trim (to_lower_case (trim a.message))

    words-normal_message :
        (a : FingerprintInput)
        → words (normal_message platform a) ≡ words (to_lower_case (trim a.message))
    unfolding normal_message
    words-normal_message a = words-collapse (to_lower_case (trim a.message))

    normalized_of_SameIntent :
        (a b : FingerprintInput) → SameIntent a b → normalized platform a ≡ normalized platform b
    unfolding normalized normal_email
    normalized_of_SameIntent a b h = cc (
      h.email,
      h.phone,
      h.property,
      normal_message-eq a,
      normal_message-eq b,
      ap (join b' ') h.message,
    )

    SameIntent-of_normalized :
        (a b : FingerprintInput)
        → NoBar (normal_email platform a)
        → NoBar (normal_email platform b)
        → normalized platform a ≡ normalized platform b
        → SameIntent a b
    unfolding normalized join normal_email
    SameIntent-of_normalized a b ha hb e =
        let (email, e₁) = split_unique _ _ _ _ ha hb e in
        let (phone, e₂) =
          split_unique _ _ _ _ (digits_of-NoBar (or_empty a.phone))
            (digits_of-NoBar (or_empty b.phone)) e₁ in
        let (property, message) =
          split_unique _ _ _ _ (decimal-NoBar a.property_id) (decimal-NoBar b.property_id) e₂ in
        record {
          email = email;
          phone = phone;
          property = decimal-injective a.property_id b.property_id property;
          message = sym (words-normal_message a) ∙ ap words message ∙ words-normal_message b;
        }

    -- Where lower-casing keeps a trimmed text trimmed: two enquiries whose addresses, normalised,
    -- hold no bar, and on whose normalised texts the hash has no collision, have one fingerprint
    -- exactly when they are the same enquiry.
    pub fingerprint_enquiry_iff :
        (a b : FingerprintInput)
        → NoBar (normal_email platform a)
        → NoBar (normal_email platform b)
        → (sha256_hex (normalized platform a) ≡ sha256_hex (normalized platform b)
            → normalized platform a ≡ normalized platform b)
        → (fingerprint_enquiry platform a ≡ fingerprint_enquiry platform b) ↔ SameIntent a b
    unfolding fingerprint_enquiry
    fingerprint_enquiry_iff a b ha hb no_collision = (
      λ e. SameIntent-of_normalized a b ha hb (no_collision e),
      λ h. ap sha256_hex (normalized_of_SameIntent a b h),
    )
