-- ===== src/Validators/Checks.antt =====
-- What the value of a successful check is.
use property_platform_backen.Prelude.{
  ℕ, ◌≡◌, ◌⊎◌, inl, inr, refl, sym, Text, Bool, true, false, Option, none, some, List, [], ◌∷◌,
  ◌++◌,
}
use property_platform_backen.Json.{Json, null, bool, num, str, arr, obj}
use property_platform_backen.Hash.{trim}
use property_platform_backen.Validators.{
  Zod, Issue, too_small, too_big, Number, nan, whole, between, infinite, below_zero, Parsed, good,
  bad, ◌<*>◌, when, number_issues, whole_of, conclude, check_text, check_nullable, check_number,
  check_default_number,
}

pub <*>-eq-good :
    {A B : Type 0} {f : Parsed (A → B)} {p : Parsed A} {b : B}
    → (f <*> p) ≡ good b
    → (g : A → B) × (a : A) × (f ≡ good g) × (p ≡ good a) × (g a ≡ b)
unfolding ◌<*>◌
<*>-eq-good {f = good g} {p = good a} h = (g, a, refl, refl, (cc))
<*>-eq-good {f = good g} {p = bad e} h = cc
<*>-eq-good {f = bad e} {p = good a} h = cc
<*>-eq-good {f = bad e} {p = bad e'} h = cc

pub when-nil : (c : Bool) (issue : Issue) → when c issue ≡ [] → c ≡ false
when-nil true issue h = cc
when-nil false issue h = refl

pub whens-nil :
    (c d : Bool) (issue more : Issue) → when c issue ++ when d more ≡ [] → (c ≡ false) × (d ≡ false)
whens-nil true d issue more h = cc
whens-nil false true issue more h = cc
whens-nil false false issue more h = (refl, refl)

module _ (zod : Zod) (name : Text) where
  pub conclude-eq-good :
      {A : Type 0} (a b : A) (issues : List Issue)
      → conclude zod name a issues ≡ good b
      → (issues ≡ []) × (a ≡ b)
  unfolding conclude
  conclude-eq-good a b [] h = (refl, (cc))
  conclude-eq-good a b (issue ∷ issues) h = cc

  pub check_text-eq-good :
      (issues : Text → List Issue) (v : Option Json) (t : Text)
      → check_text zod name issues v ≡ good t
      → (s : Text) × (v ≡ some (str s)) × (trim s ≡ t) × (issues t ≡ [])
  unfolding check_text conclude
  check_text-eq-good issues none t h = cc
  check_text-eq-good issues (some (str s)) t h =
      let (fine, same) = conclude-eq-good (trim s) t (issues (trim s)) h in
      (s, refl, same, rw same at fine)
  check_text-eq-good issues (some null) t h = cc
  check_text-eq-good issues (some (bool b)) t h = cc
  check_text-eq-good issues (some (num n)) t h = cc
  check_text-eq-good issues (some (arr items)) t h = cc
  check_text-eq-good issues (some (obj fields)) t h = cc

  pub check_nullable-eq-good :
      (issues : Text → List Issue) (v : Option Json) (o : Option Text)
      → check_nullable zod name issues v ≡ good o
      → (o ≡ none) ⊎ ((s : Text) × (o ≡ some (trim s)) × (issues (trim s) ≡ []))
  unfolding check_nullable conclude
  check_nullable-eq-good issues none o h = inl (cc)
  check_nullable-eq-good issues (some null) o h = inl (cc)
  check_nullable-eq-good issues (some (str s)) o h =
      let (fine, same) = conclude-eq-good (some (trim s)) o (issues (trim s)) h in
      inr (s, sym same, fine)
  check_nullable-eq-good issues (some (bool b)) o h = cc
  check_nullable-eq-good issues (some (num n)) o h = cc
  check_nullable-eq-good issues (some (arr items)) o h = cc
  check_nullable-eq-good issues (some (obj fields)) o h = cc

  module _ (low high : Number → Bool) where
    -- A number without issues is whole and within its bounds.
    number_issues-nil :
        (v : Number)
        → number_issues low high v ≡ []
        → (v ≡ whole (whole_of v))
          × (low (whole (whole_of v)) ≡ false)
          × (high (whole (whole_of v)) ≡ false)
    number_issues-nil (whole n) h =
        let (l, r) = whens-nil (low (whole n)) (high (whole n)) too_small too_big h in (refl, l, r)
    number_issues-nil nan h = cc
    number_issues-nil (between n) h = cc
    number_issues-nil infinite h = cc
    number_issues-nil (below_zero b) h = cc

    pub check_number-eq-good :
        (v : Option Json) (n : ℕ)
        → check_number zod name low high v ≡ good n
        → (zod.number_of v ≡ whole n) × (low (whole n) ≡ false) × (high (whole n) ≡ false)
    unfolding check_number
    check_number-eq-good v n h =
        let (fine, same) = conclude-eq-good _ n _ h in
        rw same at (number_issues-nil (zod.number_of v) fine)

    pub check_default_number-eq-good :
        (default : ℕ) (v : Option Json) (n : ℕ)
        → check_default_number zod name low high default v ≡ good n
        → (default ≡ n) ⊎ ((low (whole n) ≡ false) × (high (whole n) ≡ false))
    unfolding check_default_number
    check_default_number-eq-good default none n h = inl (cc)
    check_default_number-eq-good default (some v) n h =
        let (_, l, r) = check_number-eq-good (some v) n h in inr (l, r)
