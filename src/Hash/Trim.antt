-- ===== src/Hash/Trim.antt =====
-- Trimming a text that is trimmed, or changed unit by unit.
use property_platform_backen.Prelude.{
  ℕ, ◌≡◌, refl, ap, ◌∙◌, inl, inr, Text, true, [], ◌∷◌, map, Bool-cases, arith,
}
use property_platform_backen.Hash.{is_space, trim_start, cons_unless_blank, trim_end, trim}
use property_platform_backen.Hash.Words.{begins, begins-trim_end, trim_start-begins}

trim_start_of_begins : (s : Text) → begins s ≡ true → trim_start s ≡ s
unfolding trim_start
trim_start_of_begins [] h = refl
trim_start_of_begins (c ∷ s) h = ground arith

trim_end-cons :
    (c : ℕ) (s : Text) → trim_end (cons_unless_blank c s) ≡ cons_unless_blank c (trim_end s)
unfolding trim_end cons_unless_blank
trim_end-cons c [] = ground arith
trim_end-cons c (d ∷ s) = refl

trim_end-twice : (s : Text) → trim_end (trim_end s) ≡ trim_end s
unfolding trim_end
trim_end-twice [] = refl
trim_end-twice (c ∷ s) = trim_end-cons c (trim_end s) ∙ ap (cons_unless_blank c) (trim_end-twice s)

pub trim-twice : (s : Text) → trim (trim s) ≡ trim s
unfolding trim trim_end trim_start
trim-twice s = elim (trim_start-begins s) [
  | inl none_left ↦ rw none_left refl
  | inr word ↦
      rw (trim_start_of_begins (trim_end (trim_start s)) (begins-trim_end (trim_start s) ∙ word))
        (trim_end-twice (trim_start s))
]

-- A change of the units that keeps spaces apart from other units.
module _ (f : ℕ → ℕ) (keeps : (c : ℕ) → is_space (f c) ≡ is_space c) where
  trim_start-map : (s : Text) → trim_start (map f s) ≡ map f (trim_start s)
  unfolding trim_start
  trim_start-map [] = refl
  trim_start-map (c ∷ s) = rw (keeps c) (elim (Bool-cases (is_space c)) [
    | inl space ↦ rw space (trim_start-map s)
    | inr word ↦ rw word refl
  ])

  cons_unless_blank-map :
      (c : ℕ) (s : Text) → cons_unless_blank (f c) (map f s) ≡ map f (cons_unless_blank c s)
  unfolding cons_unless_blank
  cons_unless_blank-map c [] =
      rw (keeps c)
        (elim (Bool-cases (is_space c)) [ inl space ↦ rw space refl | inr word ↦ rw word refl ])
  cons_unless_blank-map c (d ∷ s) = refl

  trim_end-map : (s : Text) → trim_end (map f s) ≡ map f (trim_end s)
  unfolding trim_end
  trim_end-map [] = refl
  trim_end-map (c ∷ s) = rw (trim_end-map s) (cons_unless_blank-map c (trim_end s))

  pub trim-map : (s : Text) → trim (map f s) ≡ map f (trim s)
  unfolding trim
  trim-map s = rw (trim_start-map s) (trim_end-map (trim_start s))
