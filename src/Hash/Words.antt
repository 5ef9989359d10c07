-- ===== src/Hash/Words.antt =====
-- The words of a text, and what `trim` and `collapse` leave of it.
use property_platform_backen.Prelude.{
  ℕ, ◌≡◌, refl, ap, sym, ◌∙◌, inl, inr, Text, Bool, true, false, not, if◌then◌else◌, List, [], ◌∷◌,
  Bool-cases, arith, ◌⊎◌, ◌≢◌, ◌≢◌,
}
use property_platform_backen.Hash.{
  is_space, trim_start, cons_unless_blank, trim_end, trim, collapse_from, collapse, join,
}

-- One more unit of a word that has begun, or of a new one.
abbrev pub grow : ℕ → Bool → List Text → List Text
grow c false ws = (c ∷ []) ∷ ws
grow c true [] = (c ∷ []) ∷ []
grow c true (w ∷ ws) = (c ∷ w) ∷ ws

-- Whether the text begins with a unit that is no space.
abbrev pub begins : Text → Bool
begins [] = false
begins (c ∷ s) = not (is_space c)

-- The maximal runs of units that are no spaces.
pub words : Text → List Text
words [] = []
words (c ∷ s) = let rest = words s in if is_space c then rest else grow c (begins s) rest

words-trim_start : (s : Text) → words (trim_start s) ≡ words s
unfolding words trim_start
words-trim_start [] = refl
words-trim_start (c ∷ s) = ground (arith, words-trim_start s)

words-cons_unless_blank : (c : ℕ) (s : Text) → words (cons_unless_blank c s) ≡ words (c ∷ s)
unfolding words cons_unless_blank
words-cons_unless_blank c [] = ground arith
words-cons_unless_blank c (d ∷ s) = refl

begins-cons_unless_blank : (c : ℕ) (s : Text) → begins (cons_unless_blank c s) ≡ not (is_space c)
unfolding cons_unless_blank
begins-cons_unless_blank c [] = ground arith
begins-cons_unless_blank c (d ∷ s) = refl

pub begins-trim_end : (s : Text) → begins (trim_end s) ≡ begins s
unfolding trim_end
begins-trim_end [] = refl
begins-trim_end (c ∷ s) = begins-cons_unless_blank c (trim_end s)

words-trim_end : (s : Text) → words (trim_end s) ≡ words s
unfolding words trim_end
words-trim_end [] = refl
words-trim_end (c ∷ s) =
    words-cons_unless_blank c (trim_end s) ∙ rw (words-trim_end s, begins-trim_end s)

-- `trim` changes no word.
words-trim : (s : Text) → words (trim s) ≡ words s
unfolding trim
words-trim s = words-trim_end (trim_start s) ∙ words-trim_start s

grow-ne-nil : (c : ℕ) (b : Bool) (ws : List Text) → grow c b ws ≢ []
grow-ne-nil c true [] e = cc
grow-ne-nil c true (w ∷ ws) e = cc
grow-ne-nil c false ws e = cc

trim_end_of_blank : (s : Text) → words s ≡ [] → trim_end s ≡ []
unfolding words trim_end cons_unless_blank
trim_end_of_blank [] h = refl
trim_end_of_blank (c ∷ s) h = elim (Bool-cases (is_space c)) [
  | inl space ↦ rw (trim_end_of_blank s (rw space at h), space)
  | inr word ↦ absurd (grow-ne-nil c (begins s) (words s) (rw word at h))
]

-- The words that follow a word, with the space before them.
abbrev after_word : Bool → List Text → Text
after_word true ws = join b' ' ws
after_word false [] = []
after_word false (w ∷ ws) = b' ' ∷ join b' ' (w ∷ ws)

join-grow : (c : ℕ) (b : Bool) (ws : List Text) → join b' ' (grow c b ws) ≡ c ∷ after_word b ws
unfolding join
join-grow c true [] = refl
join-grow c true (w ∷ []) = refl
join-grow c true (w ∷ v ∷ ws) = refl
join-grow c false [] = refl
join-grow c false (w ∷ ws) = refl

-- `collapse_from` behind a space, and behind a word.
abbrev Collapsed : Text → Type 0
Collapsed s =
    (collapse_from true (trim_end s) ≡ join b' ' (words s))
    × (collapse_from false (trim_end s) ≡ after_word (begins s) (words s))

collapse_blank : (c : ℕ) (s : Text) → is_space c ≡ true → words s ≡ [] → Collapsed (c ∷ s)
unfolding words trim_end collapse_from join cons_unless_blank
collapse_blank c s space h =
    let t = trim_end_of_blank s h in (rw (t, space) (rw h), rw (t, space) (rw h))

collapse_cons :
    (c : ℕ) (s : Text) (t w : Text) (ws : List Text)
    → is_space c ≡ true
    → words s ≡ w ∷ ws
    → trim_end s ≡ t
    → Collapsed s
    → Collapsed (c ∷ s)
unfolding words trim_end collapse_from join cons_unless_blank
collapse_cons c s [] w ws space h e ih = cc (words-trim_end s, ap words e)
collapse_cons c s (d ∷ r) w ws space h e ih =
    let same : collapse_from true (d ∷ r) ≡ join b' ' (words s) = rw e at ih.0 in
    (rw (e, space) same, rw (e, space, h) (ap (λ r. b' ' ∷ r) (same ∙ ap (join b' ') h)))

-- Behind a unit that is no space, `collapse_from` is in the same state whatever came before.
collapse_from-word :
    (b : Bool) (c : ℕ) (t : Text)
    → is_space c ≡ false
    → collapse_from b (cons_unless_blank c t) ≡ c ∷ collapse_from false t
unfolding collapse_from cons_unless_blank
collapse_from-word b c [] word = ground arith
collapse_from-word b c (d ∷ t) word = ground arith

collapse_word : (c : ℕ) (s : Text) → is_space c ≡ false → Collapsed s → Collapsed (c ∷ s)
unfolding words trim_end
collapse_word c s word ih =
    let joined = ap (λ r. c ∷ r) ih.1 ∙ sym (join-grow c (begins s) (words s)) in
    (
      rw (collapse_from-word true c (trim_end s) word, word) joined,
      rw (collapse_from-word false c (trim_end s) word, word) joined,
    )

List-cases : (ws : List Text) → (ws ≡ []) ⊎ ((w : Text) × (vs : List Text) × (ws ≡ w ∷ vs))
List-cases [] = inl refl
List-cases (w ∷ vs) = inr (w, vs, refl)

collapse_step : (s : Text) → Collapsed s
unfolding words trim_end collapse_from join
collapse_step [] = (refl, refl)
collapse_step (c ∷ s) =
    let ih = collapse_step s in
    elim (Bool-cases (is_space c)) [
      | inl space ↦ elim (List-cases (words s)) [
        | inl none_left ↦ collapse_blank c s space none_left
        | inr (w, vs, e) ↦ collapse_cons c s (trim_end s) w vs space e refl ih
      ]
      | inr word ↦ collapse_word c s word ih
    ]

-- A text without a first word that is not blank begins with its first word.
pub trim_start-begins : (s : Text) → (trim_start s ≡ []) ⊎ (begins (trim_start s) ≡ true)
unfolding trim_start
trim_start-begins [] = inl refl
trim_start-begins (c ∷ s) = ground (arith, trim_start-begins s)

-- What is left of a trimmed text: its words, one space apart.
pub collapse-trim : (s : Text) → collapse (trim s) ≡ join b' ' (words s)
unfolding collapse trim
collapse-trim s = rw (← words-trim_start s) (elim (trim_start-begins s) [
  | inl blank ↦ rw blank (unfold words trim_end collapse_from join in refl)
  | inr starts ↦ rw starts at ((collapse_step (trim_start s)).1)
])

begins-collapse : (s : Text) → begins (collapse_from false s) ≡ begins s
unfolding collapse_from is_space
begins-collapse [] = refl
begins-collapse (c ∷ s) = ground arith

words-space : (b : Bool) (s : Text) → words (if b then s else b' ' ∷ s) ≡ words s
unfolding words is_space
words-space true s = refl
words-space false s = refl

words-collapse_from : (b : Bool) (s : Text) → words (collapse_from b s) ≡ words s
unfolding collapse_from words
words-collapse_from b [] = refl
words-collapse_from b (c ∷ s) = elim (Bool-cases (is_space c)) [
  | inl space ↦ rw space (words-space b (collapse_from true s) ∙ words-collapse_from true s)
  | inr word ↦ rw (word, word) (cc (begins-collapse s, words-collapse_from false s))
]

-- Closing up the spaces changes no word.
pub words-collapse : (s : Text) → words (collapse s) ≡ words s
unfolding collapse
words-collapse s = words-collapse_from false s
