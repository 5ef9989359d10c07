-- ===== src/Migrate/Seeds.antt =====
-- The seed rows, in a database that is new or has had them before.
use property_platform_backen.Prelude.{
  ℕ, ◌+◌, ◌≡◌, ◌≢◌, refl, sym, ◌∙◌, Text, text_eq, text_eq_iff, true, false, List, [], ◌∷◌, any,
  All, Bool-cases, inl, inr, arith,
}
use property_platform_backen.Database.{Property}
use property_platform_backen.Migrate.{Seed, retitle, upsert, upsert_all}

-- Each row with the slug has the title.
abbrev pub AllTitled : Seed → List Property → Type 0
AllTitled s = All (λ p. p.slug ≡ s.slug → p.title ≡ s.title)

-- There is a row with the slug, and each such row has the title.
pub record IsSeeded (s : Seed) (ps : List Property) : Type 0 where
  pub present : any (λ p. text_eq p.slug s.slug) ps ≡ true
  pub titled : AllTitled s ps

-- The seeds have different slugs.
abbrev pub HaveDistinctSlugs : List Seed → Type 0
HaveDistinctSlugs [] = Unit
HaveDistinctSlugs (s ∷ ss) = All (λ o. o.slug ≢ s.slug) ss × HaveDistinctSlugs ss

retitle_same : (s : Seed) (ps : List Property) → AllTitled s ps → retitle s ps ≡ ps
unfolding retitle
retitle_same s [] h = refl
retitle_same s (p ∷ ps) h = elim (Bool-cases (text_eq p.slug s.slug)) [
  | inl same ↦ rw (same, retitle_same s ps h.1, h.0 ((text_eq_iff p.slug s.slug).0 same))
  | inr other ↦ rw (other, retitle_same s ps h.1)
]

AllTitled-retitle : (s : Seed) (ps : List Property) → AllTitled s (retitle s ps)
unfolding retitle
AllTitled-retitle s [] = tt
AllTitled-retitle s (p ∷ ps) = elim (Bool-cases (text_eq p.slug s.slug)) [
  | inl same ↦ rw same ((λ h. refl), AllTitled-retitle s ps)
  | inr other ↦ rw other ((λ h. ground (arith, text_eq_iff p.slug s.slug)), AllTitled-retitle s ps)
]

any-retitle :
    (s : Seed) (slug : Text) (ps : List Property)
    → any (λ p. text_eq p.slug slug) (retitle s ps) ≡ any (λ p. text_eq p.slug slug) ps
unfolding retitle
any-retitle s slug [] = refl
any-retitle s slug (p ∷ ps) = elim (Bool-cases (text_eq p.slug s.slug)) [
  | inl same ↦ rw (same, any-retitle s slug ps)
  | inr other ↦ rw (other, any-retitle s slug ps)
]

AllTitled-other :
    (s o : Seed) (ps : List Property)
    → o.slug ≢ s.slug
    → AllTitled s ps
    → AllTitled s (retitle o ps)
unfolding retitle
AllTitled-other s o [] ne h = tt
AllTitled-other s o (p ∷ ps) ne h = elim (Bool-cases (text_eq p.slug o.slug)) [
  | inl same ↦ rw same (
    (λ e. absurd (ne (sym ((text_eq_iff p.slug o.slug).0 same) ∙ e))),
    AllTitled-other s o ps ne h.1,
  )
  | inr other ↦ rw other (h.0, AllTitled-other s o ps ne h.1)
]

none_titled :
    (s : Seed) (ps : List Property) → any (λ p. text_eq p.slug s.slug) ps ≡ false → AllTitled s ps
none_titled s [] h = tt
none_titled s (p ∷ ps) h =
    (λ e. ground (arith, text_eq_iff p.slug s.slug), none_titled s ps (ground arith))

upsert-IsSeeded : (id : ℕ) (s : Seed) (ps : List Property) → IsSeeded s (upsert id s ps)
unfolding upsert
upsert-IsSeeded id s ps = elim (Bool-cases (any (λ p. text_eq p.slug s.slug) ps)) [
  | inl here ↦
      rw here (record { present = any-retitle s s.slug ps ∙ here; titled = AllTitled-retitle s ps })
  | inr gone ↦ rw gone (record {
    present = rw ((text_eq_iff s.slug s.slug).1 refl) refl;
    titled = ((λ e. refl), none_titled s ps gone);
  })
]

other-IsSeeded :
    (id : ℕ) (s o : Seed) (ps : List Property)
    → o.slug ≢ s.slug
    → IsSeeded s ps
    → IsSeeded s (upsert id o ps)
unfolding upsert
other-IsSeeded id s o ps ne h = elim (Bool-cases (any (λ p. text_eq p.slug o.slug) ps)) [
  | inl here ↦ rw here (record {
    present = any-retitle o s.slug ps ∙ h.present;
    titled = AllTitled-other s o ps ne h.titled;
  })
  | inr gone ↦
      rw gone (record {
        present = rw h.present (ground arith);
        titled = ((λ e. absurd (ne e)), h.titled);
      })
]

rest-IsSeeded :
    (id : ℕ) (s : Seed) (ss : List Seed) (ps : List Property)
    → All (λ o. o.slug ≢ s.slug) ss
    → IsSeeded s ps
    → IsSeeded s (upsert_all id ss ps)
unfolding upsert_all
rest-IsSeeded id s [] ps ne h = h
rest-IsSeeded id s (o ∷ ss) ps ne h =
    rest-IsSeeded (id + 1) s ss (upsert id o ps) ne.1 (other-IsSeeded id s o ps ne.0 h)

upsert_all-IsSeeded :
    (id : ℕ) (ss : List Seed) (ps : List Property)
    → HaveDistinctSlugs ss
    → All (λ s. IsSeeded s (upsert_all id ss ps)) ss
unfolding upsert_all
upsert_all-IsSeeded id [] ps h = tt
upsert_all-IsSeeded id (s ∷ ss) ps h = (
  rest-IsSeeded (id + 1) s ss (upsert id s ps) h.0 (upsert-IsSeeded id s ps),
  upsert_all-IsSeeded (id + 1) ss (upsert id s ps) h.1,
)

upsert_same : (id : ℕ) (s : Seed) (ps : List Property) → IsSeeded s ps → upsert id s ps ≡ ps
unfolding upsert
upsert_same id s ps h = rw h.present (retitle_same s ps h.titled)

upsert_all_same :
    (id : ℕ) (ss : List Seed) (ps : List Property)
    → All (λ s. IsSeeded s ps) ss
    → upsert_all id ss ps ≡ ps
unfolding upsert_all
upsert_all_same id [] ps h = refl
upsert_all_same id (s ∷ ss) ps h = rw (upsert_same id s ps h.0) (upsert_all_same (id + 1) ss ps h.1)

-- Seeds of different slugs all have their rows afterwards, and a second run changes no row.
pub seeds_twice :
    (id later : ℕ) (ss : List Seed) (ps : List Property)
    → HaveDistinctSlugs ss
    → All (λ s. IsSeeded s (upsert_all id ss ps)) ss
      × (upsert_all later ss (upsert_all id ss ps) ≡ upsert_all id ss ps)
seeds_twice id later ss ps h =
    let seeded = upsert_all-IsSeeded id ss ps h in
    (seeded, upsert_all_same later ss (upsert_all id ss ps) seeded)
