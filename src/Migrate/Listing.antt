-- ===== src/Migrate/Listing.antt =====
-- Which files the script picks, and in which order, described without its code.
use mathlib.Core.List.Permᴰ
use mathlib.Core.List.{Permᴰ}
use property_platform_backen.Prelude.{
  ℕ, ◌-◌, ◌<◌, ◌≡◌, refl, sym, ap, ◌∙◌, Text, codes, text_eq, text_eq_iff, length, take, drop,
  take-append-drop, length-append, Bool, true, false, ltb, leb, List, [], ◌∷◌, ◌++◌, select, not,
  All, All-map, Bool-cases, inl, inr, ◌⊎◌, arith,
}
use property_platform_backen.Migrate.{ends_with, text_le, insert_text, sort, sql_files}
use property_platform_backen.Migrate.Order.{text_le_total, text_le_trans}

-- The first text begins the second one, or has the smaller unit where they first differ.
abbrev pub IsBefore : Text → Text → Type 0
IsBefore s t =
    ((rest : Text) × (t ≡ s ++ rest))
    ⊎ ((same : Text) × (a : ℕ) × (b : ℕ) × (u : Text) × (v : Text) × (s ≡ same ++ a ∷ u)
        × (t ≡ same ++ b ∷ v)
        × (a < b))

-- Each text comes before all that follow it.
abbrev pub IsAscending : List Text → Type 0
IsAscending [] = Unit
IsAscending (s ∷ ts) = All (IsBefore s) ts × IsAscending ts

-- The name ends with the suffix of the migrations.
abbrev pub IsSql : Text → Type 0
IsSql name = (stem : Text) × (name ≡ stem ++ codes ".sql")

-- These are the `.sql` files among the names, in ascending order.
pub record IsListing (names files : List Text) : Type 0 where
  pub others : List Text
  pub divided : Permᴰ (files ++ others) names
  pub picked : All IsSql files
  pub left_out : All (λ name. ¬ IsSql name) others
  pub ascending : IsAscending files

IsBefore-cons : (a : ℕ) (s t : Text) → IsBefore s t → IsBefore (a ∷ s) (a ∷ t)
IsBefore-cons a s t (inl (rest, e)) = inl (rest, ap (λ r. a ∷ r) e)
IsBefore-cons a s t (inr (same, c, d, u, v, e, f, less)) =
    inr (a ∷ same, c, d, u, v, ap (λ r. a ∷ r) e, ap (λ r. a ∷ r) f, less)

IsBefore-of_le : (s t : Text) → text_le s t ≡ true → IsBefore s t
unfolding text_le
IsBefore-of_le [] t h = inl (t, refl)
IsBefore-of_le (a ∷ s) [] h = cc
IsBefore-of_le (a ∷ s) (b ∷ t) h = elim (Bool-cases (ltb a b)) [
  | inl less ↦ inr ([], a, b, s, t, refl, refl, ground arith)
  | inr not_less ↦
      let same : a ≡ b = ground arith in
      let later : text_le s t ≡ true = ground arith in
      rw (← same) (IsBefore-cons a s t (IsBefore-of_le s t later))
]

-- Ascending, by the order of the code.
abbrev InOrder : List Text → Type 0
InOrder [] = Unit
InOrder (s ∷ ts) = All (λ t. text_le s t ≡ true) ts × InOrder ts

IsAscending-of_InOrder : (ts : List Text) → InOrder ts → IsAscending ts
IsAscending-of_InOrder [] h = tt
IsAscending-of_InOrder (s ∷ ts) h =
    (All-map ts (λ t e. IsBefore-of_le s t e) h.0, IsAscending-of_InOrder ts h.1)

All-insert_text :
    (P : Text → Type 0) (s : Text) (ts : List Text) → P s → All P ts → All P (insert_text s ts)
unfolding insert_text
All-insert_text P s [] here h = (here, tt)
All-insert_text P s (t ∷ ts) here h = elim (Bool-cases (text_le s t)) [
  | inl before ↦ rw before (here, h)
  | inr behind ↦ rw behind (h.0, All-insert_text P s ts here h.1)
]

insert_text-InOrder : (s : Text) (ts : List Text) → InOrder ts → InOrder (insert_text s ts)
unfolding insert_text
insert_text-InOrder s [] h = (tt, tt)
insert_text-InOrder s (t ∷ ts) h = elim (Bool-cases (text_le s t)) [
  | inl before ↦ rw before ((before, All-map ts (λ u e. text_le_trans s t u before e) h.0), h)
  | inr behind ↦ rw behind (
    All-insert_text (λ u. text_le t u ≡ true) s ts (text_le_total s t behind) h.0,
    insert_text-InOrder s ts h.1,
  )
]

sort-InOrder : (ts : List Text) → InOrder (sort ts)
unfolding sort
sort-InOrder [] = tt
sort-InOrder (t ∷ ts) = insert_text-InOrder t (sort ts) (sort-InOrder ts)

insert_text-perm : (s : Text) (ts : List Text) → Permᴰ (insert_text s ts) (s ∷ ts)
unfolding insert_text
insert_text-perm s [] = Permᴰ.refl (s ∷ [])
insert_text-perm s (t ∷ ts) = elim (Bool-cases (text_le s t)) [
  | inl before ↦ rw before (Permᴰ.refl (s ∷ t ∷ ts))
  | inr behind ↦
      rw behind (Permᴰ.trans (Permᴰ.cons refl (insert_text-perm s ts)) (Permᴰ.swap refl refl))
]

sort-perm : (ts : List Text) → Permᴰ (sort ts) ts
unfolding sort
sort-perm [] = Permᴰ.nil
sort-perm (t ∷ ts) = Permᴰ.trans (insert_text-perm t (sort ts)) (Permᴰ.cons refl (sort-perm ts))

All-sort : (P : Text → Type 0) (ts : List Text) → All P ts → All P (sort ts)
unfolding sort
All-sort P [] h = tt
All-sort P (t ∷ ts) h = All-insert_text P t (sort ts) h.0 (All-sort P ts h.1)

drop-append : (s t : Text) → drop (length s) (s ++ t) ≡ t
drop-append [] t = refl
drop-append (a ∷ s) t = drop-append s t

ends_with-append : (s t : Text) → ends_with (s ++ t) t ≡ true
unfolding ends_with
ends_with-append s t =
    let long : leb (length t) (length (s ++ t)) ≡ true = ground (arith, length-append s t) in
    let cut : length (s ++ t) - length t ≡ length s = omega (arith, length-append s t) in
    rw (long, cut, drop-append s t) ((text_eq_iff t t).1 refl)

suffix_of_ends_with : (s t : Text) → ends_with s t ≡ true → (stem : Text) × (s ≡ stem ++ t)
unfolding ends_with
suffix_of_ends_with s t h =
    let n = length s - length t in
    let equal : text_eq (drop n s) t ≡ true = ground arith in
    let tail : drop n s ≡ t = (text_eq_iff (drop n s) t).0 equal in
    (take n s, sym (take-append-drop n s) ∙ ap (λ r. take n s ++ r) tail)

module _ (p : Text → Bool) where
  -- The names that `select` leaves out.
  rejects : List Text → List Text
  rejects = select (λ name. not (p name))

  select-perm : (xs : List Text) → Permᴰ (select p xs ++ rejects xs) xs
  unfolding rejects
  select-perm [] = Permᴰ.nil
  select-perm (x ∷ xs) = elim (Bool-cases (p x)) [
    | inl kept ↦ rw kept (Permᴰ.cons refl (select-perm xs))
    | inr dropped ↦
        rw dropped (
          Permᴰ.trans (Permᴰ.middle x (select p xs) (rejects xs))
            (Permᴰ.cons refl (select-perm xs)))
  ]

  All-select :
      (P : Text → Type 0) → ((x : Text) → p x ≡ true → P x) → (xs : List Text) → All P (select p xs)
  All-select P f [] = tt
  All-select P f (x ∷ xs) = elim (Bool-cases (p x)) [
    | inl kept ↦ rw kept (f x kept, All-select P f xs)
    | inr dropped ↦ rw dropped (All-select P f xs)
  ]

  All-rejects :
      (P : Text → Type 0) → ((x : Text) → p x ≡ false → P x) → (xs : List Text) → All P (rejects xs)
  unfolding rejects
  All-rejects P f [] = tt
  All-rejects P f (x ∷ xs) = elim (Bool-cases (p x)) [
    | inl kept ↦ rw kept (All-rejects P f xs)
    | inr dropped ↦ rw dropped (f x dropped, All-rejects P f xs)
  ]

-- What the script makes of the names in its directory.
pub sql_files-IsListing : (names : List Text) → IsListing names (sql_files names)
unfolding sql_files
sql_files-IsListing names =
    let is_sql : Text → Bool = λ name. ends_with name (codes ".sql") in
    let chosen = select is_sql names in
    record {
      others = rejects is_sql names;
      divided =
          Permᴰ.trans (Permᴰ.append_right (rejects is_sql names) (sort-perm chosen))
            (select-perm is_sql names);
      picked =
          All-sort IsSql chosen
            (All-select is_sql IsSql (λ s. suffix_of_ends_with s (codes ".sql")) names);
      left_out =
          All-rejects is_sql (λ name. ¬ IsSql name)
            (λ name other (stem, e).
              let ends : is_sql (stem ++ codes ".sql") ≡ true =
                ends_with-append stem (codes ".sql") in
              let other' : is_sql (stem ++ codes ".sql") ≡ false = rw e at other in
              cc (ends, other'))
            names;
      ascending = IsAscending-of_InOrder (sort chosen) (sort-InOrder chosen);
    }
