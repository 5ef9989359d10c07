-- ===== src/Migrate/Order.antt =====
-- The order in which the files are applied.
use mathlib.Core.List.Permᴰ
use mathlib.Core.List.{Permᴰ}
use property_platform_backen.Prelude.{
  ◌≡◌, refl, sym, ap, ◌∙◌, Text, codes, Bool, true, false, List, [], ◌∷◌, select, Bool-cases, inl,
  inr, arith,
}
use property_platform_backen.Migrate.{ends_with, text_le, insert_text, sort, sql_files}

pub text_le_total : (s t : Text) → text_le s t ≡ false → text_le t s ≡ true
unfolding text_le
text_le_total [] t h = cc
text_le_total (a ∷ s) [] h = refl
text_le_total (a ∷ s) (b ∷ t) h = ground (arith, text_le_total s t)

text_le_antisymm : (s t : Text) → text_le s t ≡ true → text_le t s ≡ true → s ≡ t
unfolding text_le
text_le_antisymm [] [] h k = refl
text_le_antisymm [] (b ∷ t) h k = cc
text_le_antisymm (a ∷ s) [] h k = cc
text_le_antisymm (a ∷ s) (b ∷ t) h k = ground (arith, text_le_antisymm s t)

pub text_le_trans : (s t u : Text) → text_le s t ≡ true → text_le t u ≡ true → text_le s u ≡ true
unfolding text_le
text_le_trans [] t u h k = refl
text_le_trans (a ∷ s) [] u h k = cc
text_le_trans (a ∷ s) (b ∷ t) [] h k = cc
text_le_trans (a ∷ s) (b ∷ t) (c ∷ u) h k = ground (arith, text_le_trans s t u)

insert_comm_lt :
    (s t : Text) (xs : List Text)
    → text_le s t ≡ true
    → text_le t s ≡ false
    → insert_text s (insert_text t xs) ≡ insert_text t (insert_text s xs)
unfolding insert_text
insert_comm_lt s t [] h k = rw (h, k)
insert_comm_lt s t (x ∷ xs) h k = elim (Bool-cases (text_le t x)) [
  | inl tx ↦ rw (tx, h, text_le_trans s t x h tx, k, tx)
  | inr tx ↦ elim (Bool-cases (text_le s x)) [
    | inl sx ↦ rw (tx, sx, k, tx)
    | inr sx ↦ rw (tx, sx, tx) (ap (λ r. x ∷ r) (insert_comm_lt s t xs h k))
  ]
]

insert_comm :
    (s t : Text) (xs : List Text)
    → insert_text s (insert_text t xs) ≡ insert_text t (insert_text s xs)
insert_comm s t xs = elim (Bool-cases (text_le s t)) [
  | inl st ↦ elim (Bool-cases (text_le t s)) [
    | inl ts ↦ rw (text_le_antisymm s t st ts)
    | inr ts ↦ insert_comm_lt s t xs st ts
  ]
  | inr st ↦ sym (insert_comm_lt t s xs (text_le_total s t st) st)
]

pub sort-of_perm : {xs ys : List Text} → Permᴰ xs ys → sort xs ≡ sort ys
unfolding sort
sort-of_perm Permᴰ.nil = refl
sort-of_perm (Permᴰ.cons e p) = rw (e, sort-of_perm p)
sort-of_perm (Permᴰ.swap {l} e f) = rw (e, f) (insert_comm _ _ (sort l))
sort-of_perm (Permᴰ.trans p q) = sort-of_perm p ∙ sort-of_perm q

module _ (p : Text → Bool) where
  select-cons-perm :
      (x : Text) (xs ys : List Text)
      → Permᴰ (select p xs) (select p ys)
      → Permᴰ (select p (x ∷ xs)) (select p (x ∷ ys))
  select-cons-perm x xs ys h = elim (Bool-cases (p x)) [
    | inl kept ↦ rw kept (Permᴰ.cons refl h)
    | inr dropped ↦ rw dropped h
  ]

  select-swap-perm :
      (x y : Text) (xs : List Text) → Permᴰ (select p (x ∷ y ∷ xs)) (select p (y ∷ x ∷ xs))
  select-swap-perm x y xs = elim (Bool-cases (p x)) [
    | inl px ↦ elim (Bool-cases (p y)) [
      | inl py ↦ rw (px, py) (Permᴰ.swap refl refl)
      | inr py ↦ rw (px, py) (Permᴰ.refl _)
    ]
    | inr px ↦ elim (Bool-cases (p y)) [
      | inl py ↦ rw (px, py) (Permᴰ.refl _)
      | inr py ↦ rw (px, py) (Permᴰ.refl _)
    ]
  ]

  select-perm : {xs ys : List Text} → Permᴰ xs ys → Permᴰ (select p xs) (select p ys)
  select-perm Permᴰ.nil = Permᴰ.nil
  select-perm (Permᴰ.cons {b} {l₁} {l₂} e h) = rw e (select-cons-perm b l₁ l₂ (select-perm h))
  select-perm (Permᴰ.swap {a'} {b'} {l} e f) = rw (e, f) (select-swap-perm b' a' l)
  select-perm (Permᴰ.trans h k) = Permᴰ.trans (select-perm h) (select-perm k)

-- The files and their order do not depend on the order in which the directory is listed.
pub sql_files-perm : {xs ys : List Text} → Permᴰ xs ys → sql_files xs ≡ sql_files ys
unfolding sql_files
sql_files-perm h = sort-of_perm (select-perm (λ f. ends_with f (codes ".sql")) h)
