-- ===== src/Redis/Memory.antt =====
-- A store that behaves as the interface says: a list of keys with a value and a deadline, the last
-- one written first.
use property_platform_backen.Prelude.{
  ℕ, ◌+◌, ◌≤◌, ◌≡◌, refl, sym, ◌∙◌, ap, Text, text_eq, text_eq_iff, codes, Bool, true, false, not,
  ◌&&◌, ◌||◌, Option, none, some, List, [], ◌∷◌, ◌++◌, map, select, ltb, ◌==◌, if◌then◌else◌,
  Bool-cases, inl, inr, arith,
}
use property_platform_backen.Redis.{Redis, starts, is_literal, holds, is_some}

pub record Cell (V : Type 0) : Type 0 where
  pub key : Text
  pub value : V
  pub deadline : ℕ

-- Whether the end of a text, after any units of it, passes a test.
unfoldable pub skips : (Text → Bool) → Text → Bool
skips test [] = test []
skips test (c ∷ t) = test (c ∷ t) || skips test t

-- A pattern with `*` and `?`.
unfoldable pub glob : Text → Text → Bool
unfolding skips
glob [] [] = true
glob [] (d ∷ t) = false
glob (c ∷ p) [] = (c == b'*') && glob p []
glob (c ∷ p) (d ∷ t) =
    let here = glob p t in
    let star = skips (glob p) (d ∷ t) in if c == b'*' then star else (c == b'?' || c == d) && here

skips_all : (t : Text) → skips (glob []) t ≡ true
unfolding skips glob
skips_all [] = refl
skips_all (c ∷ t) = skips_all t

glob_literal : (p t : Text) → is_literal p ≡ true → glob (p ++ codes "*") t ≡ starts p t
unfolding glob starts codes
glob_literal [] [] h = refl
glob_literal [] (d ∷ t) h = skips_all t
glob_literal (c ∷ p) [] h = ground arith
glob_literal (c ∷ p) (d ∷ t) h = ground (arith, glob_literal p t)

text_eq_trans : (a b c : Text) → text_eq a b ≡ true → text_eq a c ≡ text_eq b c
text_eq_trans a b c h = rw ((text_eq_iff a b).0 h)

holds-select :
    (f : Text → Bool) (k : Text) (ks : List Text) → holds k (select f ks) ≡ (f k && holds k ks)
unfolding holds
holds-select f k [] = ground arith
holds-select f k (j ∷ ks) = elim (Bool-cases (text_eq j k)) [
  | inl same ↦
      let at_k : f j ≡ f k = ap f ((text_eq_iff j k).0 same) in
      ground (arith, holds-select f k ks, at_k, same)
  | inr other ↦ ground (arith, holds-select f k ks, other)
]

module _ {V : Type 0} where
  unfoldable pub look_up : ℕ → Text → List (Cell V) → Option V
  look_up t k [] = none
  look_up t k (cell ∷ s) =
      let rest = look_up t k s in
      if text_eq cell.key k then if ltb t cell.deadline then some cell.value else none else rest

  abbrev pub put : ℕ → Text → V → ℕ → List (Cell V) → List (Cell V)
  put t k v life s = record { key = k; value = v; deadline = t + life } ∷ s

  abbrev pub put_new : ℕ → Text → V → ℕ → List (Cell V) → Option V → Bool × List (Cell V)
  put_new t k v life s none = (true, put t k v life s)
  put_new t k v life s (some w) = (false, s)

  abbrev pub erase : Text → List (Cell V) → List (Cell V)
  erase k = select (λ cell. not (text_eq k cell.key))

  abbrev pub keys_like : ℕ → Text → List (Cell V) → List Text
  keys_like t pattern s =
      select (λ k. glob pattern k && is_some (look_up t k s)) (map (λ cell. cell.key) s)

  pub look_up-put :
      (t later : ℕ) (k j : Text) (v : V) (life : ℕ) (s : List (Cell V))
      → t ≤ later
      → look_up later j (put t k v life s)
        ≡ (if text_eq k j then if ltb later (t + life) then some v else none else look_up later j s)
  unfolding look_up
  look_up-put t later k j v life s h = refl

  pub put_new_taken :
      (t : ℕ) (k : Text) (v w : V) (life : ℕ) (s : List (Cell V))
      → look_up t k s ≡ some w
      → put_new t k v life s (look_up t k s) ≡ (false, s)
  put_new_taken t k v w life s h = rw h

  pub put_new_free :
      (t : ℕ) (k : Text) (v : V) (life : ℕ) (s : List (Cell V))
      → look_up t k s ≡ none
      → put_new t k v life s (look_up t k s) ≡ (true, put t k v life s)
  put_new_free t k v life s h = rw h

  pub look_up-erase :
      (t : ℕ) (k j : Text) (s : List (Cell V))
      → look_up t j (erase k s) ≡ (if text_eq k j then none else look_up t j s)
  unfolding look_up
  look_up-erase t k j [] = ground arith
  look_up-erase t k j (cell ∷ s) = elim (Bool-cases (text_eq k cell.key)) [
    | inl same ↦
        rw same (look_up-erase t k j s ∙ rw (text_eq_trans k cell.key j same) (ground arith))
    | inr other ↦ rw other (elim (Bool-cases (text_eq cell.key j)) [
      | inl found ↦
          let far : text_eq k j ≡ false =
            ap (text_eq k) (sym ((text_eq_iff cell.key j).0 found)) ∙ other in
          rw (found, far) refl
      | inr past ↦ rw past (look_up-erase t k j s)
    ])
  ]

  pub look_up_lapsed :
      (t later : ℕ) (k : Text) (s : List (Cell V))
      → t ≤ later
      → look_up t k s ≡ none
      → look_up later k s ≡ none
  unfolding look_up
  look_up_lapsed t later k [] h e = refl
  look_up_lapsed t later k (cell ∷ s) h e = ground (arith, look_up_lapsed t later k s h)

  held_if_found :
      (t : ℕ) (k : Text) (s : List (Cell V))
      → is_some (look_up t k s) ≡ true
      → holds k (map (λ cell. cell.key) s) ≡ true
  unfolding look_up holds
  held_if_found t k [] h = ground arith
  held_if_found t k (cell ∷ s) h = ground (arith, held_if_found t k s)

  pub keys_like_literal :
      (t : ℕ) (prefix k : Text) (s : List (Cell V))
      → is_literal prefix ≡ true
      → holds k (keys_like t (prefix ++ codes "*") s) ≡ (starts prefix k && is_some (look_up t k s))
  keys_like_literal t prefix k s h =
      rw
        (
          holds-select (λ j. glob (prefix ++ codes "*") j && is_some (look_up t j s)) k
              (map (λ cell. cell.key) s),
          glob_literal prefix k h,
        )
        (elim (Bool-cases (is_some (look_up t k s))) [
          | inl found ↦ rw (found, held_if_found t k s found) (ground arith)
          | inr lost ↦ rw lost (ground arith)
        ])

abbrev pub memory : (V : Type 0) → Redis V
memory V = record {
  Store = List (Cell V);
  get = look_up;
  set_ex = put;
  set_nx = λ t k v life s. put_new t k v life s (look_up t k s);
  del = erase;
  scan = keys_like;
  get-set_ex = look_up-put;
  set_nx_taken = put_new_taken;
  set_nx_free = put_new_free;
  get-del = look_up-erase;
  get_lapsed = look_up_lapsed;
  scan_literal = keys_like_literal;
}
