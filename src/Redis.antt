-- ===== src/Redis.antt =====
-- The commands of Redis that the program sends through src/config/redis.ts, as an interface with
-- the documented behaviour of each. Times and lifetimes are in milliseconds. A value stands for
-- the JSON text that the program writes and parses.
pub mod Memory
use property_platform_backen.Prelude.{
  ℕ, ◌+◌, ◌≤◌, ◌≡◌, Text, text_eq, codes, Bool, true, false, not, ◌&&◌, ◌||◌, Option, none, some,
  List, [], ◌∷◌, ◌++◌, all, ltb, ◌==◌, if◌then◌else◌,
}

-- Whether the second text starts with the first.
unfoldable pub starts : Text → Text → Bool
starts [] t = true
starts (c ∷ p) [] = false
starts (c ∷ p) (d ∷ t) = (c == d) && starts p t

-- Whether no unit of the text has a meaning in a pattern of SCAN.
abbrev pub is_literal : Text → Bool
is_literal = all (λ c. not (c == b'*' || c == b'?' || c == b'[' || c == b']' || c == b'\\'))

-- Whether the text is among these.
unfoldable pub holds : Text → List Text → Bool
holds k [] = false
holds k (j ∷ js) = text_eq j k || holds k js

abbrev pub is_some {ℓ} : {A : Type ℓ} → Option A → Bool
is_some none = false
is_some (some a) = true

pub record Redis (V : Type 0) : Type 1 where
  pub Store : Type 0
  -- GET key, at a time
  pub get : ℕ → Text → Store → Option V
  -- SET key value EX lifetime, at a time
  pub set_ex : ℕ → Text → V → ℕ → Store → Store
  -- SET key value EX lifetime NX: whether the key was set
  pub set_nx : ℕ → Text → V → ℕ → Store → Bool × Store
  -- DEL key
  pub del : Text → Store → Store
  -- SCAN with a pattern, until it has returned all its keys, at a time
  pub scan : ℕ → Text → Store → List Text
  pub get-set_ex :
      (t later : ℕ) (k j : Text) (v : V) (life : ℕ) (s : Store)
      → t ≤ later
      → get later j (set_ex t k v life s)
        ≡ (if text_eq k j then if ltb later (t + life) then some v else none else get later j s)
  pub set_nx_taken :
      (t : ℕ) (k : Text) (v w : V) (life : ℕ) (s : Store)
      → get t k s ≡ some w
      → set_nx t k v life s ≡ (false, s)
  pub set_nx_free :
      (t : ℕ) (k : Text) (v : V) (life : ℕ) (s : Store)
      → get t k s ≡ none
      → set_nx t k v life s ≡ (true, set_ex t k v life s)
  pub get-del :
      (t : ℕ) (k j : Text) (s : Store)
      → get t j (del k s) ≡ (if text_eq k j then none else get t j s)
  pub get_lapsed :
      (t later : ℕ) (k : Text) (s : Store) → t ≤ later → get t k s ≡ none → get later k s ≡ none
  pub scan_literal :
      (t : ℕ) (prefix k : Text) (s : Store)
      → is_literal prefix ≡ true
      → holds k (scan t (prefix ++ codes "*") s) ≡ (starts prefix k && is_some (get t k s))
