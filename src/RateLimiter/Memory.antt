-- ===== src/RateLimiter/Memory.antt =====
-- Counters that behave as the interface says: for each key a count and the end of its window.
use property_platform_backen.Prelude.{
  ℕ, ◌+◌, ◌≤◌, ◌<◌, ◌≡◌, refl, Text, text_eq, text_eq_iff, false, ltb, ◌==◌, if◌then◌else◌, arith,
}
use property_platform_backen.RateLimiter.{Counters}

abbrev Windows : Type 0
Windows = Text → ℕ × ℕ

abbrev pub current : ℕ → Text → Windows → ℕ
current now k s = let (n, end) = s k in if ltb now end then n else 0

abbrev pub increment : ℕ → ℕ → Text → Windows → Windows
increment now window k s j =
    if text_eq k j
    then (current now k s + 1, if current now k s == 0 then now + window else (s k).1)
    else s j

pub current-increment_self :
    (now later window : ℕ) (k : Text) (s : Windows)
    → now ≤ later
    → later < (increment now window k s k).1
    → current later k (increment now window k s) ≡ current now k s + 1
current-increment_self now later window k s h l = ground (arith, text_eq_iff k k)

pub current-increment_other :
    (now later window : ℕ) (k j : Text) (s : Windows)
    → text_eq k j ≡ false
    → current later j (increment now window k s) ≡ current later j s
current-increment_other now later window k j s h = rw h

pub end-increment_self :
    (now window : ℕ) (k : Text) (s : Windows)
    → (increment now window k s k).1 ≡ (if current now k s == 0 then now + window else (s k).1)
end-increment_self now window k s = rw ((text_eq_iff k k).1 refl)

pub end-increment_other :
    (now window : ℕ) (k j : Text) (s : Windows)
    → text_eq k j ≡ false
    → (increment now window k s j).1 ≡ (s j).1
end-increment_other now window k j s h = rw h

abbrev pub in_memory : Counters
in_memory = record {
  Store = Text → ℕ × ℕ;
  hits = current;
  ends = λ k s. (s k).1;
  count = increment;
  hits-count_self = current-increment_self;
  hits-count_other = current-increment_other;
  ends-count_self = end-increment_self;
  ends-count_other = end-increment_other;
}
