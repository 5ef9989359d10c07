-- ===== src/Idempotency/AtMostOnce.antt =====
-- A key runs its handler at most once in 24 hours, whatever commands of Redis fail.
use property_platform_backen.Prelude.{
  ℕ, ◌+◌, ◌≤◌, ◌<◌, ◌≡◌, ◌⊎◌, refl, Text, Option, none, some, List, [], ◌∷◌, inl, inr, arith,
  text_eq_iff, lt→ltb, Option-cases,
}
use property_platform_backen.Errors.{Response}
use property_platform_backen.Database.{Fault, answered, refused, unacked}
use property_platform_backen.Redis.{Redis}
use property_platform_backen.Idempotency.{
  Marker, processing, completed, idempotency_life, not_claimed, record_response,
}
use property_platform_backen.Idempotency.Faulty.{
  try_read, try_after_claim, try_claim, try_record, KeyEvent, arrived, responded, time_of, History,
  counted_run, happens, all_happen,
}

module _ (redis : Redis Marker) (key : Text) (start : ℕ) where
  open redis use {Store, get, set_ex, set_nx, get-set_ex, set_nx_taken, set_nx_free}

  -- The events follow each other within 24 hours.
  abbrev pub AreTimely : ℕ → List (KeyEvent redis) → Type 0
  AreTimely t [] = Unit
  AreTimely t (e ∷ es) =
      (t ≤ time_of redis e)
      × (time_of redis e < start + idempotency_life)
      × AreTimely (time_of redis e) es

  -- From this time to the end of the 24 hours the key is there.
  abbrev IsHeld : ℕ → Store → Type 0
  IsHeld t s =
      (later : ℕ)
      → t ≤ later
      → later < start + idempotency_life
      → (m : Marker) × (get later key s ≡ some m)

  -- The handler was not run, or once, and then the key is there.
  abbrev IsSpent : ℕ → History redis → Type 0
  IsSpent t h = (h.runs ≡ 0) ⊎ ((h.runs ≡ 1) × IsHeld t h.store)

  set_ex-IsHeld :
      (t : ℕ) (m : Marker) (s : Store) → start ≤ t → IsHeld t (set_ex t key m idempotency_life s)
  set_ex-IsHeld t m s h later p q = (
    m,
    rw (
      get-set_ex t later key key m idempotency_life s p,
      (text_eq_iff key key).1 refl,
      lt→ltb later (t + idempotency_life) (omega arith),
    ),
  )

  later-IsHeld : (t u : ℕ) (s : Store) → t ≤ u → IsHeld t s → IsHeld u s
  later-IsHeld t u s p h later q r = h later (omega arith) r

  -- A key that is taken runs no handler.
  not_claimed_runs :
      (n : ℕ) (o : Option Marker) (s : Store)
      → counted_run redis n (not_claimed o, s) ≡ record { store = s; runs = n }
  unfolding not_claimed
  not_claimed_runs n none s = refl
  not_claimed_runs n (some processing) s = refl
  not_claimed_runs n (some (completed status body)) s = refl

  taken_runs :
      (n u : ℕ) (read : Fault) (s : Store)
      → counted_run redis n (try_read redis read u key s, s) ≡ record { store = s; runs = n }
  unfolding try_read
  taken_runs n u answered s = not_claimed_runs n (get u key s) s
  taken_runs n u refused s = refl
  taken_runs n u unacked s = refl

  module _ (t u : ℕ) (h : History redis) (p : start ≤ t) (q : t ≤ u)
      (r : u < start + idempotency_life) where
    claimed-IsSpent :
        (read : Fault)
        → IsSpent t h
        → IsSpent u (
            counted_run redis h.runs
              (try_after_claim redis read u key (set_nx u key processing idempotency_life h.store)))
    unfolding try_after_claim
    claimed-IsSpent read (inl fresh) = elim (Option-cases (get u key h.store)) [
      | inl free ↦
          rw (set_nx_free u key processing idempotency_life h.store free)
            (inr (omega (arith, fresh), set_ex-IsHeld u processing h.store (omega arith)))
      | inr (m, taken) ↦
          rw
            (
              set_nx_taken u key processing m idempotency_life h.store taken,
              taken_runs h.runs u read h.store,
            )
            (inl fresh)
    ]
    claimed-IsSpent read (inr (once, held)) =
        let (m, taken) = held u q r in
        rw
          (
            set_nx_taken u key processing m idempotency_life h.store taken,
            taken_runs h.runs u read h.store,
          )
          (inr (once, later-IsHeld t u h.store q held))

    unacked-IsSpent :
        IsSpent t h
        → IsSpent u
            (record { store = (set_nx u key processing idempotency_life h.store).1; runs = h.runs })
    unacked-IsSpent (inl fresh) = inl fresh
    unacked-IsSpent (inr (once, held)) =
        let (m, taken) = held u q r in
        rw (set_nx_taken u key processing m idempotency_life h.store taken)
          (inr (once, later-IsHeld t u h.store q held))

    recorded-IsSpent :
        (res : Response)
        → IsSpent t h
        → IsSpent u (record { store = record_response redis u key res h.store; runs = h.runs })
    unfolding record_response
    recorded-IsSpent res (inl fresh) = inl fresh
    recorded-IsSpent res (inr (once, held)) =
        inr (once, set_ex-IsHeld u (completed res.status res.body) h.store (omega arith))

    kept-IsSpent : IsSpent t h → IsSpent u (record { store = h.store; runs = h.runs })
    kept-IsSpent (inl fresh) = inl fresh
    kept-IsSpent (inr (once, held)) = inr (once, later-IsHeld t u h.store q held)

  happens-IsSpent :
      (t : ℕ) (e : KeyEvent redis) (h : History redis)
      → start ≤ t
      → t ≤ time_of redis e
      → time_of redis e < start + idempotency_life
      → IsSpent t h
      → IsSpent (time_of redis e) (happens redis key e h)
  unfolding happens try_claim try_record
  happens-IsSpent t (arrived u answered read) h p q r = claimed-IsSpent t u h p q r read
  happens-IsSpent t (arrived u refused read) h p q r = kept-IsSpent t u h p q r
  happens-IsSpent t (arrived u unacked read) h p q r = unacked-IsSpent t u h p q r
  happens-IsSpent t (responded u res answered) h p q r = recorded-IsSpent t u h p q r res
  happens-IsSpent t (responded u res refused) h p q r = kept-IsSpent t u h p q r
  happens-IsSpent t (responded u res unacked) h p q r = recorded-IsSpent t u h p q r res

  spent_le : (t : ℕ) (h : History redis) → IsSpent t h → h.runs ≤ 1
  spent_le t h (inl fresh) = omega (arith, fresh)
  spent_le t h (inr (once, held)) = omega (arith, once)

  all_runs :
      (t : ℕ) (es : List (KeyEvent redis)) (h : History redis)
      → start ≤ t
      → AreTimely t es
      → IsSpent t h
      → (all_happen redis key es h).runs ≤ 1
  unfolding all_happen
  all_runs t [] h p timely k = spent_le t h k
  all_runs t (e ∷ es) h p (q, r, timely) k =
      all_runs (time_of redis e) es (happens redis key e h) (omega arith) timely
        (happens-IsSpent t e h p q r k)

  -- Within 24 hours the requests with a key run their handler at most once, however they and the
  -- responses follow each other, whatever the key held before, and whichever commands of Redis fail
  -- or take effect while their answers are lost.
  pub at_most_once :
      (es : List (KeyEvent redis)) (s : Store)
      → AreTimely start es
      → (all_happen redis key es (record { store = s; runs = 0 })).runs ≤ 1
  at_most_once es s timely =
      all_runs start es (record { store = s; runs = 0 }) (omega arith) timely (inl refl)
