-- ===== src/Database/Faults.antt =====
-- What holds of a call under every fault.
use property_platform_backen.Prelude.{◌≡◌, refl, Bool, true, false, if◌then◌else◌, List, [], ◌∷◌}
use property_platform_backen.Effects.{Result, ok, err, Exec, pure}
use property_platform_backen.Effects.Keeps.{Keeps}
use property_platform_backen.Database.{
  World, Fault, answered, refused, unacked, call, call_with, lost_connection,
}

abbrev pub at : List Fault → World → World
at fs w = record w { faults = fs }

-- Whether the next call is answered.
abbrev pub is_up : List Fault → Bool
is_up (refused ∷ rest) = false
is_up (unacked ∷ rest) = false
is_up _ = true

-- What is to come behind it.
abbrev pub later : List Fault → List Fault
later [] = []
later (f ∷ rest) = rest

-- A call that changes nothing of its own.
pub call-pure :
    (fs : List Fault) (w : World)
    → call (pure tt) (at fs w)
      ≡ ((if is_up fs then ok tt else err lost_connection), at (later fs) w)
unfolding call call_with
call-pure [] w = refl
call-pure (answered ∷ rest) w = refl
call-pure (refused ∷ rest) w = refl
call-pure (unacked ∷ rest) w = refl

module _ {ℓ} {A : Type 0} (Q : Result A × World → Type ℓ) (op : Exec World A) (w : World) where
  call_with_cases :
      (fs : List Fault)
      → ((gs : List Fault) → Q (op (at gs w)))
      → ((gs : List Fault) → Q (err lost_connection, at gs w))
      → ((gs : List Fault) → Q (err lost_connection, (op (at gs w)).1))
      → Q (call_with fs op (at fs w))
  unfolding call_with
  call_with_cases [] h k l = h []
  call_with_cases (answered ∷ rest) h k l = h rest
  call_with_cases (refused ∷ rest) h k l = k rest
  call_with_cases (unacked ∷ rest) h k l = l rest

  -- A call is answered, or fails without its effect, or fails with it.
  pub call_cases :
      ((gs : List Fault) → Q (op (at gs w)))
      → ((gs : List Fault) → Q (err lost_connection, at gs w))
      → ((gs : List Fault) → Q (err lost_connection, (op (at gs w)).1))
      → Q (call op w)
  unfolding call
  call_cases h k l = call_with_cases w.faults h k l

-- A call keeps what its operation keeps, if the faults do not matter to it.
pub Keeps-call :
    {A : Type 0} {P : World → Type 0} (op : Exec World A)
    → ((fs : List Fault) (w : World) → P w → P (at fs w))
    → Keeps P op
    → Keeps P (call op)
Keeps-call {P} op stable k = record {
  at = λ w h.
      call_cases (λ r. P r.1) op w (λ gs. k.at (at gs w) (stable gs w h)) (λ gs. stable gs w h)
        (λ gs. k.at (at gs w) (stable gs w h));
}
