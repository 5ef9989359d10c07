-- ===== src/Concurrent/Alone.antt =====
-- The steps of a request that no other one delays, and `createEnquiry` as a single function.
use property_platform_backen.Prelude.{ℕ, ◌≡◌, refl, inl, inr, Text, Bool-cases}
use property_platform_backen.Effects.{Result, ok, err}
use property_platform_backen.Database.{World, Enquiry, has_fingerprint, columns_fit}
use property_platform_backen.Transaction.Calm.{calm}
use property_platform_backen.Enquiries.{create_enquiry}
use property_platform_backen.Enquiries.Create.{is_missing, create_enquiry_cases}
use property_platform_backen.Concurrent.{
  Requests, Pc, ready, checked, inserted, done, failed, System, update, wanted, Move, find, miss,
  insert, repeat, overflow, commit, enqueue, finish, moved, Reaches, here, next, IsPending,
  commit_row, add_sync, add_email, counted_created,
}
use property_platform_backen.Concurrent.Invariant.{update_cases}

abbrev pub final_pc : Result Enquiry → Pc
final_pc (ok e) = done e
final_pc (err t) = failed t

pub update_self : (f : ℕ → Pc) (i : ℕ) (p : Pc) → update f i p i ≡ p
update_self f i p = elim (update_cases f i p i) [
  | inl (same, place) ↦ place
  | inr (other, place) ↦ absurd (other refl)
]

module _ (r : Requests) where
  -- A run of the requests in which no call is lost: every step of it is a move of some request.
  pub data Moves (s : System) : System → Type 0 where
    still : Moves s s
    go_on :
        {t : System} {i : ℕ} {w : World} {p : Pc}
        → Moves s t
        → Move r t i w p
        → Moves s (record { world = w; pc = update t.pc i p })

  -- Such a run is one of the runs that there are.
  pub Moves-Reaches : {s t : System} → Moves s t → Reaches r s t
  Moves-Reaches still = here
  Moves-Reaches (go_on {i = j} run m) = next (Moves-Reaches run) (moved j m)

  pub prepend :
      (s : System) (i : ℕ) (w : World) (p : Pc) (t : System)
      → Move r s i w p
      → Moves (record { world = w; pc = update s.pc i p }) t
      → Moves s t
  prepend s i w p _ m still = go_on still m
  prepend s i w p _ m (go_on {t = u} run end) = go_on (prepend s i w p u m run) end

module _ (r : Requests) (i : ℕ) where
  -- The request `i` gets from a state to one with this world and this end, without a lost call.
  abbrev pub Ends : System → World → Pc → Type 0
  Ends s w p = (t : System) × Moves r s t × (t.world ≡ w) × (t.pc i ≡ p)

  pub after :
      (s : System) {w u : World} {p q : Pc}
      → Move r s i w p
      → Ends (record { world = w; pc = update s.pc i p }) u q
      → Ends s u q
  after s m (t, run, world, place) = (t, prepend r s i _ _ t m run, world, place)

  pub last : (s : System) {w : World} {p : Pc} → Move r s i w p → Ends s w p
  last s {w} {p} m =
      (record { world = w; pc = update s.pc i p }, go_on still m, refl, update_self s.pc i p)

  pub idle_update :
      (f : ℕ → Pc) (key : Text)
      → ((j : ℕ) → ¬ IsPending key (f j))
      → (j : ℕ) → ¬ IsPending key (update f i checked j)
  idle_update f key idle j = elim (update_cases f i checked j) [
    | inl (same, place) ↦ rw place (λ h. h)
    | inr (other, place) ↦ rw place (idle j)
  ]

  pub finished :
      (w : World) (f : ℕ → Pc) (e : Enquiry)
      → f i ≡ inserted e
      → Ends
          (record { world = w; pc = f })
          (counted_created (add_email e (add_sync e (commit_row e w))))
          (done e)
  finished w f e place =
      after _ (commit e place)
        (after _ (enqueue e (update_self _ i _)) (last _ (finish e (update_self _ i _))))

  -- A request that waits for nobody, where every call of it is answered, comes to the state and the
  -- final_pc of `createEnquiry`.
  pub alone-create_enquiry :
      (w : World) (f : ℕ → Pc)
      → f i ≡ ready
      → ((j : ℕ) → ¬ IsPending (wanted r i).fingerprint (f j))
      → Ends
          (record { world = calm w; pc = f })
          (create_enquiry r.platform (r.input i) (r.ctx i) (calm w)).1
          (final_pc (create_enquiry r.platform (r.input i) (r.ctx i) (calm w)).0)
  alone-create_enquiry w f start idle =
      rw (create_enquiry_cases r.platform (r.input i) (r.ctx i) w)
        (elim (Bool-cases (is_missing r.platform (r.input i) (r.ctx i) w)) [
          | inl missing ↦ rw missing (last _ (miss start missing))
          | inr found ↦ rw found (
              after _ (find start found) (elim (Bool-cases (columns_fit (wanted r i))) [
                | inr long ↦ rw long (last _ (overflow (update_self f i checked) long))
                | inl fit ↦
                    elim (Bool-cases (has_fingerprint (wanted r i).fingerprint w.enquiries)) [
                      | inl taken ↦
                          rw (fit, taken) (last _ (repeat (update_self f i checked) fit taken))
                      | inr free ↦
                          rw (fit, free)
                            (after _
                              (insert (update_self f i checked) fit free (idle_update f _ idle))
                              (finished _ _ _ (update_self _ i _)))
                    ]
              ]))
        ])
