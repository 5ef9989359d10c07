-- ===== src/Concurrent/Steps.antt =====
-- That each step of the requests keeps the rows apart.
use property_platform_backen.Prelude.{
  ℕ, ◌≡◌, refl, ap, ◌∙◌, true, false, some, none, inl, inr, ◌⊎◌, List, ◌∷◌, text_eq_iff,
}
use property_platform_backen.Database.{World, Enquiry, has_fingerprint, row_of, lost_connection}
use property_platform_backen.Database.Invariant.{HasDistinctFingerprints}
use property_platform_backen.Concurrent.{
  Requests, Pc, ready, checked, inserted, stored, queued, done, failed, System, update, IsPending,
  wanted, Move, find, miss, insert, repeat, overflow, commit, enqueue, finish, Loss, lost_ready,
  lost_insert, lost_before_insert, lost_before_commit, lost_commit, lost_before_enqueue,
  lost_enqueue, lost_before_email, lost_email, Step, moved, lost, waited, Reaches, here, next,
  begun,
}
use property_platform_backen.Concurrent.Invariant.{
  row_held, row_committed, IsExclusive, Suits, update-IsExclusive, none-Suits, same-Suits,
  unchanged-Others, committed-Others,
}

pending_or_committed :
    (p : Pc) (e : Enquiry) → row_held p ≡ some e → (p ≡ inserted e) ⊎ (row_committed p ≡ some e)
pending_or_committed ready e h = cc
pending_or_committed checked e h = cc
pending_or_committed (inserted d) e h = inl cc
pending_or_committed (stored d) e h = inr h
pending_or_committed (queued d) e h = inr h
pending_or_committed (done d) e h = inr h
pending_or_committed (failed t) e h = cc

pub has_fingerprint_self :
    (e : Enquiry) (rows : List Enquiry) → has_fingerprint e.fingerprint (e ∷ rows) ≡ true
unfolding has_fingerprint
has_fingerprint_self e rows = rw ((text_eq_iff e.fingerprint e.fingerprint).1 refl) refl

module _ (r : Requests) where
  module _ (s : System) (i : ℕ) (x : IsExclusive r s.world.enquiries s.pc) where
    left : (p : Pc) → row_held p ≡ none → IsExclusive r s.world.enquiries (update s.pc i p)
    left p h =
        update-IsExclusive r s.world.enquiries s.world.enquiries s.pc i p x
          (unchanged-Others r s.world.enquiries s.pc i x)
          (none-Suits r s.world.enquiries s.pc i p h)

    kept :
        (p : Pc) (e : Enquiry)
        → row_committed (s.pc i) ≡ some e
        → row_held (s.pc i) ≡ some e
        → row_committed p ≡ some e
        → IsExclusive r s.world.enquiries (update s.pc i p)
    kept p e before held after =
        update-IsExclusive r s.world.enquiries s.world.enquiries s.pc i p x
          (unchanged-Others r s.world.enquiries s.pc i x)
          (same-Suits r s.world.enquiries s.world.enquiries s.pc i p e x held after
            (x.visible i e before))

    committed :
        (p : Pc) (e : Enquiry)
        → s.pc i ≡ inserted e
        → Suits r (e ∷ s.world.enquiries) s.pc i p
        → IsExclusive r (e ∷ s.world.enquiries) (update s.pc i p)
    committed p e at suits =
        update-IsExclusive r s.world.enquiries (e ∷ s.world.enquiries) s.pc i p x
          (committed-Others r s.world.enquiries s.pc i e x at) suits

    same_fingerprint :
        (e : Enquiry)
        → inserted (row_of (wanted r i) s.world) ≡ inserted e
        → has_fingerprint e.fingerprint s.world.enquiries
          ≡ has_fingerprint (wanted r i).fingerprint s.world.enquiries
    same_fingerprint e h = cc

    entered :
        has_fingerprint (wanted r i).fingerprint s.world.enquiries ≡ false
        → ((j : ℕ) → ¬ IsPending (wanted r i).fingerprint (s.pc j))
        → IsExclusive r s.world.enquiries (update s.pc i (inserted (row_of (wanted r i) s.world)))
    entered free idle =
        update-IsExclusive r s.world.enquiries s.world.enquiries s.pc i _ x
          (unchanged-Others r s.world.enquiries s.pc i x)
          (record {
            own = λ e h. cc;
            visible = λ e h. cc;
            hidden = λ e h. same_fingerprint e h ∙ free;
            apart = λ j e d ne h g q. elim (pending_or_committed (s.pc j) d g) [
              | inl pending ↦ idle j (rw pending cc)
              | inr seen ↦ cc (x.visible j d seen)
            ];
          })

    pub Move-IsExclusive :
        {w : World} {p : Pc} → Move r s i w p → IsExclusive r w.enquiries (update s.pc i p)
    Move-IsExclusive (find at f) = left checked refl
    Move-IsExclusive (miss at f) = left _ refl
    Move-IsExclusive (insert at fit free idle) = entered free idle
    Move-IsExclusive (repeat at fit taken) = left _ refl
    Move-IsExclusive (overflow at long) = left _ refl
    Move-IsExclusive (commit e at) = committed (stored e) e at (
        same-Suits r s.world.enquiries (e ∷ s.world.enquiries) s.pc i (stored e) e x
          (ap row_held at) refl (has_fingerprint_self e s.world.enquiries))
    Move-IsExclusive (enqueue e at) = kept (queued e) e (ap row_committed at) (ap row_held at) refl
    Move-IsExclusive (finish e at) = kept (done e) e (ap row_committed at) (ap row_held at) refl

    pub Loss-IsExclusive :
        {w : World}
        → Loss r s i w
        → IsExclusive r w.enquiries (update s.pc i (failed lost_connection))
    Loss-IsExclusive (lost_commit e at) =
        committed (failed lost_connection) e at (none-Suits r (e ∷ s.world.enquiries) s.pc i _ refl)
    Loss-IsExclusive (lost_ready at) = left _ refl
    Loss-IsExclusive (lost_insert at) = left _ refl
    Loss-IsExclusive (lost_before_insert at) = left _ refl
    Loss-IsExclusive (lost_before_commit e at) = left _ refl
    Loss-IsExclusive (lost_before_enqueue e at) = left _ refl
    Loss-IsExclusive (lost_enqueue e at) = left _ refl
    Loss-IsExclusive (lost_before_email e at) = left _ refl
    Loss-IsExclusive (lost_email e at) = left _ refl

  pub Step-IsExclusive :
      (s t : System)
      → Step r s t
      → IsExclusive r s.world.enquiries s.pc
      → IsExclusive r t.world.enquiries t.pc
  Step-IsExclusive s _ (moved i m) x = Move-IsExclusive s i x m
  Step-IsExclusive s _ (lost i l) x = Loss-IsExclusive s i x l
  Step-IsExclusive s _ (waited t) x = x

  pub Reaches-IsExclusive :
      (s t : System)
      → Reaches r s t
      → IsExclusive r s.world.enquiries s.pc
      → IsExclusive r t.world.enquiries t.pc
  Reaches-IsExclusive s _ here x = x
  Reaches-IsExclusive s t (next {t = m} steps step) x =
      Step-IsExclusive m t step (Reaches-IsExclusive s m steps x)

  pub begun-IsExclusive :
      (w : World) → HasDistinctFingerprints w.enquiries → IsExclusive r w.enquiries (begun r w).pc
  begun-IsExclusive w h = record {
    own = λ i e p. cc;
    visible = λ i e p. cc;
    hidden = λ i e p. cc;
    apart = λ i j e d ne p q. cc;
    distinct = h;
  }
