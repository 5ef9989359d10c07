-- ===== src/Concurrent/Progress.antt =====
-- That requests do not block each other for ever.
use property_platform_backen.Prelude.{
  ℕ, ◌≡◌, ◌≢◌, ◌==◌, refl, sym, ap, ◌∙◌, Text, arith, inl, inr, ◌⊎◌, Bool-cases,
}
use property_platform_backen.Database.{World, Enquiry, has_fingerprint, columns_fit}
use property_platform_backen.Database.Invariant.{HasDistinctFingerprints}
use property_platform_backen.Enquiries.Create.{is_missing}
use property_platform_backen.Concurrent.{
  Requests, Pc, ready, checked, inserted, stored, queued, done, failed, System, update, wanted,
  find, miss, insert, repeat, overflow, commit, enqueue, finish, Reaches, begun, IsPending,
  counted_created, add_email, add_sync, commit_row,
}
use property_platform_backen.Concurrent.Invariant.{row_held}
use property_platform_backen.Concurrent.Steps.{Reaches-IsExclusive, begun-IsExclusive}
use property_platform_backen.Concurrent.Alone.{
  Moves, still, go_on, Ends, after, last, finished, idle_update, update_self, prepend,
}

-- The request has returned a row or thrown.
abbrev pub HasEnded : Pc → Type 0
HasEnded (done e) = Unit
HasEnded (failed t) = Unit
HasEnded _ = ⊥

module _ (r : Requests) (i : ℕ) where
  -- A run without a lost call at whose end the request is answered.
  abbrev pub Finishes : System → Type 0
  Finishes s = (t : System) × Moves r s t × HasEnded (t.pc i)

  of_Ends : (s : System) (w : World) (p : Pc) → HasEnded p → Ends r i s w p → Finishes s
  of_Ends s w p h (t, run, world, place) = (t, run, rw place h)

  from_inserted : (s : System) (e : Enquiry) → s.pc i ≡ inserted e → Finishes s
  from_inserted s e place = of_Ends s _ (done e) tt (finished r i s.world s.pc e place)

  from_stored : (s : System) (e : Enquiry) → s.pc i ≡ stored e → Finishes s
  from_stored s e place =
      of_Ends s _ (done e) tt
        (after r i s (enqueue e place) (last r i _ (finish e (update_self s.pc i (queued e)))))

  from_queued : (s : System) (e : Enquiry) → s.pc i ≡ queued e → Finishes s
  from_queued s e place = of_Ends s _ (done e) tt (last r i s (finish e place))

  -- No request has an uncommitted row of the fingerprint of `i`.
  abbrev pub IsUnblocked : (ℕ → Pc) → Type 0
  IsUnblocked f = (j : ℕ) → ¬ IsPending (wanted r i).fingerprint (f j)

  from_checked :
      (w : World) (f : ℕ → Pc)
      → IsUnblocked f
      → f i ≡ checked
      → Finishes (record { world = w; pc = f })
  from_checked w f idle place = elim (Bool-cases (columns_fit (wanted r i))) [
    | inr long ↦ of_Ends _ _ _ tt (last r i _ (overflow place long))
    | inl fit ↦ elim (Bool-cases (has_fingerprint (wanted r i).fingerprint w.enquiries)) [
      | inl taken ↦ of_Ends _ _ _ tt (last r i _ (repeat place fit taken))
      | inr free ↦
          of_Ends _ _ _ tt
            (after r i _ (insert place fit free idle) (finished r i _ _ _ (update_self f i _)))
    ]
  ]

  from_ready :
      (w : World) (f : ℕ → Pc)
      → IsUnblocked f
      → f i ≡ ready
      → Finishes (record { world = w; pc = f })
  from_ready w f idle place = elim (Bool-cases (is_missing r.platform (r.input i) (r.ctx i) w)) [
    | inl missing ↦ of_Ends _ _ _ tt (last r i _ (miss place missing))
    | inr found ↦
        let (t, run, ended) =
          from_checked w (update f i checked) (idle_update r i f _ idle)
            (update_self f i checked) in
        (t, prepend r _ i _ _ t (find place found) run, ended)
  ]

  -- Where no other request has an uncommitted row of its fingerprint.
  can_finish :
      (s : System) → ((j : ℕ) → i ≢ j → ¬ IsPending (wanted r i).fingerprint (s.pc j)) → Finishes s
  can_finish s idle = go (s.pc i) refl
    where
      all_idle : (p : Pc) → s.pc i ≡ p → ¬ IsPending (wanted r i).fingerprint p → IsUnblocked s.pc
      all_idle p place own j = elim (Bool-cases (i == j)) [
        | inl same ↦ let e : i ≡ j = ground arith in rw (← e, place) own
        | inr other ↦ idle j (ground arith)
      ]

      go : (p : Pc) → s.pc i ≡ p → Finishes s
      go ready place = from_ready s.world s.pc (all_idle ready place (λ h. h)) place
      go checked place = from_checked s.world s.pc (all_idle checked place (λ h. h)) place
      go (inserted e) place = from_inserted s e place
      go (stored e) place = from_stored s e place
      go (queued e) place = from_queued s e place
      go (done e) place = (s, still, rw place tt)
      go (failed t) place = (s, still, rw place tt)

pending_inserted :
    (key : Text) (p : Pc)
    → IsPending key p
    → (e : Enquiry) × (p ≡ inserted e) × (e.fingerprint ≡ key)
pending_inserted key ready h = absurd h
pending_inserted key checked h = absurd h
pending_inserted key (inserted e) h = (e, refl, h)
pending_inserted key (stored e) h = absurd h
pending_inserted key (queued e) h = absurd h
pending_inserted key (done e) h = absurd h
pending_inserted key (failed t) h = absurd h

module _ (r : Requests) where
  -- The request `j`, with its row not yet committed, has gone on to its end.
  abbrev settled : System → ℕ → Enquiry → System
  settled s j e = record {
    world = counted_created (add_email e (add_sync e (commit_row e s.world)));
    pc = update (update (update s.pc j (stored e)) j (queued e)) j (done e);
  }

  Moves-trans : (p q s : System) → Moves r p q → Moves r q s → Moves r p s
  Moves-trans p q _ run still = run
  Moves-trans p q s run (go_on {t = m} more step) = go_on (Moves-trans p q m run more) step

  settled_run : (s : System) (j : ℕ) (e : Enquiry) → s.pc j ≡ inserted e → Moves r s (settled s j e)
  settled_run s j e place =
      go_on (go_on (go_on still (commit e place)) (enqueue e (update_self s.pc j (stored e))))
        (finish e (update_self _ j (queued e)))

  settled_others :
      (s : System) (j : ℕ) (e : Enquiry) (k : ℕ)
      → ((settled s j e).pc k ≡ done e) ⊎ ((j ≢ k) × ((settled s j e).pc k ≡ s.pc k))
  unfolding update
  settled_others s j e k = elim (Bool-cases (j == k)) [
    | inl same ↦ inl (rw same)
    | inr other ↦ inr (ground arith, rw other)
  ]

  joined : (i : ℕ) (s t : System) → Moves r s t → Finishes r i t → Finishes r i s
  joined i s t run (u, more, ended) = (u, Moves-trans s t u run more, ended)

  -- However the calls have followed each other and whichever were lost: a request for whose
  -- fingerprint no other one has an uncommitted row, or some other one has, can be brought to its
  -- end without a lost call.
  pub can_always_finish :
      (w : World)
      → HasDistinctFingerprints w.enquiries
      → (t : System) → Reaches r (begun r w) t
      → (i : ℕ)
      → ((k : ℕ) → i ≢ k → ¬ IsPending (wanted r i).fingerprint (t.pc k))
        ⊎ ((j : ℕ) × (i ≢ j) × IsPending (wanted r i).fingerprint (t.pc j))
      → Finishes r i t
  can_always_finish w start t run i (inl idle) = can_finish r i t idle
  can_always_finish w start t run i (inr (j, ne, pending)) =
      let x = Reaches-IsExclusive r (begun r w) t run (begun-IsExclusive r w start) in
      let (e, place, key) = pending_inserted (wanted r i).fingerprint (t.pc j) pending in
      joined i t (settled t j e) (settled_run t j e place) (
        can_finish r i (settled t j e) (λ k other. elim (settled_others t j e k) [
          | inl ended ↦ rw ended (λ h. h)
          | inr (apart, same) ↦ rw same (λ h.
              let (d, place', key') = pending_inserted (wanted r i).fingerprint (t.pc k) h in
              x.apart j k e d apart (ap row_held place) (ap row_held place') (key ∙ sym key'))
        ]))
