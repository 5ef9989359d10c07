-- ===== src/Concurrent/Backed.antt =====
-- What the answer of a request stands on: its row, its jobs, or the row of another.
use mathlib.Core.List.{Memᴰ}
use property_platform_backen.Prelude.{
  ℕ, ◌≡◌, ◌≢◌, refl, codes, decimal, Text, true, arith, inl, inr, ◌∷◌, ◌++◌,
}
use property_platform_backen.Errors.{not_found_error, conflict_error}
use property_platform_backen.Database.{
  World, Enquiry, Job, has_fingerprint, sync_enquiry, send_email, lost_connection, mysql_error,
}
use property_platform_backen.Enquiries.{property_missing}
use property_platform_backen.Concurrent.{
  Requests, Pc, ready, checked, inserted, stored, queued, done, failed, System, wanted, Move, find,
  miss, insert, repeat, overflow, commit, enqueue, finish, Loss, lost_ready, lost_insert,
  lost_before_insert, lost_before_commit, lost_commit, lost_before_enqueue, lost_enqueue,
  lost_before_email, lost_email, Step, moved, lost, waited, Reaches, here, next, begun, identical,
}
use property_platform_backen.Concurrent.Invariant.{update_cases}

abbrev pub sync_job : Enquiry → Job
sync_job e = sync_enquiry e.id (codes "crm-sync-" ++ decimal e.id)

abbrev pub email_job : Enquiry → Job
email_job e = send_email e.email e.full_name e.id

-- The state has at least what was there.
pub record Grows (w u : World) : Type 0 where
  pub rows : (e : Enquiry) → Memᴰ e w.enquiries → Memᴰ e u.enquiries
  pub jobs : (j : Job) → Memᴰ j w.jobs → Memᴰ j u.jobs
  pub fingerprints :
      (f : Text) → has_fingerprint f w.enquiries ≡ true → has_fingerprint f u.enquiries ≡ true

Grows-refl : (w : World) → Grows w w
Grows-refl w = record { rows = λ e h. h; jobs = λ j h. h; fingerprints = λ f h. h }

not_identical_missing : (id : ℕ) → property_missing id ≢ identical
unfolding property_missing not_found_error conflict_error
not_identical_missing id = λ h. ground arith

not_identical_mysql : (n : ℕ) (c : Text) → mysql_error n c ≢ identical
unfolding mysql_error conflict_error
not_identical_mysql n c = λ h. cc

not_identical_lost : lost_connection ≢ identical
unfolding lost_connection conflict_error
not_identical_lost = λ h. cc

module _ (r : Requests) where
  -- From its COMMIT on a request has its row, then the CRM job and then the email. One that was
  -- refused as a duplicate has a row of its fingerprint in the table.
  abbrev pub IsBacked : World → ℕ → Pc → Type 0
  IsBacked w i (stored e) = Memᴰ e w.enquiries
  IsBacked w i (queued e) = Memᴰ e w.enquiries × Memᴰ (sync_job e) w.jobs
  IsBacked w i (done e) = Memᴰ e w.enquiries × Memᴰ (sync_job e) w.jobs × Memᴰ (email_job e) w.jobs
  IsBacked w i (failed t) =
      t ≡ identical → has_fingerprint (wanted r i).fingerprint w.enquiries ≡ true
  IsBacked w i _ = Unit

  Grows-IsBacked : (w u : World) (i : ℕ) (p : Pc) → Grows w u → IsBacked w i p → IsBacked u i p
  Grows-IsBacked w u i ready g h = tt
  Grows-IsBacked w u i checked g h = tt
  Grows-IsBacked w u i (inserted e) g h = tt
  Grows-IsBacked w u i (stored e) g h = g.rows e h
  Grows-IsBacked w u i (queued e) g h = (g.rows e h.0, g.jobs (sync_job e) h.1)
  Grows-IsBacked w u i (done e) g h =
      (g.rows e h.0, g.jobs (sync_job e) h.1, g.jobs (email_job e) h.2)
  Grows-IsBacked w u i (failed t) g h = λ p. g.fingerprints (wanted r i).fingerprint (h p)

  module _ (s : System) (i : ℕ) where
    grown_row :
        (e : Enquiry)
        → Grows s.world (record s.world {
          tables = record s.world.tables { enquiries = e ∷ s.world.enquiries };
        })
    unfolding has_fingerprint
    grown_row e = record {
      rows = λ d h. Memᴰ.tail h;
      jobs = λ j h. h;
      fingerprints = λ f h. rw h (ground arith);
    }

    grown_job : (j : Job) → Grows s.world (record s.world { jobs = j ∷ s.world.jobs })
    grown_job j = record { rows = λ e h. h; jobs = λ k h. Memᴰ.tail h; fingerprints = λ f h. h }

    Move-Grows : {w : World} {p : Pc} → Move r s i w p → Grows s.world w
    Move-Grows (find at f) = Grows-refl s.world
    Move-Grows (miss at f) = Grows-refl s.world
    Move-Grows (insert at fit free idle) = record {
      rows = λ e h. h;
      jobs = λ j h. h;
      fingerprints = λ f h. h;
    }
    Move-Grows (repeat at fit taken) = record {
      rows = λ e h. h;
      jobs = λ j h. h;
      fingerprints = λ f h. h;
    }
    Move-Grows (overflow at long) = Grows-refl s.world
    Move-Grows (commit e at) = grown_row e
    Move-Grows (enqueue e at) = grown_job (sync_job e)
    Move-Grows (finish e at) = record {
      rows = λ e h. h;
      jobs = λ k h. Memᴰ.tail h;
      fingerprints = λ f h. h;
    }

    Loss-Grows : {w : World} → Loss r s i w → Grows s.world w
    Loss-Grows (lost_commit e at) = grown_row e
    Loss-Grows (lost_ready at) = Grows-refl s.world
    Loss-Grows (lost_insert at) = record {
      rows = λ e h. h;
      jobs = λ j h. h;
      fingerprints = λ f h. h;
    }
    Loss-Grows (lost_before_insert at) = Grows-refl s.world
    Loss-Grows (lost_before_commit e at) = Grows-refl s.world
    Loss-Grows (lost_before_enqueue e at) = Grows-refl s.world
    Loss-Grows (lost_enqueue e at) = grown_job (sync_job e)
    Loss-Grows (lost_before_email e at) = Grows-refl s.world
    Loss-Grows (lost_email e at) = grown_job (email_job e)

    IsBacked-Move :
        {w : World} {p : Pc} → Move r s i w p → IsBacked s.world i (s.pc i) → IsBacked w i p
    IsBacked-Move (find at f) h = tt
    IsBacked-Move (miss at f) h = λ q. absurd (not_identical_missing (r.input i).property_id q)
    IsBacked-Move (insert at fit free idle) h = tt
    IsBacked-Move (repeat at fit taken) h = λ q. taken
    IsBacked-Move (overflow at long) h =
        λ q. absurd (not_identical_mysql 1406 (codes "ER_DATA_TOO_LONG") q)
    IsBacked-Move (commit e at) h = Memᴰ.head refl
    IsBacked-Move (enqueue e place) h = (rw place at h, Memᴰ.head refl)
    IsBacked-Move (finish e place) h =
        let g : IsBacked s.world i (queued e) = rw place at h in
        (g.0, Memᴰ.tail g.1, Memᴰ.head refl)

  all-IsBacked :
      (s t : System)
      → Step r s t
      → ((i : ℕ) → IsBacked s.world i (s.pc i))
      → (i : ℕ) → IsBacked t.world i (t.pc i)
  all-IsBacked s _ (moved j {w} {p} m) h i = elim (update_cases s.pc j p i) [
    | inl (same, at) ↦ rw (at, ← same) (IsBacked-Move s j m (h j))
    | inr (other, at) ↦ rw at (Grows-IsBacked s.world w i (s.pc i) (Move-Grows s j m) (h i))
  ]
  all-IsBacked s _ (lost j {w} l) h i = elim (update_cases s.pc j (failed lost_connection) i) [
    | inl (same, at) ↦ rw at (λ q. absurd (not_identical_lost q))
    | inr (other, at) ↦ rw at (Grows-IsBacked s.world w i (s.pc i) (Loss-Grows s j l) (h i))
  ]
  all-IsBacked s _ (waited t) h i =
      Grows-IsBacked s.world (record s.world { now = t }) i (s.pc i)
        (record { rows = λ e g. g; jobs = λ k g. g; fingerprints = λ f g. g }) (h i)

  -- Whatever the order of the calls and whichever of them are lost: a request that has returned a
  -- row has it in the table and both its jobs in the queues, and one that was refused as a
  -- duplicate has a committed row of its fingerprint.
  pub reached-IsBacked :
      (w : World) (t : System) → Reaches r (begun r w) t → (i : ℕ) → IsBacked t.world i (t.pc i)
  reached-IsBacked w _ here i = tt
  reached-IsBacked w t (next {t = m} run step) i =
      all-IsBacked m t step (reached-IsBacked w m run) i
