-- ===== src/Concurrent/Queue.antt =====
-- BullMQ adds no job whose `jobId` its queue has, as its documentation says. The CRM job of a new
-- enquiry is never such a one.
use property_platform_backen.Prelude.{
  ℕ, ◌+◌, ◌≡◌, ◌≢◌, refl, sym, ap, ◌∙◌, Text, text_eq, codes, decimal, false, some, none, List, [],
  ◌∷◌, All, All-append, arith, inl, inr, text_eq_iff, if◌then◌else◌, Bool-cases,
}
use property_platform_backen.Hash.Decimal.{decimal-injective, decimal-ne}
use property_platform_backen.Errors.{Thrown}
use property_platform_backen.Redis.{holds}
use property_platform_backen.Database.{
  World, Enquiry, Job, sync_enquiry, send_email, failed_job, row_of, lost_connection,
}
use property_platform_backen.Concurrent.{
  Requests, Pc, checked, stored, queued, done, failed, System, update, wanted, Move, find, miss,
  insert, repeat, overflow, commit, enqueue, finish, Loss, lost_ready, lost_insert,
  lost_before_insert, lost_before_commit, lost_commit, lost_before_enqueue, lost_enqueue,
  lost_before_email, lost_email, Step, moved, lost, waited, Reaches, here, next, begun,
}
use property_platform_backen.Concurrent.Invariant.{row_held}
use property_platform_backen.Concurrent.Backed.{sync_job, email_job}
use property_platform_backen.Concurrent.Fresh.{
  job_id, row_unqueued, IsNamedBelow, IsForOther, IsFresh, update-IsFresh, same-Follows,
  used-Follows, new-Follows, queued-Follows, email-Follows,
}

-- The `jobId`s in the queue crm-sync.
unfoldable pub job_ids : List Job → List Text
job_ids [] = []
job_ids (sync_enquiry id name ∷ js) = name ∷ job_ids js
job_ids (_ ∷ js) = job_ids js

-- `crmSyncQueue.add`
unfoldable pub add_once : Job → List Job → List Job
unfolding job_ids
add_once (sync_enquiry id name) js =
    if holds name (job_ids js) then js else sync_enquiry id name ∷ js
add_once j js = j ∷ js

job_id-injective : (m n : ℕ) → job_id m ≡ job_id n → m ≡ n
unfolding codes
job_id-injective m n h = decimal-injective m n (ground arith)

absent :
    (bound id : ℕ) (js : List Job)
    → All (IsNamedBelow bound) js
    → All (IsForOther id) js
    → holds (job_id id) (job_ids js) ≡ false
unfolding holds job_ids
absent bound id [] h k = refl
absent bound id (sync_enquiry n name ∷ js) h k = elim (Bool-cases (text_eq name (job_id id))) [
  | inl same ↦
      absurd (k.0 (job_id-injective n id (sym h.0.1 ∙ (text_eq_iff name (job_id id)).0 same)))
  | inr other ↦ rw other (absent bound id js h.1 k.1)
]
absent bound id (send_email to name n ∷ js) h k = absent bound id js h.1 k.1
absent bound id (failed_job queue name reason at ∷ js) h k = absent bound id js h.1 k.1

prefix-ne : All (λ c. c ≢ b':') (codes "crm-sync-")
unfolding codes
prefix-ne = ground arith

-- BullMQ refuses a `jobId` with a colon.
job_id-ne : (id : ℕ) → All (λ c. c ≢ b':') (job_id id)
job_id-ne id =
    All-append (λ c. c ≢ b':') (codes "crm-sync-") (decimal id) prefix-ne
      (decimal-ne b':' id (omega arith))

module _ (r : Requests) where
  abbrev IsFreshIn : World → (ℕ → Pc) → Type 0
  IsFreshIn w pc = IsFresh w.next_enquiry_id w.jobs pc

  module _ (s : System) (i : ℕ) (x : IsFreshIn s.world s.pc) where
    stays :
        (p : Pc)
        → ((e : Enquiry) → row_held p ≡ some e → row_held (s.pc i) ≡ some e)
        → ((e : Enquiry) → row_unqueued p ≡ some e → row_unqueued (s.pc i) ≡ some e)
        → IsFreshIn s.world (update s.pc i p)
    stays p h k =
        update-IsFresh _ _ s.world.jobs s.world.jobs s.pc i p x
          (same-Follows s.world.next_enquiry_id s.world.jobs s.pc i x p h k)

    ends : (t : Thrown) → IsFreshIn s.world (update s.pc i (failed t))
    ends t = stays (failed t) (λ e h. cc) (λ e h. cc)

    uses_id :
        (t : Thrown) → IsFresh (s.world.next_enquiry_id + 1) s.world.jobs (update s.pc i (failed t))
    uses_id t =
        update-IsFresh s.world.next_enquiry_id _ s.world.jobs s.world.jobs s.pc i (failed t) x
          (used-Follows s.world.next_enquiry_id s.world.jobs s.pc i x (failed t) refl refl)

    queues :
        (e : Enquiry) (p : Pc)
        → s.pc i ≡ stored e
        → ((d : Enquiry) → row_held p ≡ some d → d ≡ e)
        → row_unqueued p ≡ none
        → IsFresh s.world.next_enquiry_id (sync_job e ∷ s.world.jobs) (update s.pc i p)
    queues e p place h k =
        update-IsFresh s.world.next_enquiry_id _ s.world.jobs _ s.pc i p x
          (queued-Follows s.world.next_enquiry_id s.world.jobs s.pc i x e p place h k)

    emails :
        (e : Enquiry) (p : Pc)
        → ((d : Enquiry) → row_held p ≡ some d → row_held (s.pc i) ≡ some d)
        → row_unqueued p ≡ none
        → IsFresh s.world.next_enquiry_id (email_job e ∷ s.world.jobs) (update s.pc i p)
    emails e p h k =
        update-IsFresh s.world.next_enquiry_id _ s.world.jobs _ s.pc i p x (
          email-Follows s.world.next_enquiry_id s.world.jobs s.pc i x e.email e.full_name e.id p h
            k)

    Move-IsFresh : {w : World} {p : Pc} → Move r s i w p → IsFreshIn w (update s.pc i p)
    Move-IsFresh (find place f) = stays checked (λ e h. cc) (λ e h. cc)
    Move-IsFresh (miss place f) = ends _
    Move-IsFresh (insert place fit free idle) =
        update-IsFresh s.world.next_enquiry_id _ s.world.jobs s.world.jobs s.pc i _ x (
          new-Follows s.world.next_enquiry_id s.world.jobs s.pc i x (row_of (wanted r i) s.world)
            refl)
    Move-IsFresh (repeat place fit taken) = uses_id _
    Move-IsFresh (overflow place long) = ends _
    Move-IsFresh (commit e place) = stays (stored e) (λ d h. rw place h) (λ d h. rw place h)
    Move-IsFresh (enqueue e place) = queues e (queued e) place (λ d h. cc) refl
    Move-IsFresh (finish e place) = emails e (done e) (λ d h. rw place h) refl

    Loss-IsFresh : {w : World} → Loss r s i w → IsFreshIn w (update s.pc i (failed lost_connection))
    Loss-IsFresh (lost_ready place) = ends _
    Loss-IsFresh (lost_insert place) = uses_id _
    Loss-IsFresh (lost_before_insert place) = ends _
    Loss-IsFresh (lost_before_commit e place) = ends _
    Loss-IsFresh (lost_commit e place) = ends _
    Loss-IsFresh (lost_before_enqueue e place) = ends _
    Loss-IsFresh (lost_enqueue e place) = queues e (failed lost_connection) place (λ d h. cc) refl
    Loss-IsFresh (lost_before_email e place) = ends _
    Loss-IsFresh (lost_email e place) = emails e (failed lost_connection) (λ d h. cc) refl

  Step-IsFresh : (s t : System) → Step r s t → IsFreshIn s.world s.pc → IsFreshIn t.world t.pc
  Step-IsFresh s _ (moved i m) x = Move-IsFresh s i x m
  Step-IsFresh s _ (lost i l) x = Loss-IsFresh s i x l
  Step-IsFresh s _ (waited t) x = x

  reached-IsFresh :
      (w : World) (t : System)
      → All (IsNamedBelow w.next_enquiry_id) w.jobs
      → Reaches r (begun r w) t
      → IsFreshIn t.world t.pc
  reached-IsFresh w _ h here = record {
    below = λ i e p. cc;
    apart = λ i j e d ne p q. cc;
    named = h;
    unqueued = λ i e p. cc;
  }
  reached-IsFresh w t h (next {t = m} run step) = Step-IsFresh m t step (reached-IsFresh w m h run)

  -- However the calls of the requests follow each other and whichever are lost: where the CRM jobs
  -- at the start are named after enquiries with ids that were given out, the CRM job of a stored
  -- enquiry is new to the queue, so that it is added, and its name has no colon.
  pub add_once-new :
      (w : World) (t : System) (i : ℕ) (e : Enquiry)
      → All (IsNamedBelow w.next_enquiry_id) w.jobs
      → Reaches r (begun r w) t
      → t.pc i ≡ stored e
      → (add_once (sync_job e) t.world.jobs ≡ sync_job e ∷ t.world.jobs)
        × All (λ c. c ≢ b':') (job_id e.id)
  unfolding add_once
  add_once-new w t i e h run place =
      let x = reached-IsFresh w t h run in
      (
        rw (
            absent t.world.next_enquiry_id e.id t.world.jobs x.named
              (x.unqueued i e (ap row_unqueued place))),
        job_id-ne e.id,
      )
