-- ===== src/Concurrent/Fresh.antt =====
-- The ids of the rows that requests hold, and those of the CRM jobs in the queue.
use property_platform_backen.Prelude.{
  ℕ, ◌+◌, ◌≤◌, ◌<◌, ◌≡◌, ◌≢◌, refl, sym, ap, ◌∙◌, Text, codes, decimal, Option, some, none, List,
  ◌∷◌, ◌++◌, All, All-map, arith, inl, inr,
}
use property_platform_backen.Database.{Enquiry, Job, sync_enquiry, send_email, failed_job}
use property_platform_backen.Concurrent.{
  Pc, ready, checked, inserted, stored, queued, done, failed, update,
}
use property_platform_backen.Concurrent.Invariant.{row_held, update_cases}

abbrev pub job_id : ℕ → Text
job_id id = codes "crm-sync-" ++ decimal id

-- The row of a request that has not called `enqueueCrmSync`.
abbrev pub row_unqueued : Pc → Option Enquiry
row_unqueued (inserted e) = some e
row_unqueued (stored e) = some e
row_unqueued _ = none

held_of_unqueued : (p : Pc) (e : Enquiry) → row_unqueued p ≡ some e → row_held p ≡ some e
held_of_unqueued ready e h = cc
held_of_unqueued checked e h = cc
held_of_unqueued (inserted d) e h = h
held_of_unqueued (stored d) e h = h
held_of_unqueued (queued d) e h = cc
held_of_unqueued (done d) e h = cc
held_of_unqueued (failed t) e h = cc

same_id : (row e : Enquiry) → some row ≡ some e → e.id ≡ row.id
same_id row e h = cc

-- A CRM job is named after its enquiry, whose id is below this one.
abbrev pub IsNamedBelow : ℕ → Job → Type 0
IsNamedBelow n (sync_enquiry id name) = (id < n) × (name ≡ job_id id)
IsNamedBelow n _ = Unit

-- A CRM job is for another enquiry.
abbrev pub IsForOther : ℕ → Job → Type 0
IsForOther n (sync_enquiry id name) = id ≢ n
IsForOther n _ = Unit

pub record IsFresh (next : ℕ) (jobs : List Job) (pc : ℕ → Pc) : Type 0 where
  pub below : (i : ℕ) (e : Enquiry) → row_held (pc i) ≡ some e → e.id < next
  pub apart :
      (i j : ℕ) (e d : Enquiry)
      → i ≢ j
      → row_held (pc i) ≡ some e
      → row_held (pc j) ≡ some d
      → e.id ≢ d.id
  pub named : All (IsNamedBelow next) jobs
  pub unqueued : (i : ℕ) (e : Enquiry) → row_unqueued (pc i) ≡ some e → All (IsForOther e.id) jobs

-- What the request `i` turns to, beside this queue and with this next id.
pub record Follows (old next : ℕ) (jobs : List Job) (pc : ℕ → Pc) (i : ℕ) (p : Pc) : Type 0 where
  pub grown : old ≤ next
  pub named : All (IsNamedBelow next) jobs
  pub others :
      (j : ℕ) (e : Enquiry) → i ≢ j → row_unqueued (pc j) ≡ some e → All (IsForOther e.id) jobs
  pub below : (e : Enquiry) → row_held p ≡ some e → e.id < next
  pub apart :
      (j : ℕ) (e d : Enquiry) → i ≢ j → row_held p ≡ some e → row_held (pc j) ≡ some d → e.id ≢ d.id
  pub unqueued : (e : Enquiry) → row_unqueued p ≡ some e → All (IsForOther e.id) jobs

pub update-IsFresh :
    (old next : ℕ) (before jobs : List Job) (pc : ℕ → Pc) (i : ℕ) (p : Pc)
    → IsFresh old before pc
    → Follows old next jobs pc i p
    → IsFresh next jobs (update pc i p)
update-IsFresh old next before jobs pc i p x f = record {
  below = λ j e h. elim (update_cases pc i p j) [
    | inl (same, at) ↦ f.below e (rw (← at) h)
    | inr (other, at) ↦ omega (arith, x.below j e (rw (← at) h), f.grown)
  ];
  apart = λ j k e d ne h g. elim (update_cases pc i p j) [
    | inl (same, at) ↦ elim (update_cases pc i p k) [
      | inl (same', at') ↦ absurd (ne (sym same ∙ same'))
      | inr (other', at') ↦ f.apart k e d other' (rw (← at) h) (rw (← at') g)
    ]
    | inr (other, at) ↦ elim (update_cases pc i p k) [
      | inl (same', at') ↦ λ q. f.apart j d e other (rw (← at') g) (rw (← at) h) (sym q)
      | inr (other', at') ↦ x.apart j k e d ne (rw (← at) h) (rw (← at') g)
    ]
  ];
  named = f.named;
  unqueued = λ j e h. elim (update_cases pc i p j) [
    | inl (same, at) ↦ f.unqueued e (rw (← at) h)
    | inr (other, at) ↦ f.others j e other (rw (← at) h)
  ];
}

IsNamedBelow-suc : (n : ℕ) (j : Job) → IsNamedBelow n j → IsNamedBelow (n + 1) j
IsNamedBelow-suc n (sync_enquiry id name) h = (omega arith, h.1)
IsNamedBelow-suc n (send_email to name id) h = tt
IsNamedBelow-suc n (failed_job queue id reason at) h = tt

pub IsNamedBelow-later :
    (n : ℕ) (jobs : List Job) → All (IsNamedBelow n) jobs → All (IsNamedBelow (n + 1)) jobs
IsNamedBelow-later n jobs h = All-map jobs (IsNamedBelow-suc n) h

IsForOther-new : (n : ℕ) (j : Job) → IsNamedBelow n j → IsForOther n j
IsForOther-new n (sync_enquiry id name) h = λ e. omega arith
IsForOther-new n (send_email to name id) h = tt
IsForOther-new n (failed_job queue id reason at) h = tt

-- The next id has no job.
pub next-IsForOther :
    (n : ℕ) (jobs : List Job) → All (IsNamedBelow n) jobs → All (IsForOther n) jobs
next-IsForOther n jobs h = All-map jobs (IsForOther-new n) h

module _ (next : ℕ) (jobs : List Job) (pc : ℕ → Pc) (i : ℕ) (x : IsFresh next jobs pc) where
  -- A place with the same row or none, beside the same queue.
  pub same-Follows :
      (p : Pc)
      → ((e : Enquiry) → row_held p ≡ some e → row_held (pc i) ≡ some e)
      → ((e : Enquiry) → row_unqueued p ≡ some e → row_unqueued (pc i) ≡ some e)
      → Follows next next jobs pc i p
  same-Follows p held waiting = record {
    grown = omega arith;
    named = x.named;
    others = λ j e ne h. x.unqueued j e h;
    below = λ e h. x.below i e (held e h);
    apart = λ j e d ne h g. x.apart i j e d ne (held e h) g;
    unqueued = λ e h. x.unqueued i e (waiting e h);
  }

  -- An id is used up.
  pub used-Follows :
      (p : Pc) → row_held p ≡ none → row_unqueued p ≡ none → Follows next (next + 1) jobs pc i p
  used-Follows p no_row no_job = record {
    grown = omega arith;
    named = IsNamedBelow-later next jobs x.named;
    others = λ j e ne h. x.unqueued j e h;
    below = λ e h. cc;
    apart = λ j e d ne h g. cc;
    unqueued = λ e h. cc;
  }

  -- A row takes the next id.
  pub new-Follows :
      (row : Enquiry) → row.id ≡ next → Follows next (next + 1) jobs pc i (inserted row)
  new-Follows row numbered = record {
    grown = omega arith;
    named = IsNamedBelow-later next jobs x.named;
    others = λ j e ne h. x.unqueued j e h;
    below = λ e h. omega (arith, same_id row e h, numbered);
    apart = λ j e d ne h g q. omega (arith, x.below j d g, same_id row e h, numbered, q);
    unqueued = λ e h. rw (same_id row e h ∙ numbered) (next-IsForOther next jobs x.named);
  }

  -- The CRM job of the request is queued.
  pub queued-Follows :
      (row : Enquiry) (p : Pc)
      → pc i ≡ stored row
      → ((e : Enquiry) → row_held p ≡ some e → e ≡ row)
      → row_unqueued p ≡ none
      → Follows next next (sync_enquiry row.id (job_id row.id) ∷ jobs) pc i p
  queued-Follows row p at held no_job = record {
    grown = omega arith;
    named = ((x.below i row (ap row_held at), refl), x.named);
    others = λ j e ne h.
        (x.apart i j row e ne (ap row_held at) (held_of_unqueued (pc j) e h), x.unqueued j e h);
    below = λ e h. rw (held e h) (x.below i row (ap row_held at));
    apart = λ j e d ne h g. rw (held e h) (x.apart i j row d ne (ap row_held at) g);
    unqueued = λ e h. cc;
  }

  -- An email is queued.
  pub email-Follows :
      (to name : Text) (id : ℕ) (p : Pc)
      → ((e : Enquiry) → row_held p ≡ some e → row_held (pc i) ≡ some e)
      → row_unqueued p ≡ none
      → Follows next next (send_email to name id ∷ jobs) pc i p
  email-Follows to name id p held no_job = record {
    grown = omega arith;
    named = (tt, x.named);
    others = λ j e ne h. (tt, x.unqueued j e h);
    below = λ e h. x.below i e (held e h);
    apart = λ j e d ne h g. x.apart i j e d ne (held e h) g;
    unqueued = λ e h. cc;
  }
