-- ===== src/WorkerProcess/Shutdown.antt =====
-- How the process of the workers ends.
use property_platform_backen.Prelude.{ℕ, zero, suc, ◌≤◌, ◌≡◌, refl, true, none, some, arith}
use property_platform_backen.WorkerProcess.{
  Worker, Process, crm_concurrency, email_concurrency, WorkerStep, take_job, finish_job,
  return_close, close_worker, Step, crm_step, email_step, signalled, all_closed, close_rejected,
  Reaches, here, next, idle, waiting_process,
}

-- A worker has no more jobs than it may, takes none that would be lost, and has none in progress
-- once `close` has returned.
pub record IsTidy (concurrency : ℕ) (v : Worker) : Type 0 where
  pub within : v.active ≤ concurrency
  pub drained : v.closed ≡ true → (v.closing ≡ true) × (v.active ≡ 0)

WorkerStep-IsTidy :
    (concurrency : ℕ) (v u : Worker)
    → WorkerStep concurrency v u
    → IsTidy concurrency v
    → IsTidy concurrency u
WorkerStep-IsTidy c v _ (take_job opened room) h = record {
  within = omega arith;
  drained = λ e. absurd (cc (opened, (h.drained e).0));
}
WorkerStep-IsTidy c v _ (finish_job n some_left) h = record {
  within = omega (arith, h.within);
  drained = λ e. ((h.drained e).0, omega (arith, (h.drained e).1));
}
WorkerStep-IsTidy c v _ (return_close shut empty) h = record {
  within = h.within;
  drained = λ e. (shut, empty);
}

close_worker-IsTidy : (c : ℕ) (v : Worker) → IsTidy c v → IsTidy c (close_worker v)
close_worker-IsTidy c v h = record { within = h.within; drained = λ e. (refl, (h.drained e).1) }

-- Both workers are tidy and closing once a signal has come, and the process has ended with 0 only
-- after both have closed.
pub record IsOrderly (p : Process) : Type 0 where
  pub crm_tidy : IsTidy crm_concurrency p.crm
  pub email_tidy : IsTidy email_concurrency p.email
  pub shut : p.was_signalled ≡ true → (p.crm.closing ≡ true) × (p.email.closing ≡ true)
  pub ended : p.exit ≡ some 0 → (p.crm.closed ≡ true) × (p.email.closed ≡ true)

WorkerStep-closing :
    (concurrency : ℕ) (v u : Worker)
    → WorkerStep concurrency v u
    → v.closing ≡ true
    → u.closing ≡ true
WorkerStep-closing c v _ (take_job opened room) h = h
WorkerStep-closing c v _ (finish_job n some_left) h = h
WorkerStep-closing c v _ (return_close shut empty) h = h

Step-IsOrderly : (p q : Process) → p.exit ≡ none → Step p q → IsOrderly p → IsOrderly q
Step-IsOrderly p _ running (crm_step {v} s) h = record {
  crm_tidy = WorkerStep-IsTidy crm_concurrency p.crm v s h.crm_tidy;
  email_tidy = h.email_tidy;
  shut = λ e. (WorkerStep-closing crm_concurrency p.crm v s (h.shut e).0, (h.shut e).1);
  ended = λ e. cc;
}
Step-IsOrderly p _ running (email_step {v} s) h = record {
  crm_tidy = h.crm_tidy;
  email_tidy = WorkerStep-IsTidy email_concurrency p.email v s h.email_tidy;
  shut = λ e. ((h.shut e).0, WorkerStep-closing email_concurrency p.email v s (h.shut e).1);
  ended = λ e. cc;
}
Step-IsOrderly p _ running signalled h = record {
  crm_tidy = close_worker-IsTidy crm_concurrency p.crm h.crm_tidy;
  email_tidy = close_worker-IsTidy email_concurrency p.email h.email_tidy;
  shut = λ e. (refl, refl);
  ended = h.ended;
}
Step-IsOrderly p _ running (all_closed c e) h = record {
  crm_tidy = h.crm_tidy;
  email_tidy = h.email_tidy;
  shut = h.shut;
  ended = λ _. (c, e);
}
Step-IsOrderly p _ running (close_rejected c) h = record {
  crm_tidy = h.crm_tidy;
  email_tidy = h.email_tidy;
  shut = h.shut;
  ended = λ e. cc;
}

Reaches-IsOrderly : (p q : Process) → Reaches p q → IsOrderly p → IsOrderly q
Reaches-IsOrderly p _ here h = h
Reaches-IsOrderly p q (next {q = m} run running s) h =
    Step-IsOrderly m q running s (Reaches-IsOrderly p m run h)

prepend : {p q r : Process} → p.exit ≡ none → Step p q → Reaches q r → Reaches p r
prepend running s here = next here running s
prepend running s (next run later t) = next (prepend running s run) later t

-- The CRM worker can finish its jobs and close.
crm_closes :
    (n : ℕ) (p : Process)
    → p.crm.active ≡ n
    → p.crm.closing ≡ true
    → p.exit ≡ none
    → (q : Process) × Reaches p q × (q.crm.closed ≡ true) × (q.email ≡ p.email) × (q.exit ≡ none)
crm_closes zero p empty shut running =
    (_, next here running (crm_step (return_close shut empty)), refl, refl, running)
crm_closes (suc n) p busy shut running =
    let (q, run, done, same, alive) =
      crm_closes n (record p { crm = record p.crm { active = n } }) refl shut running in
    (q, prepend running (crm_step (finish_job n busy)) run, done, same, alive)

-- So can the other.
email_closes :
    (n : ℕ) (p : Process)
    → p.email.active ≡ n
    → p.email.closing ≡ true
    → p.crm.closed ≡ true
    → p.exit ≡ none
    → (q : Process) × Reaches p q
      × (q.email.closed ≡ true)
      × (q.crm.closed ≡ true)
      × (q.exit ≡ none)
email_closes zero p empty shut other running =
    (_, next here running (email_step (return_close shut empty)), refl, other, running)
email_closes (suc n) p busy shut other running =
    let (q, run, done, same, alive) =
      email_closes n (record p { email = record p.email { active = n } }) refl shut other running in
    (q, prepend running (email_step (finish_job n busy)) run, done, same, alive)

Reaches-trans : (p q r : Process) → Reaches p q → Reaches q r → Reaches p r
Reaches-trans p q _ run here = run
Reaches-trans p q r run (next {q = m} more running s) =
    next (Reaches-trans p q m run more) running s

can_end :
    (p : Process)
    → p.exit ≡ none
    → p.crm.closing ≡ true
    → p.email.closing ≡ true
    → (q : Process) × Reaches p q × (q.exit ≡ some 0)
can_end p running shut shut' =
    let (q, run, crm_done, same, alive) = crm_closes p.crm.active p refl shut running in
    let (r, run', email_done, crm_done', alive') =
      email_closes q.email.active q refl (rw same shut') crm_done alive in
    (_, next (Reaches-trans p q r run run') alive' (all_closed crm_done' email_done), refl)

-- From its start on, the process works on at most five CRM jobs and ten emails at a time. When it
-- ends with 0, no job is in progress. And while it runs on after a signal, that end can be reached.
pub ends_drained :
    (q : Process)
    → Reaches waiting_process q
    → (q.crm.active ≤ 5)
      × (q.email.active ≤ 10)
      × (q.exit ≡ some 0 → (q.crm.active ≡ 0) × (q.email.active ≡ 0))
      × (q.exit ≡ none → q.was_signalled ≡ true → (r : Process) × Reaches q r × (r.exit ≡ some 0))
ends_drained q run =
    let idle_tidy : (c : ℕ) → IsTidy c idle =
      λ c. record { within = omega arith; drained = λ e. cc } in
    let h = Reaches-IsOrderly waiting_process q run (record {
      crm_tidy = idle_tidy crm_concurrency;
      email_tidy = idle_tidy email_concurrency;
      shut = λ e. cc;
      ended = λ e. cc;
    }) in
    (
      h.crm_tidy.within,
      h.email_tidy.within,
      λ e. ((h.crm_tidy.drained (h.ended e).0).1, (h.email_tidy.drained (h.ended e).1).1),
      λ running came. can_end q running (h.shut came).0 (h.shut came).1,
    )
