-- ===== src/WorkerProcess.antt =====
-- src/worker.ts: the process of the two workers, from its start to its end. `Worker.close` of
-- BullMQ takes no further job and returns when no job is in progress, as its documentation says,
-- and a promise that is rejected and not handled ends a process of Node with 1.
pub mod Shutdown
mod Tests
use property_platform_backen.Prelude.{ℕ, ◌+◌, ◌<◌, ◌≡◌, Bool, true, false, Option, none, some, suc}
use property_platform_backen.Effects.{Result, ok, err}
use property_platform_backen.Database.{World}
use property_platform_backen.Health.{verify_db_connection}

-- One of the workers: how many jobs it has in progress, and whether `close` was called and whether
-- it has returned.
pub record Worker : Type 0 where
  pub active : ℕ
  pub closing : Bool
  pub closed : Bool

-- The `concurrency` of the workers.
abbrev pub crm_concurrency : ℕ
crm_concurrency = 5

abbrev pub email_concurrency : ℕ
email_concurrency = 10

-- Both workers, whether SIGTERM or SIGINT has come, and the code of `process.exit`.
pub record Process : Type 0 where
  pub crm : Worker
  pub email : Worker
  pub was_signalled : Bool
  pub exit : Option ℕ

-- What happens to a worker.
pub data WorkerStep (concurrency : ℕ) (v : Worker) : Worker → Type 0 where
  take_job :
      v.closing ≡ false
      → v.active < concurrency
      → WorkerStep concurrency v (record v { active = v.active + 1 })
  finish_job : (n : ℕ) → v.active ≡ suc n → WorkerStep concurrency v (record v { active = n })
  return_close :
      v.closing ≡ true → v.active ≡ 0 → WorkerStep concurrency v (record v { closed = true })

abbrev pub close_worker : Worker → Worker
close_worker v = record v { closing = true }

-- What happens to a process that has not ended. `shutdown` calls `close` of both workers, and its
-- `Promise.all` returns when both have returned.
pub data Step (p : Process) : Process → Type 0 where
  crm_step : {v : Worker} → WorkerStep crm_concurrency p.crm v → Step p (record p { crm = v })
  email_step :
      {v : Worker} → WorkerStep email_concurrency p.email v → Step p (record p { email = v })
  signalled :
      Step p
        (record p { crm = close_worker p.crm; email = close_worker p.email; was_signalled = true })
  all_closed : p.crm.closed ≡ true → p.email.closed ≡ true → Step p (record p { exit = some 0 })
  close_rejected : p.crm.closing ≡ true → Step p (record p { exit = some 1 })

pub data Reaches (p : Process) : Process → Type 0 where
  here : Reaches p p
  next : {q r : Process} → Reaches p q → q.exit ≡ none → Step q r → Reaches p r

abbrev pub idle : Worker
idle = record { active = 0; closing = false; closed = false }

-- Both workers wait for jobs.
abbrev pub waiting_process : Process
waiting_process = record { crm = idle; email = idle; was_signalled = false; exit = none }

-- How `bootstrap` ends: the workers wait for jobs, or the process exits with 1.
abbrev started_workers : Result (Unit {0}) × World → Process × World
started_workers (ok u, w) = (waiting_process, w)
started_workers (err e, w) = (record waiting_process { exit = some 1 }, w)

unfoldable pub bootstrap : World → Process × World
bootstrap w = started_workers (verify_db_connection w)
