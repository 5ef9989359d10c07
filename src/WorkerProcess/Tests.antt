-- ===== src/WorkerProcess/Tests.antt =====
-- A signal arrives while one CRM job is in progress.
use property_platform_backen.Prelude.{◌≤◌, ◌≡◌, refl, true, false, none, some, arith}
use property_platform_backen.WorkerProcess.{
  Process, take_job, return_close, crm_step, email_step, signalled, Reaches, here, next,
  waiting_process,
}
use property_platform_backen.WorkerProcess.Shutdown.{ends_drained}

-- The process while the CRM job is still in progress.
abbrev draining : Process
draining = record {
  crm = record { active = 1; closing = true; closed = false };
  email = record { active = 0; closing = true; closed = true };
  was_signalled = true;
  exit = none;
}

abbrev one_job : Reaches waiting_process draining
one_job =
    next (next (next here refl (crm_step (take_job refl (omega arith)))) refl signalled) refl
      (email_step (return_close refl refl))

ends_drained_example :
    (draining.crm.active ≤ 5)
    × (draining.email.active ≤ 10)
    × (draining.exit ≡ some 0 → (draining.crm.active ≡ 0) × (draining.email.active ≡ 0))
    × (draining.exit ≡ none
        → draining.was_signalled ≡ true
        → (r : Process) × Reaches draining r × (r.exit ≡ some 0))
ends_drained_example = ends_drained draining one_job
