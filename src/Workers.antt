-- ===== src/Workers.antt =====
-- The workers: src/queues/queue.config.ts, src/queues/crmSync.worker.ts and
-- src/queues/email.worker.ts. What BullMQ does with a job between the calls of its processor is
-- modelled as its documentation says: a job that fails is delayed and tried again until its
-- attempts are used up, and only then a `failed` event reaches the queue's listeners. An attempt
-- takes the time that its processor waits, and the clock counts milliseconds.
pub mod Turns
pub mod Outcomes
pub mod Retries
pub mod Journey
mod Tests
use property_platform_backen.Prelude.{
  ℕ, ◌+◌, ◌-◌, ◌*◌, ◌^◌, Text, codes, decimal, Bool, true, false, none, List, [], ◌∷◌, ◌++◌, leb,
  ltb, if◌then◌else◌,
}
use property_platform_backen.Errors.{Thrown, app_error, validation_error, other_error}
use property_platform_backen.Effects.{Result, ok, err, Exec, pure, raise, modify}
use property_platform_backen.Database.{World, Job, failed_job, call}
use property_platform_backen.Crm.{push_enquiry_to_crm}

-- `defaultJobOptions`
abbrev pub max_attempts : ℕ
max_attempts = 3

abbrev pub base_delay : ℕ
base_delay = 1000

-- The exponential backoff after so many attempts.
unfoldable pub backoff : ℕ → ℕ
backoff made = base_delay * 2 ^ (made - 1)

-- `err.message`
abbrev pub reason_of : Thrown → Text
reason_of (app_error e) = e.message
reason_of (validation_error e details) = e.message
reason_of (other_error errno code message) = message

-- Where a job stands: with so many attempts made it waits for one, or is delayed until a time; it
-- is done; its attempts are spent; and then it has reached the dead-letter queue or not.
pub data JobState (A : Type 0) : Type 0 where
  waiting : ℕ → JobState A
  delayed : ℕ → ℕ → JobState A
  done : A → JobState A
  spent : Text → JobState A
  buried : JobState A
  dropped : JobState A

-- `sendToDeadLetter`, as the listener of `attachDeadLetterHandler` calls it: with the id of the job
-- in place of its name, and with no other data.
unfoldable pub send_to_dead_letter : Text → Text → Text → Exec World Unit
send_to_dead_letter queue job_id reason =
    call (modify (λ w. record w { jobs = failed_job queue job_id reason w.now ∷ w.jobs }))

module _ {A : Type 0} (process : ℕ → Exec World A) (queue job_id : Text) where
  after_attempt : ℕ → Result A × World → JobState A × World
  after_attempt made (ok a, w) = (done a, w)
  after_attempt made (err e, w) = (
    if ltb (made + 1) max_attempts
        then delayed (made + 1) (w.now + backoff (made + 1))
        else spent (reason_of e),
    w,
  )

  after_letter : Result (Unit {0}) × World → JobState A × World
  after_letter (ok u, w) = (buried, w)
  after_letter (err e, w) = (dropped, w)

  -- One turn of the job: an attempt, the end of a delay, or the `failed` event.
  unfoldable pub turn : JobState A → World → JobState A × World
  unfolding after_attempt after_letter
  turn (waiting made) w = after_attempt made (process made w)
  turn (delayed made due) w = (if leb due w.now then waiting made else delayed made due, w)
  turn (spent reason) w = after_letter (send_to_dead_letter queue job_id reason w)
  turn (done a) w = (done a, w)
  turn buried w = (buried, w)
  turn dropped w = (dropped, w)

-- The processor of `crmSyncWorker`, where `fails` says which attempts the simulated CRM fails.
unfoldable pub sync_process : (ℕ → Bool) → ℕ → ℕ → Exec World Text
sync_process fails enquiry_id made = push_enquiry_to_crm (fails made) enquiry_id

-- The data of an email, by its template.
pub data EmailJob : Type 0 where
  enquiry_confirmation : Text → ℕ → EmailJob
  crm_status_update : Text → EmailJob

pub record Email : Type 0 where
  pub subject : Text
  pub body : Text

-- `templates`
unfoldable pub render : EmailJob → Email
render (enquiry_confirmation full_name enquiry_id) = record {
  subject = codes "We received your enquiry";
  body =
      codes "Hi "
      ++ (full_name
          ++ (codes ", thanks for your enquiry (#"
              ++ (decimal enquiry_id ++ codes "). Our team will reach out shortly.")));
}
render (crm_status_update status) = record {
  subject = codes "Update on your enquiry";
  body = codes "Hi, your enquiry status changed to \"" ++ (status ++ codes "\".");
}

-- The processor of `emailWorker`: the simulated server fails or not after 50 ms.
unfoldable pub email_process : (ℕ → Bool) → EmailJob → ℕ → Exec World Email
email_process fails job made w =
    let answered = record w { now = w.now + 50 } in
    if fails made
    then raise (other_error none none (codes "Simulated SMTP timeout")) answered
    else pure (render job) answered
