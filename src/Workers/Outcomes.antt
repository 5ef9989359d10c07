-- ===== src/Workers/Outcomes.antt =====
-- What has happened to a job that is over.
use property_platform_backen.Prelude.{ℕ, ◌<◌, ◌≡◌, ◌≢◌, Text, List, [], ◌∷◌, All, length}
use property_platform_backen.Effects.{Result, ok, err, Exec}
use property_platform_backen.Database.{World, failed_job}
use property_platform_backen.Workers.{
  JobState, waiting, delayed, done, spent, buried, dropped, reason_of, turn,
}

-- What was seen of a job, the latest first: the results of its attempts, and the states before and
-- after the calls for the dead-letter queue.
pub record Log (A : Type 0) : Type 0 where
  pub results : List (Result A)
  pub letters : List (World × World)

abbrev pub IsFailed : {A : Type 0} → Result A → Type 0
IsFailed (ok a) = ⊥
IsFailed (err e) = Unit

module _ {A : Type 0} (process : ℕ → Exec World A) (queue job_id : Text) where
  abbrev noted : JobState A → World → Log A → Log A
  noted (waiting made) w g = record g { results = (process made w).0 ∷ g.results }
  noted (spent reason) w g = record g {
    letters = (w, (turn process queue job_id (spent reason) w).1) ∷ g.letters;
  }
  noted _ w g = g

  -- The log of the turns of a job, before each of which the rest of the system changes the state.
  unfoldable pub log : List (World → World) → Log A → JobState A × World → Log A
  log [] g (j, w) = g
  log (elsewhere ∷ rest) g (j, w) =
      log rest (noted j (elsewhere w) g) (turn process queue job_id j (elsewhere w))

  -- So many attempts have been made, and all have failed.
  pub record HasFailed (made : ℕ) (g : Log A) : Type 0 where
    pub failed : All IsFailed g.results
    pub counted : length g.results ≡ made
    pub unsent : g.letters ≡ []

  -- Three attempts have failed, the last one for this reason.
  pub record HasGivenUp (reason : Text) (results : List (Result A)) : Type 0 where
    pub failed : All IsFailed results
    pub counted : length results ≡ 3
    pub last :
        (e : _) × (earlier : List (Result A)) × (results ≡ err e ∷ earlier) × (reason ≡ reason_of e)

  -- What the log holds of a job that stands there.
  abbrev pub Told : JobState A → Log A → Type 0
  Told (waiting made) g = (made < 3) × HasFailed made g
  Told (delayed made due) g = (made < 3) × HasFailed made g
  Told (done a) g =
      (earlier : List (Result A)) × (g.results ≡ ok a ∷ earlier)
      × All IsFailed earlier
      × (length earlier < 3)
      × (g.letters ≡ [])
  Told (spent reason) g = HasGivenUp reason g.results × (g.letters ≡ [])
  Told buried g =
      (reason : Text) × HasGivenUp reason g.results
      × (v : World) × (u : World) × (g.letters ≡ (v, u) ∷ [])
      × (u.jobs ≡ failed_job queue job_id reason v.now ∷ v.jobs)
  Told dropped g =
      (reason : Text) × HasGivenUp reason g.results
      × (v : World) × (u : World) × (g.letters ≡ (v, u) ∷ [])
      × (v.faults ≢ [])

  -- What a call for the dead-letter queue does.
  abbrev LetterEnds : Text → World → Result (Unit {0}) × World → Type 0
  LetterEnds reason w (ok a, u) = u.jobs ≡ failed_job queue job_id reason w.now ∷ w.jobs
  LetterEnds reason w (err e, u) = w.faults ≢ []

-- Until when a turn would do nothing.
abbrev pub due_of : {A : Type 0} → JobState A → ℕ
due_of (delayed made due) = due
due_of _ = 0
