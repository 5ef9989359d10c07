-- ===== src/App/Reach.antt =====
-- The system as a whole: its requests, and what goes on between them.
use property_platform_backen.Prelude.{
  ◌+◌, ℕ, Text, Bool, true, false, List, codes, decimal, ◌++◌, none,
}
use property_platform_backen.Json.{Json}
use property_platform_backen.Effects.{pure}
use property_platform_backen.Effects.Keeps.{Keeps, Keeps-bind, Keeps-pure}
use property_platform_backen.Database.{Fault}
use property_platform_backen.Database.Invariant.{IsSound}
use property_platform_backen.Enquiries.Faulty.{mark_crm_synced-IsSound}
use property_platform_backen.Enquiries.{mark_crm_synced}
use property_platform_backen.Crm.{push_enquiry_to_crm}
use property_platform_backen.Redis.{Redis}
use property_platform_backen.Cache.{CacheEnvelope, Fetch, refresh_in_background}
use property_platform_backen.Idempotency.{Marker}
use property_platform_backen.Cms.{Posts}
use property_platform_backen.RateLimiter.{Counters}
use property_platform_backen.Workers.{sync_process}
use property_platform_backen.App.{Settings, Request, Route}
use property_platform_backen.App.Site.{Site, handle_request}
use property_platform_backen.App.Kept.{handle_request-Keeps}
use property_platform_backen.App.Invariants.{IsKept-IsSound}

module _ (counters : Counters) (markers : Redis Marker) (pages : Redis (CacheEnvelope Posts))
    (posts : Redis (CacheEnvelope Json)) (settings : Settings) where
  abbrev State : Type 0
  State = Site counters markers pages posts

  -- What can happen to the state: a request is handled, a refresh of the cache ends, a worker
  -- attempts the sync of an enquiry, or time passes, after which other calls may fail.
  pub data Step : State → State → Type 0 where
    requested :
        (req : Request) (route : Route) (s : State)
        → Step s (handle_request counters markers pages posts settings req route s).1
    page_refreshed :
        (key : Text) (fetch : Fetch Posts) (s : State)
        → Step s (record s { page_cache = refresh_in_background pages key fetch s.page_cache })
    post_refreshed :
        (key : Text) (fetch : Fetch Json) (s : State)
        → Step s (record s { post_cache = refresh_in_background posts key fetch s.post_cache })
    attempted :
        (fails : ℕ → Bool) (enquiry_id made : ℕ) (s : State)
        → Step s (record s { world = (sync_process fails enquiry_id made s.world).1 })
    passed_time :
        (t : ℕ) (faults : List Fault) (s : State)
        → Step s (record s { world = record s.world { now = t; faults = faults } })

  -- Any number of steps.
  pub data Reaches (s : State) : State → Type 0 where
    here : Reaches s s
    then_step : {t u : State} → Reaches s t → Step t u → Reaches s u

  synced-IsSound :
      (fails : Bool) (enquiry_id : ℕ) → Keeps IsSound (push_enquiry_to_crm fails enquiry_id)
  unfolding push_enquiry_to_crm
  synced-IsSound true enquiry_id = record {
    at = λ w h. record { now_sound = h.now_sound; saved_sound = h.saved_sound };
  }
  synced-IsSound false enquiry_id = record {
    at = λ w h.
        let later : IsSound (record w { now = w.now + 150 }) = record {
          now_sound = h.now_sound;
          saved_sound = h.saved_sound;
        } in
        let answered = record w { now = w.now + 150 } in
        let record_id = codes "crm_" ++ decimal enquiry_id ++ codes "_" ++ decimal answered.now in
        let marked : Keeps IsSound (mark_crm_synced enquiry_id record_id none) = record {
          at = mark_crm_synced-IsSound enquiry_id record_id none;
        } in
        (Keeps-bind (mark_crm_synced enquiry_id record_id none) (λ u. pure record_id) marked
            (λ _. Keeps-pure record_id)).at
          answered later;
  }

  Step-IsSound : {s t : State} → Step s t → IsSound s.world → IsSound t.world
  unfolding sync_process
  Step-IsSound (requested req route s) h =
      handle_request-Keeps IsSound IsKept-IsSound counters markers pages posts settings req route s
        h
  Step-IsSound (page_refreshed key fetch s) h = h
  Step-IsSound (post_refreshed key fetch s) h = h
  Step-IsSound (attempted fails enquiry_id made s) h =
      (synced-IsSound (fails made) enquiry_id).at s.world h
  Step-IsSound (passed_time t faults s) h = record {
    now_sound = h.now_sound;
    saved_sound = h.saved_sound;
  }

  -- Whatever requests, refreshes of the cache and attempts of the workers follow each other, and
  -- whichever calls fail, in every state that the system reaches the ids and the fingerprints of
  -- the enquiries are distinct, the ids are below the next one, and each enquiry's property is in
  -- its table, if they are at first.
  pub reached-IsSound : {s t : State} → Reaches s t → IsSound s.world → IsSound t.world
  reached-IsSound here h = h
  reached-IsSound (then_step path step) h = Step-IsSound step (reached-IsSound path h)
