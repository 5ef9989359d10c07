-- ===== src/App/Invariants.antt =====
-- Two properties that every operation keeps: that the database is sound, and that no transaction is
-- open.
use property_platform_backen.Prelude.{
  ℕ, Option, arith, ◌≡◌, ◌+◌, Text, Bool, true, false, not, none,
}
use property_platform_backen.Effects.{modify}
use property_platform_backen.Effects.Keeps.{Keeps, if_inv}
use property_platform_backen.Database.{
  World, Status, NewEvent, insert_event, event_fits, refers, event_stored, update_synced,
}
use property_platform_backen.Database.Faults.{Keeps-call}
use property_platform_backen.Database.Invariant.{IsSound}
use property_platform_backen.Enquiries.{mark_crm_synced}
use property_platform_backen.Enquiries.Atomic.{create_enquiry_atomic}
use property_platform_backen.Enquiries.Faulty.{create_enquiry-IsSound, mark_crm_synced-IsSound}
use property_platform_backen.Crm.{Setup, counted}
use property_platform_backen.App.Handlers.{IsKept}

insert_event-IsSound :
    (is_json : Text → Bool) (r : NewEvent) → Keeps IsSound (insert_event is_json r)
unfolding insert_event
insert_event-IsSound is_json r = record {
  at = λ w h.
      let kept : IsSound (record w { next_event_id = w.next_event_id + 1 }) = record {
        now_sound = h.now_sound;
        saved_sound = h.saved_sound;
      } in
      let logged : IsSound (event_stored r w) = record {
        now_sound = record {
          fresh = h.now_sound.fresh;
          descending = h.now_sound.descending;
          distinct = h.now_sound.distinct;
          referenced = h.now_sound.referenced;
        };
        saved_sound = h.saved_sound;
      } in
      if_inv IsSound (not (is_json r.raw_payload)) _ _ h (
        if_inv IsSound (not (event_fits r)) _ _ h
          (if_inv IsSound (not (refers r.enquiry_id w.enquiries)) _ _ kept logged));
}

counted-IsSound : (setup : Setup) (valid : Bool) → Keeps IsSound (modify (counted setup valid))
counted-IsSound setup true = record {
  at = λ w h. record { now_sound = h.now_sound; saved_sound = h.saved_sound };
}
counted-IsSound setup false = record {
  at = λ w h. record { now_sound = h.now_sound; saved_sound = h.saved_sound };
}

pub IsKept-IsSound : IsKept IsSound
IsKept-IsSound = record {
  failing = λ fs w h. record { now_sound = h.now_sound; saved_sound = h.saved_sound };
  creation = λ platform input ctx. record { at = create_enquiry-IsSound platform input ctx };
  sync = λ id record_id status. record { at = mark_crm_synced-IsSound id record_id status };
  event = insert_event-IsSound;
  count = counted-IsSound;
}

-- No transaction is open.
abbrev pub IsIdle : World → Type 0
IsIdle w = w.saved ≡ none

update_synced-IsIdle :
    (id : ℕ) (record_id : Text) (status : Option Status)
    → Keeps IsIdle (update_synced id record_id status)
unfolding update_synced
update_synced-IsIdle id record_id status = record { at = λ w h. ground arith }

insert_event-IsIdle : (is_json : Text → Bool) (r : NewEvent) → Keeps IsIdle (insert_event is_json r)
unfolding insert_event
insert_event-IsIdle is_json r = record { at = λ w h. ground arith }

counted-IsIdle : (setup : Setup) (valid : Bool) → Keeps IsIdle (modify (counted setup valid))
counted-IsIdle setup true = record { at = λ w h. h }
counted-IsIdle setup false = record { at = λ w h. h }

mark_crm_synced-IsIdle :
    (id : ℕ) (record_id : Text) (status : Option Status)
    → Keeps IsIdle (mark_crm_synced id record_id status)
unfolding mark_crm_synced
mark_crm_synced-IsIdle id record_id status =
    Keeps-call _ (λ fs w h. h) (update_synced-IsIdle id record_id status)

pub IsKept-IsIdle : IsKept IsIdle
IsKept-IsIdle = record {
  failing = λ fs w h. h;
  creation =
      λ platform input ctx. record { at = λ w h. (create_enquiry_atomic platform input ctx w h).1 };
  sync = mark_crm_synced-IsIdle;
  event = insert_event-IsIdle;
  count = counted-IsIdle;
}
