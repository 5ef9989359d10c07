-- ===== src/Database/Invariant.antt =====
-- What every state of the database satisfies, and that each SQL statement of the program keeps it.
use property_platform_backen.Prelude.{
  ℕ, ◌+◌, ◌<◌, ◌≡◌, ◌≢◌, Text, true, false, Option, none, some, List, [], ◌∷◌, text_eq_iff, All,
  All-map, Bool-cases, inl, inr, arith, not, ◌&&◌, codes,
}
use property_platform_backen.Effects.{Exec, ok, err}
use property_platform_backen.Effects.Keeps.{Keeps, if_inv}
use property_platform_backen.Database.{
  World, Tables, Enquiry, NewEnquiry, Status, Fault, stored, used_id, call, insert_enquiry,
  select_enquiry, select_published, select_joined, update_synced, synced, map_rows, has_fingerprint,
  has_property, has_enquiry, columns_fit, fits, mysql_error,
}
use property_platform_backen.Database.Faults.{at, Keeps-call}

-- Every id is above those behind it: the ids are distinct, and the newest row comes first.
abbrev pub IsDescending : List Enquiry → Type 0
IsDescending [] = Unit
IsDescending (e ∷ es) = All (λ o. o.id < e.id) es × IsDescending es

-- The unique index on `fingerprint`.
abbrev pub HasDistinctFingerprints : List Enquiry → Type 0
HasDistinctFingerprints [] = Unit
HasDistinctFingerprints (e ∷ es) =
    All (λ o. o.fingerprint ≢ e.fingerprint) es × HasDistinctFingerprints es

pub record IsWellFormed (t : Tables) (next : ℕ) : Type 0 where
  pub fresh : All (λ e. e.id < next) t.enquiries
  pub descending : IsDescending t.enquiries
  pub distinct : HasDistinctFingerprints t.enquiries
  pub referenced : All (λ e. has_property e.property_id t.properties ≡ true) t.enquiries

abbrev pub SavedIsWellFormed : Option Tables → ℕ → Type 0
SavedIsWellFormed none next = Unit
SavedIsWellFormed (some t) next = IsWellFormed t next

-- The tables are well formed, and so are those that a rollback would restore.
pub record IsSound (w : World) : Type 0 where
  pub now_sound : IsWellFormed w.tables w.next_enquiry_id
  pub saved_sound : SavedIsWellFormed w.saved w.next_enquiry_id

IsWellFormed-suc : {t : Tables} {n : ℕ} → IsWellFormed t n → IsWellFormed t (n + 1)
IsWellFormed-suc {t} {n} h = record {
  fresh = All-map t.enquiries (λ e p. omega arith) h.fresh;
  descending = h.descending;
  distinct = h.distinct;
  referenced = h.referenced;
}

SavedIsWellFormed-suc :
    (s : Option Tables) (n : ℕ) → SavedIsWellFormed s n → SavedIsWellFormed s (n + 1)
SavedIsWellFormed-suc none n h = tt
SavedIsWellFormed-suc (some t) n h = IsWellFormed-suc h

pub ne_of_has_fingerprint :
    (f : Text) (es : List Enquiry) → has_fingerprint f es ≡ false → All (λ o. o.fingerprint ≢ f) es
unfolding has_fingerprint
ne_of_has_fingerprint f [] h = tt
ne_of_has_fingerprint f (e ∷ es) h =
    ground (arith, text_eq_iff e.fingerprint f, ne_of_has_fingerprint f es)

stored-IsSound :
    (r : NewEnquiry) (w : World)
    → has_fingerprint r.fingerprint w.enquiries ≡ false
    → has_property r.property_id w.properties ≡ true
    → IsSound w
    → IsSound (stored r w)
stored-IsSound r w free known h =
    let t = IsWellFormed-suc h.now_sound in
    record {
      now_sound = record {
        fresh = (omega arith, t.fresh);
        descending = (h.now_sound.fresh, h.now_sound.descending);
        distinct = (ne_of_has_fingerprint r.fingerprint w.enquiries free, h.now_sound.distinct);
        referenced = (known, h.now_sound.referenced);
      };
      saved_sound = SavedIsWellFormed-suc w.saved w.next_enquiry_id h.saved_sound;
    }

used_id-IsSound : (w : World) → IsSound w → IsSound (used_id w)
used_id-IsSound w h = record {
  now_sound = IsWellFormed-suc h.now_sound;
  saved_sound = SavedIsWellFormed-suc w.saved w.next_enquiry_id h.saved_sound;
}

at-IsSound : (fs : List Fault) (w : World) → IsSound w → IsSound (at fs w)
at-IsSound fs w h = record { now_sound = h.now_sound; saved_sound = h.saved_sound }

pub insert_enquiry-IsSound : (r : NewEnquiry) → Keeps IsSound (insert_enquiry r)
unfolding insert_enquiry
insert_enquiry-IsSound r = record {
  at = λ w h. elim (Bool-cases (columns_fit r)) [
    | inr long ↦ rw long h
    | inl fit ↦ elim (Bool-cases (has_fingerprint r.fingerprint w.enquiries)) [
      | inl taken ↦ rw (fit, taken) (used_id-IsSound w h)
      | inr free ↦ elim (Bool-cases (has_property r.property_id w.properties)) [
        | inl known ↦ rw (fit, free, known) (stored-IsSound r w free known h)
        | inr unknown ↦ rw (fit, free, unknown) (used_id-IsSound w h)
      ]
    ]
  ];
}

-- An update that changes neither id nor fingerprint nor property.
module _ (f : Enquiry → Enquiry)
    (same : (e : Enquiry)
      → ((f e).id ≡ e.id)
        × ((f e).fingerprint ≡ e.fingerprint)
        × ((f e).property_id ≡ e.property_id)) where
  All-map_rows :
      (P Q : Enquiry → Type 0)
      → ((e : Enquiry) → P e → Q (f e))
      → (es : List Enquiry) → All P es
      → All Q (map_rows f es)
  unfolding map_rows
  All-map_rows P Q k [] h = tt
  All-map_rows P Q k (e ∷ es) h = (k e h.0, All-map_rows P Q k es h.1)

  IsDescending-map_rows : (es : List Enquiry) → IsDescending es → IsDescending (map_rows f es)
  unfolding map_rows
  IsDescending-map_rows [] h = tt
  IsDescending-map_rows (e ∷ es) h = (
    All-map_rows _ _ (λ o p. omega (arith, (same o).0, (same e).0)) es h.0,
    IsDescending-map_rows es h.1,
  )

  distinct-map_rows :
      (es : List Enquiry) → HasDistinctFingerprints es → HasDistinctFingerprints (map_rows f es)
  unfolding map_rows
  distinct-map_rows [] h = tt
  distinct-map_rows (e ∷ es) h =
      (All-map_rows _ _ (λ o p. rw ((same o).1, (same e).1) p) es h.0, distinct-map_rows es h.1)

  IsWellFormed-map_rows :
      (t : Tables) (n : ℕ)
      → IsWellFormed t n
      → IsWellFormed (record t { enquiries = map_rows f t.enquiries }) n
  IsWellFormed-map_rows t n h = record {
    fresh = All-map_rows _ _ (λ o p. omega (arith, (same o).0)) t.enquiries h.fresh;
    descending = IsDescending-map_rows t.enquiries h.descending;
    distinct = distinct-map_rows t.enquiries h.distinct;
    referenced = All-map_rows _ _ (λ o p. rw ((same o).2) p) t.enquiries h.referenced;
  }

synced_same :
    (id : ℕ) (record_id : Text) (status : Option Status) (now : ℕ) (e : Enquiry)
    → ((synced id record_id status now e).id ≡ e.id)
      × ((synced id record_id status now e).fingerprint ≡ e.fingerprint)
      × ((synced id record_id status now e).property_id ≡ e.property_id)
unfolding synced
synced_same id record_id status now e = ground arith

pub update_synced-IsSound :
    (id : ℕ) (record_id : Text) (status : Option Status)
    → Keeps IsSound (update_synced id record_id status)
unfolding update_synced
update_synced-IsSound id record_id status = record {
  at = λ w h.
      if_inv IsSound (has_enquiry id w.enquiries && not (fits 100 (some record_id)))
        (err (mysql_error 1406 (codes "ER_DATA_TOO_LONG")), w)
        (
          ok tt,
          record w {
            tables = record w.tables {
              enquiries = map_rows (synced id record_id status w.now) w.enquiries;
            };
          },
        )
        h
        (record {
          now_sound =
              IsWellFormed-map_rows (synced id record_id status w.now)
                (synced_same id record_id status w.now) w.tables w.next_enquiry_id h.now_sound;
          saved_sound = h.saved_sound;
        });
}

-- What a call keeps, whatever its fault.
pub call-IsSound : {A : Type 0} (op : Exec World A) → Keeps IsSound op → Keeps IsSound (call op)
call-IsSound op k = Keeps-call op at-IsSound k

pub select_published-IsSound : (id : ℕ) → Keeps IsSound (select_published id)
unfolding select_published
select_published-IsSound id = record { at = λ w h. h }

pub select_enquiry-IsSound : (id : ℕ) → Keeps IsSound (select_enquiry id)
unfolding select_enquiry
select_enquiry-IsSound id = record { at = λ w h. h }

pub select_joined-IsSound : (id : ℕ) → Keeps IsSound (select_joined id)
unfolding select_joined
select_joined-IsSound id = record { at = λ w h. h }
