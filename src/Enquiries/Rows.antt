-- ===== src/Enquiries/Rows.antt =====
-- How the function of the transaction of `createEnquiry` ends, whichever of its calls fail.
use property_platform_backen.Prelude.{
  ℕ, ◌≡◌, refl, ap, Option, some, List, [], ◌∷◌, inl, inr, arith, head?, Bool-cases,
}
use property_platform_backen.Effects.{Result, ok, err, pure, continue, ◌>>=◌, ◌>>◌, raise_if}
use property_platform_backen.Hash.{Platform}
use property_platform_backen.Database.{
  World, Fault, Property, Enquiry, call, select_published, insert_enquiry, select_enquiry, row_of,
  stored, columns_fit, has_fingerprint, has_property,
}
use property_platform_backen.Database.Faults.{at, call_cases}
use property_platform_backen.Transaction.Atomic.{IsLocal}
use property_platform_backen.Enquiries.{
  CreateEnquiryInput, CreateEnquiryContext, is_empty, values, create_row, property_missing,
}

-- `u` is `v` but for the tables, the next id and the faults.
abbrev pub Framed : World → World → Type 0
Framed v u =
    u ≡ record v { tables = u.tables; next_enquiry_id = u.next_enquiry_id; faults = u.faults }

module _ (platform : Platform) (input : CreateEnquiryInput) (ctx : CreateEnquiryContext) where
  -- How `create_row` can end from `v`: with an error, or with the row that it has stored.
  abbrev pub RowEnds : World → Result (Option Enquiry) × World → Type 0
  RowEnds v (ok o, u) =
      Framed v u
      × (o ≡ some (row_of (values platform input ctx) v))
      × (u.tables ≡ (stored (values platform input ctx) v).tables)
  RowEnds v (err e, u) = Framed v u

  pub framed : (v : World) (r : Result (Option Enquiry) × World) → RowEnds v r → Framed v r.1
  framed v (ok o, u) h = h.0
  framed v (err e, u) h = h

  abbrev InsertEnds : World → Result ℕ × World → Type 0
  InsertEnds v (ok id, u) = (id ≡ v.next_enquiry_id) × (u ≡ stored (values platform input ctx) v)
  InsertEnds v (err e, u) = Framed v u

  insert_enquiry_ends : (v : World) → InsertEnds v (insert_enquiry (values platform input ctx) v)
  unfolding insert_enquiry
  insert_enquiry_ends v = elim (Bool-cases (columns_fit (values platform input ctx))) [
    | inr long ↦ rw long refl
    | inl fit ↦
        elim (Bool-cases (has_fingerprint (values platform input ctx).fingerprint v.enquiries)) [
          | inl taken ↦ rw (fit, taken) refl
          | inr free ↦ elim (Bool-cases (has_property input.property_id v.properties)) [
            | inl known ↦ rw (fit, free, known) (refl, refl)
            | inr unknown ↦ rw (fit, free, unknown) refl
          ]
        ]
  ]

  module _ (v : World) where
    -- The second SELECT, behind an INSERT that stored the row.
    selected :
        (gs : List Fault)
        → RowEnds v (
            (call (select_enquiry v.next_enquiry_id) >>= λ rows. pure (head? rows))
              (at gs (stored (values platform input ctx) v)))
    unfolding select_enquiry continue
    selected gs =
        call_cases (λ r. RowEnds v (continue (λ (rows : List Enquiry). pure (head? rows)) r))
          (select_enquiry v.next_enquiry_id) (at gs (stored (values platform input ctx) v))
          (λ hs. (refl, (ground arith), refl)) (λ hs. refl) (λ hs. refl)

    inserted :
        (fs : List Fault) (r : Result ℕ × World)
        → InsertEnds (at fs v) r
        → RowEnds v (continue (λ id. call (select_enquiry id) >>= λ rows. pure (head? rows)) r)
    unfolding continue
    inserted fs (ok id, u) (same, e) = rw (same, e) (selected fs)
    inserted fs (err x, u) h = h

    insert_lost : (fs : List Fault) (r : Result ℕ × World) → InsertEnds (at fs v) r → Framed v r.1
    insert_lost fs (ok id, u) (same, e) = rw e refl
    insert_lost fs (err x, u) h = h

    checked :
        (found : List Property) (fs : List Fault)
        → RowEnds v (
            (raise_if (is_empty found) (property_missing input.property_id)
                >> (call (insert_enquiry (values platform input ctx)) >>= λ id.
                    call (select_enquiry id) >>= λ rows. pure (head? rows)))
              (at fs v))
    unfolding continue
    checked [] fs = refl
    checked (p ∷ ps) fs =
        call_cases
          (λ r.
            RowEnds v (continue (λ id. call (select_enquiry id) >>= λ rows. pure (head? rows)) r))
          (insert_enquiry (values platform input ctx)) (at fs v)
          (λ gs. inserted gs _ (insert_enquiry_ends (at gs v))) (λ gs. refl)
          (λ gs. insert_lost gs _ (insert_enquiry_ends (at gs v)))

    pub create_row_ends : RowEnds v (create_row platform input ctx v)
    unfolding create_row select_published
    create_row_ends =
        call_cases
          (λ r. RowEnds v (
            continue
              (λ found.
                raise_if (is_empty found) (property_missing input.property_id)
                >> (call (insert_enquiry (values platform input ctx)) >>= λ id.
                    call (select_enquiry id) >>= λ rows. pure (head? rows)))
              r))
          (select_published input.property_id) v (λ gs. checked _ gs) (λ gs. refl) (λ gs. refl)

  -- The function of the transaction touches neither the snapshot nor the pool.
  pub create_row-IsLocal : IsLocal (create_row platform input ctx)
  create_row-IsLocal = record {
    saved = λ v. ap (λ u. u.saved) (framed v _ (create_row_ends v));
    leased = λ v. ap (λ u. u.leased) (framed v _ (create_row_ends v));
  }
