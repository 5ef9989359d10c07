-- ===== src/Concurrent/Invariant.antt =====
-- The rows that the requests hold, and what they have to do with each other and with the table.
use property_platform_backen.Prelude.{
  ℕ, ◌≡◌, ◌≢◌, sym, ap, ◌∙◌, true, false, Option, none, some, List, ◌∷◌, arith, inl, inr, ◌⊎◌, ◌==◌,
  Bool-cases, text_eq_iff,
}
use property_platform_backen.Database.{Enquiry, has_fingerprint}
use property_platform_backen.Database.Invariant.{HasDistinctFingerprints, ne_of_has_fingerprint}
use property_platform_backen.Concurrent.{
  Requests, Pc, ready, checked, inserted, stored, queued, done, failed, update, wanted,
}

-- The row of a request that is past its INSERT.
abbrev pub row_held : Pc → Option Enquiry
row_held (inserted e) = some e
row_held (stored e) = some e
row_held (queued e) = some e
row_held (done e) = some e
row_held _ = none

-- The row of a request that is past its COMMIT.
abbrev pub row_committed : Pc → Option Enquiry
row_committed (stored e) = some e
row_committed (queued e) = some e
row_committed (done e) = some e
row_committed _ = none

pub update_cases :
    (f : ℕ → Pc) (i : ℕ) (p : Pc) (j : ℕ)
    → ((i ≡ j) × (update f i p j ≡ p)) ⊎ ((i ≢ j) × (update f i p j ≡ f j))
unfolding update
update_cases f i p j = elim (Bool-cases (i == j)) [
  | inl h ↦ inl (ground arith, rw h)
  | inr h ↦ inr (ground arith, rw h)
]

pub held_of_committed : (p : Pc) (e : Enquiry) → row_committed p ≡ some e → row_held p ≡ some e
held_of_committed ready e h = cc
held_of_committed checked e h = cc
held_of_committed (inserted d) e h = cc
held_of_committed (stored d) e h = h
held_of_committed (queued d) e h = h
held_of_committed (done d) e h = h
held_of_committed (failed t) e h = cc

module _ (r : Requests) where
  -- Requests hold rows of different fingerprints, which are in the table once they are committed,
  -- and not before.
  pub record IsExclusive (rows : List Enquiry) (pc : ℕ → Pc) : Type 0 where
    pub own : (i : ℕ) (e : Enquiry) → row_held (pc i) ≡ some e → e.given ≡ wanted r i
    pub visible :
        (i : ℕ) (e : Enquiry)
        → row_committed (pc i) ≡ some e
        → has_fingerprint e.fingerprint rows ≡ true
    pub hidden :
        (i : ℕ) (e : Enquiry) → pc i ≡ inserted e → has_fingerprint e.fingerprint rows ≡ false
    pub apart :
        (i j : ℕ) (e d : Enquiry)
        → i ≢ j
        → row_held (pc i) ≡ some e
        → row_held (pc j) ≡ some d
        → e.fingerprint ≢ d.fingerprint
    pub distinct : HasDistinctFingerprints rows

  -- What the request `i` may turn to, beside the others as they are.
  pub record Suits (rows : List Enquiry) (pc : ℕ → Pc) (i : ℕ) (p : Pc) : Type 0 where
    pub own : (e : Enquiry) → row_held p ≡ some e → e.given ≡ wanted r i
    pub visible :
        (e : Enquiry) → row_committed p ≡ some e → has_fingerprint e.fingerprint rows ≡ true
    pub hidden : (e : Enquiry) → p ≡ inserted e → has_fingerprint e.fingerprint rows ≡ false
    pub apart :
        (j : ℕ) (e d : Enquiry)
        → i ≢ j
        → row_held p ≡ some e
        → row_held (pc j) ≡ some d
        → e.fingerprint ≢ d.fingerprint

  -- The requests other than `i` beside these rows.
  pub record Others (rows : List Enquiry) (pc : ℕ → Pc) (i : ℕ) : Type 0 where
    pub visible :
        (j : ℕ) (e : Enquiry)
        → i ≢ j
        → row_committed (pc j) ≡ some e
        → has_fingerprint e.fingerprint rows ≡ true
    pub hidden :
        (j : ℕ) (e : Enquiry)
        → i ≢ j
        → pc j ≡ inserted e
        → has_fingerprint e.fingerprint rows ≡ false
    pub distinct : HasDistinctFingerprints rows

  pub update-IsExclusive :
      (old rows : List Enquiry) (pc : ℕ → Pc) (i : ℕ) (p : Pc)
      → IsExclusive old pc
      → Others rows pc i
      → Suits rows pc i p
      → IsExclusive rows (update pc i p)
  update-IsExclusive old rows pc i p x o s = record {
    own = λ j e h. elim (update_cases pc i p j) [
      | inl (same, at) ↦ rw (← same) (s.own e (rw (← at) h))
      | inr (other, at) ↦ x.own j e (rw (← at) h)
    ];
    visible = λ j e h. elim (update_cases pc i p j) [
      | inl (same, at) ↦ s.visible e (rw (← at) h)
      | inr (other, at) ↦ o.visible j e other (rw (← at) h)
    ];
    hidden = λ j e h. elim (update_cases pc i p j) [
      | inl (same, at) ↦ s.hidden e (sym at ∙ h)
      | inr (other, at) ↦ o.hidden j e other (sym at ∙ h)
    ];
    apart = λ j k e d ne h g. elim (update_cases pc i p j) [
      | inl (same, at) ↦ elim (update_cases pc i p k) [
        | inl (same', at') ↦ absurd (ne (sym same ∙ same'))
        | inr (other', at') ↦ s.apart k e d other' (rw (← at) h) (rw (← at') g)
      ]
      | inr (other, at) ↦ elim (update_cases pc i p k) [
        | inl (same', at') ↦ λ q. s.apart j d e other (rw (← at') g) (rw (← at) h) (sym q)
        | inr (other', at') ↦ x.apart j k e d ne (rw (← at) h) (rw (← at') g)
      ]
    ];
    distinct = o.distinct;
  }

  -- A place without a row suits everywhere.
  pub none-Suits :
      (rows : List Enquiry) (pc : ℕ → Pc) (i : ℕ) (p : Pc) → row_held p ≡ none → Suits rows pc i p
  none-Suits rows pc i p no_row = record {
    own = λ e h. cc;
    visible = λ e h. cc (held_of_committed p e h);
    hidden = λ e h. cc (ap row_held h);
    apart = λ j e d ne h g. cc;
  }

  -- The place that the request has, or a later one with the same row.
  pub same-Suits :
      (old rows : List Enquiry) (pc : ℕ → Pc) (i : ℕ) (p : Pc) (e : Enquiry)
      → IsExclusive old pc
      → row_held (pc i) ≡ some e
      → row_committed p ≡ some e
      → has_fingerprint e.fingerprint rows ≡ true
      → Suits rows pc i p
  same-Suits old rows pc i p e x before after seen = record {
    own = λ d h. x.own i d (cc (held_of_committed p e after));
    visible = λ d h. cc;
    hidden = λ d h. cc (ap row_committed h);
    apart = λ j d c ne h g. x.apart i j d c ne (cc (held_of_committed p e after)) g;
  }

  pub unchanged-Others :
      (rows : List Enquiry) (pc : ℕ → Pc) (i : ℕ) → IsExclusive rows pc → Others rows pc i
  unchanged-Others rows pc i x = record {
    visible = λ j e ne h. x.visible j e h;
    hidden = λ j e ne h. x.hidden j e h;
    distinct = x.distinct;
  }

  -- The row of `i` in the table too.
  pub committed-Others :
      (rows : List Enquiry) (pc : ℕ → Pc) (i : ℕ) (e : Enquiry)
      → IsExclusive rows pc
      → pc i ≡ inserted e
      → Others (e ∷ rows) pc i
  unfolding has_fingerprint
  committed-Others rows pc i e x at = record {
    visible = λ j d ne h. rw (x.visible j d h) (ground arith);
    hidden = λ j d ne h. ground (
      arith,
      x.hidden j d h,
      text_eq_iff e.fingerprint d.fingerprint,
      x.apart i j e d ne (ap row_held at) (ap row_held h),
    );
    distinct = (ne_of_has_fingerprint e.fingerprint rows (x.hidden i e at), x.distinct);
  }
