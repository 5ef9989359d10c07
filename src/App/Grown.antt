-- ===== src/App/Grown.antt =====
-- That one enquiry adds at most one row.
use property_platform_backen.Prelude.{◌+◌, ◌≤◌, ◌≡◌, refl, inl, inr, Text, length, Bool, arith}
use property_platform_backen.Errors.{Response}
use property_platform_backen.Effects.{Result, ok, err, pure, continue}
use property_platform_backen.Hash.{Platform}
use property_platform_backen.Database.{World}
use property_platform_backen.Enquiries.{CreateEnquiryInput, CreateEnquiryContext, create_enquiry}
use property_platform_backen.Enquiries.Atomic.{create_enquiry_atomic}
use property_platform_backen.EnquiryApi.{respond, created_body, create_enquiry_handler}
use property_platform_backen.App.{Settings}
use property_platform_backen.App.Invariants.{IsIdle}

-- At most one row more.
abbrev pub Grown : World → World → Type 0
Grown w u = length u.enquiries ≤ length w.enquiries + 1

pub created_Grown :
    (platform : Platform) (input : CreateEnquiryInput) (ctx : CreateEnquiryContext) (w : World)
    → IsIdle w
    → Grown w (create_enquiry platform input ctx w).1
created_Grown platform input ctx w idle = elim (create_enquiry_atomic platform input ctx w idle).0 [
  | inl refused ↦ rw (refused.same) (omega arith)
  | inr added ↦ rw (added.added) (omega arith)
]

pub world-continue-pure :
    {A : Type 0} (f : A → Response) (r : Result A × World) → (continue (λ a. pure (f a)) r).1 ≡ r.1
unfolding continue
world-continue-pure f (ok a, w) = refl
world-continue-pure f (err e, w) = refl

pub validated_Grown :
    (settings : Settings) (ctx : CreateEnquiryContext) (r : Result CreateEnquiryInput) (w : World)
    → IsIdle w
    → Grown w
        (continue (λ input. create_enquiry_handler settings.setup.platform input ctx) (r, w)).1
unfolding continue create_enquiry_handler
validated_Grown settings ctx (ok input) w idle =
    rw
      (world-continue-pure (λ e. record { status = 201; body = created_body e })
        (create_enquiry settings.setup.platform input ctx w))
      (created_Grown settings.setup.platform input ctx w idle)
validated_Grown settings ctx (err e) w idle = omega arith

pub responded_Grown :
    (is_prod : Bool) (id : Text) (w : World) (r : Result Response × World)
    → Grown w r.1
    → Grown w (respond is_prod id r).1
unfolding respond
responded_Grown is_prod id w (ok res, u) h = h
responded_Grown is_prod id w (err e, u) h = h
