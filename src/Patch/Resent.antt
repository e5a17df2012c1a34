-- ===== src/Patch/Resent.antt =====
-- staff/bookings/booking-patch.ts (auditedChanges, applyPatch): a form that is sent twice.
use valle_web_backend.Prelude.{
  ℕ, ◌≡◌, refl, String, Option, none, some, [], true, or_default, arith, eq_iff,
}
use valle_web_backend.Booking.{SlotKey, PayMode, BookingStatus, Booking}
use valle_web_backend.Pricing.Types.{Rate}
use valle_web_backend.Patch.{
  BookingPatch, PatchField, Value, number, text, same_value, slot_value, rate_value, pay_mode_value,
  status_value, field_change, audited_changes, apply_patch,
}

same_number : (n : ℕ) → same_value (number n) (number n) ≡ true
same_number n = ground arith

same_text : (s : String) → same_value (text s) (text s) ≡ true
same_text s = ground (arith, eq_iff s s)

same_slot_value : (s : SlotKey) → same_value (slot_value s) (slot_value s) ≡ true
same_slot_value SlotKey.morning = refl
same_slot_value SlotKey.afternoon = refl

same_rate_value : (r : Rate) → same_value (rate_value r) (rate_value r) ≡ true
same_rate_value Rate.rr = refl
same_rate_value Rate.nr = refl

same_pay_mode_value : (m : PayMode) → same_value (pay_mode_value m) (pay_mode_value m) ≡ true
same_pay_mode_value PayMode.gate = refl
same_pay_mode_value PayMode.online = refl

same_status_value : (s : BookingStatus) → same_value (status_value s) (status_value s) ≡ true
same_status_value BookingStatus.confirmed = refl
same_status_value BookingStatus.arrived = refl
same_status_value BookingStatus.cancelled = refl
same_status_value BookingStatus.postponed = refl

-- A field that was applied is not a change any more.
module _ {ℓ} {A : Type ℓ} (field : PatchField) (value : A → Value)
    (same : (a : A) → same_value (value a) (value a) ≡ true) where
  field_resent :
      (sent : Option A) (stored : A)
      → field_change field (value (or_default sent stored)) value sent ≡ []
  field_resent none stored = refl
  field_resent (some to) stored = rw (same to) refl

-- A form that is sent again after it was applied changes nothing, and so writes nothing into the trail,
-- where it sends neither lines nor an adjustment.
pub audited_changes-apply_patch :
    (b : Booking) (p : BookingPatch)
    → p.items ≡ none
    → p.adjustment_kind ≡ none
    → p.adjustment_value ≡ none
    → p.adjustment_note ≡ none
    → p.coupon_code ≡ none
    → audited_changes (apply_patch b p) p ≡ []
unfolding audited_changes apply_patch
audited_changes-apply_patch b p no_items no_kind no_value no_note no_code =
    rw
      (
        field_resent PatchField.visit_date number same_number p.visit_date b.visit_date,
        field_resent PatchField.slot slot_value same_slot_value p.slot b.slot,
        field_resent PatchField.adults number same_number p.adults b.adults,
        field_resent PatchField.kids number same_number p.kids b.kids,
        field_resent PatchField.infants number same_number p.infants b.infants,
        field_resent PatchField.rate rate_value same_rate_value p.rate b.rate,
        field_resent PatchField.guest_name text same_text p.guest_name b.guest_name,
        field_resent PatchField.phone text same_text p.phone b.phone,
        field_resent PatchField.email text same_text p.email b.email,
        field_resent PatchField.pay_mode pay_mode_value same_pay_mode_value p.pay_mode b.pay_mode,
        field_resent PatchField.status status_value same_status_value p.status b.status,
        field_resent PatchField.staff_note text same_text p.staff_note b.staff_note,
        no_items,
        no_kind,
        no_value,
        no_note,
        no_code,
      )
      refl
