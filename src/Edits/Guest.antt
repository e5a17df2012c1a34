-- ===== src/Edits/Guest.antt =====
-- staff/bookings/staff-bookings.service.ts (guestCanChange, guestChange, guestCancel) with guestPatch and
-- checkGuestParty: a guest's own change, from the link of the ticket. The ticket's view and the messages
-- that follow are left out; whether the link's token is valid is an argument.
use valle_web_backend.Prelude.{
  ℕ, String, Option, none, some, List, [], ◌∷◌, Bool, false, ◌&&◌, not, map, filter, or_default,
  is_some, find, if◌then◌else◌, ltb, str_eq, ◌||◌,
}
use valle_web_backend.Prelude.Text.{concat, is_filled, or_empty, join}
use valle_web_backend.Prelude.Http.{
  Result, ok, err, bad_request, forbidden, not_found, ◌>>=◌, ◌>>◌, throw_if, or_throw,
}
use valle_web_backend.Day.{Day}
use valle_web_backend.Booking.{Time, SlotKey, BookingStatus, Booking, BookingLine}
use valle_web_backend.Payments.{Actor}
use valle_web_backend.Patch.{BookingPatch, PatchItem}
use valle_web_backend.Create.{LineInfo}
use valle_web_backend.Create.Party.{check_party}
use valle_web_backend.Edits.{UpdateBooking, Desk, Catalogue}
use valle_web_backend.Edits.Fitting.{of_booking}
use valle_web_backend.Edits.Update.{update}

abbrev pub guest : Actor
guest = record { id = none; email = "guest" }

-- GuestChangeDto
pub record GuestChange : Type 0 where
  pub visit_date : Option Day
  pub slot : Option SlotKey
  pub adults : Option ℕ
  pub kids : Option ℕ
  pub infants : Option ℕ
  pub items : Option (List PatchItem)

abbrev pub nothing_sent : BookingPatch
nothing_sent = record {
  visit_date = none;
  slot = none;
  adults = none;
  kids = none;
  infants = none;
  rate = none;
  guest_name = none;
  phone = none;
  email = none;
  pay_mode = none;
  status = none;
  staff_note = none;
  items = none;
  adjustment_kind = none;
  adjustment_value = none;
  adjustment_note = none;
  coupon_code = none;
}

abbrev pub sends : BookingPatch → UpdateBooking
sends patch = record { sent = patch; reason = none; override = false }

unfoldable pub require_booking : Bool → String → Desk → Result Booking
require_booking valid ref d =
    throw_if (not valid) (forbidden "This ticket link is not valid")
    >> or_throw (find (λ (b : Booking). str_eq b.ref_code ref) d.places.bookings)
        (not_found "No such booking")

-- A confirmed or postponed booking whose day has not passed.
unfoldable pub guest_can_change : Day → Booking → Result (Unit {0})
guest_can_change today b = elim b.status [
  | BookingStatus.cancelled ↦ err (bad_request "This booking is cancelled")
  | BookingStatus.arrived ↦
      err (bad_request "You have already checked in; ask the desk for any change")
  | BookingStatus.confirmed ↦
      throw_if (ltb b.visit_date today)
        (bad_request "This visit date has passed; call us to rebook")
  | BookingStatus.postponed ↦ ok tt
]

abbrev pub is_past : Day → Option Day → Bool
is_past today none = false
is_past today (some date) = ltb date today

-- A postponed booking that gets a date comes back.
abbrev pub status_for : BookingStatus → Option Day → Option BookingStatus
status_for BookingStatus.postponed (some date) = some BookingStatus.confirmed
status_for _ _ = none

unfoldable pub is_empty_change : GuestChange → Bool
is_empty_change dto =
    not (is_some dto.visit_date)
    && not (is_some dto.slot)
    && not (is_some dto.adults)
    && not (is_some dto.kids)
    && not (is_some dto.infants)
    && not (is_some dto.items)

-- The desk edit that the change amounts to.
unfoldable pub guest_patch : Day → Booking → GuestChange → Result UpdateBooking
guest_patch today b dto = do
  throw_if (is_past today dto.visit_date) (bad_request "visitDate cannot be in the past")
  throw_if (is_empty_change dto) (bad_request "Nothing to change")
  ok (
      sends (record nothing_sent {
        visit_date = dto.visit_date;
        slot = dto.slot;
        adults = dto.adults;
        kids = dto.kids;
        infants = dto.infants;
        status = status_for b.status dto.visit_date;
        items = dto.items;
      }))

abbrev pub key_of_line : BookingLine → String
key_of_line l = or_default l.experience_id (concat ("product:" ∷ or_empty l.product_key ∷ []))

abbrev pub counted_item : BookingLine → PatchItem
counted_item l = record {
  id = key_of_line l;
  variant = none;
  adults = some l.adults;
  kids = some l.kids;
  units = none;
  time = none;
}

-- `l.experienceId || l.productKey`
abbrev pub is_paid_line : BookingLine → Bool
is_paid_line l = is_filled (or_empty l.experience_id) || is_filled (or_empty l.product_key)

-- The new lines, or those that are kept, fit the new party.
unfoldable pub check_guest_party :
    (String → Option LineInfo) → Booking → GuestChange → List BookingLine → Result (Unit {0})
check_guest_party info b dto lines =
    check_party
      (or_default dto.items
        (map counted_item (filter (λ l. of_booking b.id l && is_paid_line l) lines)))
      (record {
        adults = or_default dto.adults b.adults;
        kids = or_default dto.kids b.kids;
        infants = some (or_default dto.infants b.infants);
      })
      info

abbrev pub cancel_note : String → String
cancel_note reason = concat (
    "Cancelled by the guest from the ticket page"
    ∷ (if is_filled reason then concat (": " ∷ reason ∷ []) else "")
    ∷ [])

abbrev pub note_after : Booking → String → String
note_after b reason = join "\n" (filter is_filled (b.staff_note ∷ cancel_note reason ∷ []))

module _ (cat : Catalogue) (today : Day) (now : Time) where
  unfoldable pub guest_change :
      (String → Option LineInfo) → Bool → String → GuestChange → Desk → Result Desk
  guest_change info valid ref dto d = do
    b ← require_booking valid ref d
    guest_can_change today b
    dto' ← guest_patch today b dto
    check_guest_party info b dto d.places.lines
    update cat today now ref dto' false none guest d

  unfoldable pub guest_cancel : Bool → String → String → Desk → Result Desk
  guest_cancel valid ref reason d = do
    b ← require_booking valid ref d
    guest_can_change today b
    update cat today now ref
        (sends (record nothing_sent {
          status = some BookingStatus.cancelled;
          staff_note = some (note_after b reason);
        }))
        false none guest d
