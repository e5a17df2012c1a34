-- ===== src/Create/Run.antt =====
-- bookings/bookings.service.ts (create) with staff/bookings/staff-bookings.service.ts (update, postpone,
-- guestChange, guestCancel): the figures of the bookings, whatever calls follow one another.
use valle_web_backend.Prelude.{◌≡◌, String, Option, none, List, Bool, false, All}
use valle_web_backend.Prelude.Http.{ok, returned}
use valle_web_backend.Day.{Day}
use valle_web_backend.Booking.{Time}
use valle_web_backend.Payments.{Actor}
use valle_web_backend.Edits.{Desk, Catalogue, UpdateBooking, ArrivalCheck}
use valle_web_backend.Edits.Update.{update, postpone}
use valle_web_backend.Edits.Guest.{
  guest, GuestChange, require_booking, guest_can_change, guest_patch, check_guest_party,
  guest_change, guest_cancel,
}
use valle_web_backend.Edits.Balanced.{AreBalanced}
use valle_web_backend.Edits.Kept.{update-AreBalanced, postpone-AreBalanced}
use valle_web_backend.Create.{BookingRequest, LineInfo, BookingsService, BookingResponse}
use valle_web_backend.Create.Write.{create_booking}
use valle_web_backend.Create.Balanced.{IsUnused, create_booking-AreBalanced}

guest_change-AreBalanced :
    (cat : Catalogue) (today : Day) (now : Time) (info : String → Option LineInfo) (valid : Bool)
    (ref : String) (dto : GuestChange) (d d' : Desk)
    → AreBalanced d
    → guest_change cat today now info valid ref dto d ≡ ok d'
    → AreBalanced d'
unfolding guest_change
guest_change-AreBalanced cat today now info valid ref dto d d' fine h =
    let (b, there, h1) = returned (require_booking valid ref d) _ h in
    let (u, may, h2) = returned (guest_can_change today b) _ h1 in
    let (edit, made, h3) = returned (guest_patch today b dto) _ h2 in
    let (v, fits, h4) = returned (check_guest_party info b dto d.places.lines) _ h3 in
    update-AreBalanced cat today now ref edit false none guest d d' fine h4

guest_cancel-AreBalanced :
    (cat : Catalogue) (today : Day) (now : Time) (valid : Bool) (ref reason : String) (d d' : Desk)
    → AreBalanced d
    → guest_cancel cat today now valid ref reason d ≡ ok d'
    → AreBalanced d'
unfolding guest_cancel
guest_cancel-AreBalanced cat today now valid ref reason d d' fine h =
    let (b, there, h1) = returned (require_booking valid ref d) _ h in
    let (u, may, h2) = returned (guest_can_change today b) _ h1 in
    update-AreBalanced cat today now ref _ false none guest d d' fine h2

-- One call that goes through, with the catalogue, the settings and the time it finds.
pub data DeskCall (d d' : Desk) : Type 0 where
  created :
      (cat : Catalogue) (info : String → Option LineInfo) (service : BookingsService) (today : Day)
      (now : Time) (draws : List (String × String)) (r : BookingRequest) (before : Desk)
      (answer : BookingResponse)
      → All (λ (x : String × String). IsUnused d x.0) draws
      → create_booking cat info service today now draws r before d ≡ ok (answer, d')
      → DeskCall d d'
  updated :
      (cat : Catalogue) (today : Day) (now : Time) (ref : String) (dto : UpdateBooking)
      (stale : Bool) (check : Option ArrivalCheck) (by : Actor)
      → update cat today now ref dto stale check by d ≡ ok d'
      → DeskCall d d'
  guest_changed :
      (cat : Catalogue) (today : Day) (now : Time) (info : String → Option LineInfo) (valid : Bool)
      (ref : String) (dto : GuestChange)
      → guest_change cat today now info valid ref dto d ≡ ok d'
      → DeskCall d d'
  guest_cancelled :
      (cat : Catalogue) (today : Day) (now : Time) (valid : Bool) (ref reason : String)
      → guest_cancel cat today now valid ref reason d ≡ ok d'
      → DeskCall d d'
  postponed : (ref reason : String) (by : Actor) → postpone ref reason by d ≡ ok d' → DeskCall d d'

pub data DeskCalls (d : Desk) : Desk → Type 0 where
  opened : DeskCalls d d
  after_call : {d' d'' : Desk} → DeskCalls d d' → DeskCall d' d'' → DeskCalls d d''

DeskCall-AreBalanced : {d d' : Desk} → AreBalanced d → DeskCall d d' → AreBalanced d'
DeskCall-AreBalanced fine (created cat info service today now draws r before answer unused h) =
    create_booking-AreBalanced cat info service today now draws r before _ (answer, _) fine unused h
DeskCall-AreBalanced fine (updated cat today now ref dto stale check by h) =
    update-AreBalanced cat today now ref dto stale check by _ _ fine h
DeskCall-AreBalanced fine (guest_changed cat today now info valid ref dto h) =
    guest_change-AreBalanced cat today now info valid ref dto _ _ fine h
DeskCall-AreBalanced fine (guest_cancelled cat today now valid ref reason h) =
    guest_cancel-AreBalanced cat today now valid ref reason _ _ fine h
DeskCall-AreBalanced fine (postponed ref reason by h) =
    postpone-AreBalanced ref reason by _ _ fine h

-- Whatever new bookings, edits, postponements and guests' changes and cancellations go through, in any
-- order and whatever the catalogue and
-- the settings are by then, every booking stays in balance, where all were before: no two have one key,
-- the total, the adjustment and the discount add up to the subtotal, and so do the printed lines. The
-- keys that are drawn for a new booking are unused.
pub DeskCalls-AreBalanced : (d d' : Desk) → AreBalanced d → DeskCalls d d' → AreBalanced d'
DeskCalls-AreBalanced d d' fine opened = fine
DeskCalls-AreBalanced d d' fine (after_call before call) =
    DeskCall-AreBalanced (DeskCalls-AreBalanced d _ fine before) call
