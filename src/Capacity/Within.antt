-- ===== src/Capacity/Within.antt =====
-- bookings/bookings.service.ts: holds, bookings and the passing of time in any order, and the slots.
use mathlib.Core.Path.{subst}
use valle_web_backend.Prelude.{
  ◌+◌, ◌≤◌, ◌≡◌, refl, ap, String, Option, none, some, List, ◌∷◌, ◌++◌, or_zero, arith,
}
use valle_web_backend.Prelude.Http.{ok, returned}
use valle_web_backend.Day.{Day}
use valle_web_backend.Booking.{Time, SlotKey, Booking, BookingLine}
use valle_web_backend.Capacity.{Calendar, ExperienceInfo, PlacesRequest, Places}
use valle_web_backend.Capacity.Taken.{booking_guests, booked_guests, held_guests}
use valle_web_backend.Capacity.Reserve.{
  reserve_places, delete_hold, new_hold, hold, release_hold, write_booking,
}
use valle_web_backend.Capacity.Slots.{
  guests_at, IsWithin, reserve_places-ok, held-deleted_own, held-own_twice, held-own-le,
  held-later-le, joins,
}

pub record State : Type 0 where
  pub now : Time
  pub places : Places

-- The booking that write makes of a request.
pub record IsBookingOf (req : PlacesRequest) (b : Booking) : Type 0 where
  pub new : req.except_booking_id ≡ none
  pub date : b.visit_date ≡ req.visit_date
  pub slot : b.slot ≡ req.slot
  pub guests : booking_guests b ≡ req.adults + req.kids + or_zero req.infants

module _ (cal : Calendar) (experiences : String → Option ExperienceInfo) where
  -- A call that returned, or time that passed.
  pub data Move : State → State → Type 0 where
    held :
        {now : Time} {p p' : Places} (id : String) (req : PlacesRequest)
        → req.except_booking_id ≡ none
        → hold id now req cal experiences p ≡ ok p'
        → Move (record { now = now; places = p }) (record { now = now; places = p' })
    written :
        {now : Time} {p p' : Places} (req : PlacesRequest) (b : Booking) (lines : List BookingLine)
        → IsBookingOf req b
        → write_booking now req cal experiences b lines p ≡ ok p'
        → Move (record { now = now; places = p }) (record { now = now; places = p' })
    released :
        {now : Time} {p : Places} (id : String)
        → Move (record { now = now; places = p }) (record { now = now; places = release_hold id p })
    waited :
        {now : Time} {p : Places} (later : Time)
        → now ≤ later
        → Move (record { now = now; places = p }) (record { now = later; places = p })

  pub data Moves (s : State) : State → Type 0 where
    start : Moves s s
    then_ : {t u : State} → Moves s t → Move t u → Moves s u

booked-delete_hold :
    (date : Day) (slot : SlotKey) (own : Option String) (p : Places)
    → booked_guests date slot none (delete_hold own p) ≡ booked_guests date slot none p
unfolding booked_guests
booked-delete_hold date slot none p = refl
booked-delete_hold date slot (some id) p = refl

held-own-deleted :
    (now : Time) (date : Day) (slot : SlotKey) (own : Option String) (p : Places)
    → held_guests now date slot own (delete_hold own p) ≡ held_guests now date slot own p
held-own-deleted now date slot none p = refl
held-own-deleted now date slot (some id) p = held-own_twice now date slot id p

module _ (cal : Calendar) (experiences : String → Option ExperienceInfo) (now : Time) (p : Places)
    (fine : IsWithin now cal p) (req : PlacesRequest) (new : req.except_booking_id ≡ none) where
  kept_fine :
      (date : Day) (slot : SlotKey)
      → guests_at now date slot (delete_hold req.hold_id p) ≤ cal.slot_capacity
  kept_fine date slot = omega (
    arith,
    booked-delete_hold date slot req.hold_id p,
    held-deleted_own now date slot req.hold_id p,
    held-own-le now date slot req.hold_id p,
    fine date slot,
  )

  room_here :
      reserve_places now (delete_hold req.hold_id p) req cal experiences ≡ ok tt
      → guests_at now req.visit_date req.slot (delete_hold req.hold_id p)
          + (req.adults + req.kids + or_zero req.infants)
        ≤ cal.slot_capacity
  room_here reserved =
      let kept = delete_hold req.hold_id p in
      let (_, room, _) = reserve_places-ok now kept req cal experiences reserved in
      omega (
        arith,
        room,
        ap (λ o. booked_guests req.visit_date req.slot o kept) new,
        held-own-deleted now req.visit_date req.slot req.hold_id p,
        held-deleted_own now req.visit_date req.slot req.hold_id p,
      )

  hold-IsWithin :
      (id : String) (p' : Places) → hold id now req cal experiences p ≡ ok p' → IsWithin now cal p'
  unfolding hold held_guests booked_guests new_hold
  hold-IsWithin id p' h =
      let kept = delete_hold req.hold_id p in
      let (u, reserved, h') = returned (reserve_places now kept req cal experiences) _ h in
      let n = req.adults + req.kids + or_zero req.infants in
      let full = room_here reserved in
      let same : record kept { holds = new_hold id now req ∷ kept.holds } ≡ p' = cc h' in
      subst (IsWithin now cal) same (λ date slot.
        let sum =
          joins req.visit_date date req.slot slot n (guests_at now date slot kept) cal.slot_capacity
            (λ t e f. rw (← e, ← f) full) (kept_fine date slot) in
        ground (arith, sum))

  write_booking-IsWithin :
      (b : Booking) (lines : List BookingLine) (p' : Places)
      → IsBookingOf req b
      → write_booking now req cal experiences b lines p ≡ ok p'
      → IsWithin now cal p'
  unfolding write_booking booked_guests held_guests
  write_booking-IsWithin b lines p' of h =
      let kept = delete_hold req.hold_id p in
      let (u, reserved, h') = returned (reserve_places now p req cal experiences) _ h in
      let (_, room, _) = reserve_places-ok now p req cal experiences reserved in
      let full : guests_at now b.visit_date b.slot kept + booking_guests b ≤ cal.slot_capacity =
        rw (of.date, of.slot, of.guests)
          (omega (
            arith,
            room,
            ap (λ o. booked_guests req.visit_date req.slot o p) new,
            booked-delete_hold req.visit_date req.slot req.hold_id p,
            held-deleted_own now req.visit_date req.slot req.hold_id p,
          )) in
      let same : record kept { bookings = b ∷ kept.bookings; lines = lines ++ kept.lines } ≡ p' =
        cc h' in
      subst (IsWithin now cal) same (λ date slot.
        let sum =
          joins b.visit_date date b.slot slot (booking_guests b) (guests_at now date slot kept)
            cal.slot_capacity (λ t e f. rw (← e, ← f) full) (kept_fine date slot) in
        ground (arith, sum, kept_fine date slot))

Move-IsWithin :
    (cal : Calendar) (experiences : String → Option ExperienceInfo) {s t : State}
    → Move cal experiences s t
    → IsWithin s.now cal s.places
    → IsWithin t.now cal t.places
unfolding release_hold
Move-IsWithin cal experiences (held {now} {p} {p'} id req new h) fine =
    hold-IsWithin cal experiences now p fine req new id p' h
Move-IsWithin cal experiences (written {now} {p} {p'} req b lines of h) fine =
    write_booking-IsWithin cal experiences now p fine req of.new b lines p' of h
Move-IsWithin cal experiences (released {now} {p} id) fine = λ date slot. omega (
  arith,
  booked-delete_hold date slot (some id) p,
  held-deleted_own now date slot (some id) p,
  held-own-le now date slot (some id) p,
  fine date slot,
)
Move-IsWithin cal experiences (waited {now} {p} later passed) fine =
    λ date slot. omega (arith, held-later-le now later date slot p passed, fine date slot)

-- Whatever holds, bookings and releases of holds follow one another, and however much time passes, no
-- slot of any date ever has more guests, in live bookings and live holds together, than the calendar
-- allows.
pub Moves-IsWithin :
    (cal : Calendar) (experiences : String → Option ExperienceInfo) (s t : State)
    → IsWithin s.now cal s.places
    → Moves cal experiences s t
    → IsWithin t.now cal t.places
Moves-IsWithin cal experiences s t fine start = fine
Moves-IsWithin cal experiences s t fine (then_ {t = u} r move) =
    Move-IsWithin cal experiences move (Moves-IsWithin cal experiences s u fine r)
