-- ===== src/Capacity/Taken.antt =====
-- bookings/capacity.ts (heldGuests, activityTaken, sessionTaken): what the live bookings and holds of a
-- slot already take.
use valle_web_backend.Prelude.{
  ℕ, ◌+◌, String, Option, none, some, Bool, true, false, ◌&&◌, not, ltb, ◌==◌, or_zero,
  if◌then◌else◌, str_eq, sum_of,
}
use valle_web_backend.Prelude.Rows.{row}
use valle_web_backend.Day.{Day}
use valle_web_backend.Booking.{Time, SlotKey, BookingStatus, Booking, BookingLine}
use valle_web_backend.Capacity.{PlacesItem, SlotHold, Places, same_slot}

abbrev pub is_live : BookingStatus → Bool
is_live BookingStatus.cancelled = false
is_live BookingStatus.postponed = false
is_live _ = true

-- $n IS NULL OR id <> $n
abbrev pub differs : Option String → String → Bool
differs none id = true
differs (some own) id = not (str_eq id own)

abbrev pub at_slot : Day → SlotKey → Day → SlotKey → Bool
at_slot date slot d s = d == date && same_slot s slot

abbrev pub booking_guests : Booking → ℕ
booking_guests b = b.adults + b.kids + b.infants

abbrev pub hold_guests : SlotHold → ℕ
hold_guests h = h.adults + h.kids + h.infants

-- Guests of the live bookings of a slot, other than the booking being edited.
unfoldable pub booked_guests : Day → SlotKey → Option String → Places → ℕ
booked_guests date slot except p =
    sum_of
      (λ b.
        if at_slot date slot b.visit_date b.slot && is_live b.status && differs except b.id
        then booking_guests b
        else 0)
      p.bookings

-- Guests held for a slot by live holds other than the caller's.
unfoldable pub held_guests : Time → Day → SlotKey → Option String → Places → ℕ
held_guests now date slot hold_id p =
    sum_of
      (λ h.
        if at_slot date slot h.visit_date h.slot && ltb now h.expires_at && differs hold_id h.id
        then hold_guests h
        else 0)
      p.holds

abbrev pub line_count : Bool → BookingLine → ℕ
line_count per_person l = if per_person then l.adults + l.kids else l.units

abbrev pub item_count : Bool → PlacesItem → ℕ
item_count per_person i = if per_person then or_zero i.adults + or_zero i.kids else or_zero i.units

abbrev pub is_text : Option String → String → Bool
is_text none s = false
is_text (some t) s = str_eq t s

-- booking_lines JOIN bookings: the lines that pass a test on both.
abbrev pub count_lines : (Booking → BookingLine → Bool) → Bool → Places → ℕ
count_lines p per_person places =
    sum_of
      (λ (l : BookingLine). elim (row (λ (b : Booking). b.id) places.bookings l.booking_id) [
        | none ↦ 0
        | some b ↦ if p b l then line_count per_person l else 0
      ])
      places.lines

-- The items of the holds, where both pass a test.
abbrev pub count_holds : (SlotHold → Bool) → (PlacesItem → Bool) → Bool → Places → ℕ
count_holds p q per_person places =
    sum_of
      (λ (h : SlotHold).
        if p h then sum_of (λ i. if q i then item_count per_person i else 0) h.items else 0)
      places.holds

-- Guests, or units, that an experience already has in a slot.
unfoldable pub activity_taken :
    Time → Day → SlotKey → String → Bool → Option String → Option String → Places → ℕ
activity_taken now date slot experience_id per_person hold_id except p =
    count_lines
      (λ b l.
        at_slot date slot b.visit_date b.slot
        && is_live b.status
        && is_text l.experience_id experience_id
        && differs except b.id)
      per_person p
    + count_holds
        (λ h. at_slot date slot h.visit_date h.slot && ltb now h.expires_at && differs hold_id h.id)
        (λ i. str_eq i.id experience_id) per_person p

-- Guests, or units, already in one session of an experience on a date.
unfoldable pub session_taken :
    Time → Day → String → String → Bool → Option String → Option String → Places → ℕ
session_taken now date experience_id time per_person hold_id except p =
    count_lines
      (λ b l.
        b.visit_date == date
        && is_live b.status
        && is_text l.experience_id experience_id
        && is_text l.session_time time
        && differs except b.id)
      per_person p
    + count_holds (λ h. h.visit_date == date && ltb now h.expires_at && differs hold_id h.id)
        (λ i. str_eq i.id experience_id && is_text i.time time) per_person p
