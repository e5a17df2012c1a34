-- ===== src/Capacity/Levels.antt =====
-- bookings/availability.ts (busyLevel, applySlotLevels) and bookings/capacity.ts (activityLevel): the
-- levels that the date picker shows. The shares 0.7 and 0.35 are compared as exact fractions, which for
-- counts below a million is what the floating-point tests answer.
use valle_web_backend.Prelude.{
  ℕ, ◌+◌, ◌*◌, ◌<◌, ◌≡◌, ◌↔◌, String, Option, none, some, [], Bool, true, false, ◌&&◌, leb, ◌==◌,
  if◌then◌else◌, arith, Option-cases, inl, inr,
}
use valle_web_backend.Prelude.Http.{ok}
use valle_web_backend.Day.{Day}
use valle_web_backend.Booking.{Time, SlotKey}
use valle_web_backend.Capacity.{Calendar, ExperienceInfo, PlacesRequest, Places, closure_for}
use valle_web_backend.Capacity.Taken.{booked_guests, held_guests}
use valle_web_backend.Capacity.Reserve.{check_items, reserve_places}

pub data BusyLevel : Type 0 where
  quiet busy very_busy full closed : BusyLevel

pub data ActivityLevel : Type 0 where
  quiet busy full : ActivityLevel

-- By the share guests / capacity; where the capacity is zero the quotient is infinite, or no number.
unfoldable pub busy_level : ℕ → ℕ → BusyLevel
busy_level guests capacity =
    if capacity == 0 && guests == 0
    then BusyLevel.quiet
    else if leb capacity guests
    then BusyLevel.full
    else if leb (7 * capacity) (10 * guests)
    then BusyLevel.very_busy
    else if leb (35 * capacity) (100 * guests)
    then BusyLevel.busy
    else BusyLevel.quiet

unfoldable pub activity_level : ℕ → Option ℕ → ActivityLevel
activity_level taken none = ActivityLevel.quiet
activity_level taken (some cap) =
    if leb cap taken
    then ActivityLevel.full
    else if leb (7 * cap) (10 * taken)
    then ActivityLevel.busy
    else ActivityLevel.quiet

-- A slot's level from its guests, bookings and holds, or "closed".
unfoldable pub slot_level : Time → Calendar → Places → Day → SlotKey → BusyLevel
slot_level now cal p date slot = elim (closure_for date slot cal.closures) [
  | some c ↦ BusyLevel.closed
  | none ↦
      busy_level (booked_guests date slot none p + held_guests now date slot none p)
        cal.slot_capacity
]

abbrev pub is_open : BusyLevel → Bool
is_open BusyLevel.full = false
is_open BusyLevel.closed = false
is_open _ = true

-- One adult who wants nothing but entry, without a hold.
abbrev pub one_guest : Day → SlotKey → PlacesRequest
one_guest date slot = record {
  visit_date = date;
  slot = slot;
  adults = 1;
  kids = 0;
  infants = none;
  items = [];
  hold_id = none;
  except_booking_id = none;
}

-- The picker tells the truth: where a slot can take guests at all, it is shown neither full nor closed
-- exactly when a single further guest would be let through.
pub slot_level-one_guest :
    (now : Time) (cal : Calendar) (p : Places) (experiences : String → Option ExperienceInfo)
    (date : Day) (slot : SlotKey)
    → 0 < cal.slot_capacity
    → (is_open (slot_level now cal p date slot) ≡ true)
      ↔ (reserve_places now p (one_guest date slot) cal experiences ≡ ok tt)
unfolding slot_level busy_level reserve_places check_items
slot_level-one_guest now cal p experiences date slot some_room =
    elim (Option-cases (closure_for date slot cal.closures)) [
      | inl free ↦ ground arith
      | inr (c, shut) ↦ ground arith
    ]
