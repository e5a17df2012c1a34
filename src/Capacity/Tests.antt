-- ===== src/Capacity/Tests.antt =====
-- bookings/capacity.ts: runs on an empty day with a limited experience.
use valle_web_backend.Prelude.{
  ◌+◌, ◌≤◌, ◌≡◌, ◌↔◌, refl, String, Option, none, some, [], ◌∷◌, true, or_zero, All, arith, ltb→lt,
}
use valle_web_backend.Prelude.Http.{ok, err, conflict}
use valle_web_backend.Booking.{SlotKey}
use valle_web_backend.Pricing.Types.{PriceMode}
use valle_web_backend.Pricing.Product.{is_product_id}
use valle_web_backend.Capacity.{
  ClosureKind, Calendar, ExperienceInfo, PlacesItem, PlacesRequest, Places, sessions_for_slot,
  closure_for, closure_message,
}
use valle_web_backend.Capacity.Taken.{booked_guests, held_guests, activity_taken, session_taken}
use valle_web_backend.Capacity.Reserve.{
  check_session, check_activity, check_item, check_items, reserve_places, new_hold, hold,
}
use valle_web_backend.Capacity.Slots.{IsWithin}
use valle_web_backend.Capacity.Within.{held, start, then_, Moves-IsWithin}
use valle_web_backend.Capacity.Items.{Fits, reserve_places_iff}
use valle_web_backend.Capacity.Levels.{is_open, slot_level, one_guest, slot_level-one_guest}

abbrev no_places : Places
no_places = record { bookings = []; lines = []; holds = [] }

-- Four guests a slot, and a zipline for three guests at nine.
abbrev pub small_calendar : Calendar
small_calendar = record {
  slot_capacity = 4;
  closures =
      record {
        from = 2026_02_10;
        to = 2026_02_11;
        slot = some SlotKey.morning;
        kind = ClosureKind.maintenance;
        reason = "";
      }
      ∷ [];
  activity_capacity = λ id. some (record { morning = some 3; afternoon = none });
  sessions =
      λ id. some (record { times = "09:00" ∷ "14:00" ∷ []; capacity = some 3; duration_min = 60 });
}

abbrev pub zipline : String → Option ExperienceInfo
zipline id = some (record { name = "Zipline"; price_mode = PriceMode.pp })

abbrev zip_item : PlacesItem
zip_item = record { id = "zip"; adults = some 2; kids = some 1; units = none; time = some "09:00" }

abbrev a_party : PlacesRequest
a_party = record {
  visit_date = 2026_02_09;
  slot = SlotKey.morning;
  adults = 2;
  kids = 1;
  infants = none;
  items = zip_item ∷ [];
  hold_id = none;
  except_booking_id = none;
}

abbrev one_hold : Places
one_hold = record no_places { holds = new_hold "h1" 5 a_party ∷ [] }

held_places : hold "h1" 5 a_party small_calendar zipline no_places ≡ ok one_hold
unfolding hold reserve_places check_items check_item check_session check_activity closure_for
    sessions_for_slot booked_guests held_guests activity_taken session_taken new_hold is_product_id
held_places = refl

no_places-IsWithin : IsWithin 5 small_calendar no_places
unfolding booked_guests held_guests
no_places-IsWithin = λ date slot. omega arith

Moves-IsWithin_example : IsWithin 5 small_calendar one_hold
Moves-IsWithin_example =
    Moves-IsWithin small_calendar zipline (record { now = 5; places = no_places })
      (record { now = 5; places = one_hold }) no_places-IsWithin
      (then_ start (held "h1" a_party refl held_places))

reserve_places_iff_example : (reserve_places 6 one_hold a_party small_calendar zipline ≡ ok tt) ↔ (
    (closure_for a_party.visit_date a_party.slot small_calendar.closures ≡ none)
    × (booked_guests a_party.visit_date a_party.slot none one_hold
          + held_guests 6 a_party.visit_date a_party.slot none one_hold
          + (a_party.adults + a_party.kids + or_zero a_party.infants)
        ≤ small_calendar.slot_capacity)
    × All (Fits 6 one_hold a_party small_calendar zipline) a_party.items)
reserve_places_iff_example = reserve_places_iff 6 one_hold a_party small_calendar zipline

slot_level-one_guest_example :
    (is_open (slot_level 6 small_calendar one_hold 2026_02_09 SlotKey.morning) ≡ true) ↔ (
      reserve_places 6 one_hold (one_guest 2026_02_09 SlotKey.morning) small_calendar zipline
      ≡ ok tt)
slot_level-one_guest_example =
    slot_level-one_guest 6 small_calendar one_hold zipline 2026_02_09 SlotKey.morning
      (ltb→lt 0 4 refl)

closed_day :
    reserve_places 6 no_places (one_guest 2026_02_10 SlotKey.morning) small_calendar zipline
    ≡ err (
        conflict
          "The park is closed for maintenance for the morning on that date. Pick another day.")
unfolding reserve_places closure_for closure_message
closed_day = refl

-- The hold has the zipline's three places: one more guest is over its limit.
full_session :
    reserve_places 6 one_hold
      (record a_party {
        adults = 1;
        kids = 0;
        items = record zip_item { adults = some 1; kids = none } ∷ [];
      })
      small_calendar
      zipline
    ≡ err (conflict "The 09:00 Zipline session is full on this date. Pick another time.")
unfolding reserve_places check_items check_item check_session closure_for sessions_for_slot
    booked_guests held_guests session_taken new_hold is_product_id
full_session = refl

-- Each item of a request is compared with the rows alone: two options of the zipline, three guests each,
-- pass together under its limit of three.
two_options :
    reserve_places 6 no_places
      (record a_party {
        items = record zip_item { time = none } ∷ record zip_item { time = none } ∷ [];
      })
      small_calendar
      zipline
    ≡ ok tt
unfolding reserve_places check_items check_item check_activity closure_for booked_guests held_guests
    activity_taken is_product_id
two_options = refl
