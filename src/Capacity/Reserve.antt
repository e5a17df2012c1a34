-- ===== src/Capacity/Reserve.antt =====
-- bookings/capacity.ts (reservePlaces), bookings/bookings.service.ts (hold, releaseHold, and the places
-- of write): the check that every path goes through, and the rows that follow it.
use valle_web_backend.Prelude.{
  ℕ, ◌+◌, String, Option, none, some, List, [], ◌∷◌, ◌++◌, Bool, true, false, ◌||◌, not, filter,
  any, map, ltb, ◌==◌, or_zero, or_default, if◌then◌else◌, str_eq,
}
use valle_web_backend.Prelude.Text.{concat, is_filled, or_empty}
use valle_web_backend.Prelude.Http.{Result, ok, err, bad_request, conflict, ◌>>◌, throw_if}
use valle_web_backend.Booking.{Time, SlotKey, Booking, BookingLine}
use valle_web_backend.Pricing.Types.{PriceMode}
use valle_web_backend.Pricing.Product.{is_product_id}
use valle_web_backend.Capacity.{
  SessionPlan, SlotLimits, Calendar, ExperienceInfo, PlacesItem, PlacesRequest, SlotHold, Places,
  sessions_for_slot, closure_for, closure_message, slot_text,
}
use valle_web_backend.Capacity.Taken.{
  booked_guests, held_guests, activity_taken, session_taken, differs,
}

abbrev pub slot_full_message : String
slot_full_message =
    "That arrival slot is fully booked on this date. Pick the other slot or another day."

abbrev pub is_flat : PriceMode → Bool
is_flat PriceMode.flat = true
is_flat _ = false

-- info?.priceMode !== 'flat'
abbrev pub per_person : Option ExperienceInfo → Bool
per_person none = true
per_person (some info) = not (is_flat info.price_mode)

abbrev pub name_of : Option ExperienceInfo → String → String
name_of none id = id
name_of (some info) id = info.name

-- Guests, or units: one unit unless the item says otherwise.
abbrev pub wanted : Option ExperienceInfo → PlacesItem → ℕ
wanted info i = if per_person info then or_zero i.adults + or_zero i.kids else or_default i.units 1

abbrev pub limit_at : SlotKey → Option SlotLimits → Option ℕ
limit_at slot none = none
limit_at SlotKey.morning (some l) = l.morning
limit_at SlotKey.afternoon (some l) = l.afternoon

-- have + wanted > cap, where there is a limit.
abbrev pub over : Option ℕ → ℕ → Bool
over none n = false
over (some cap) n = ltb cap n

abbrev pub times_of : Option SessionPlan → List String
times_of none = []
times_of (some plan) = plan.times

abbrev pub capacity_of : Option SessionPlan → Option ℕ
capacity_of none = none
capacity_of (some plan) = plan.capacity

abbrev pub suits : Option SessionPlan → SlotKey → String → Bool
suits none slot time = false
suits (some plan) slot time = any (str_eq time) (sessions_for_slot plan slot)

module _ (now : Time) (places : Places) (req : PlacesRequest) (cal : Calendar)
    (experiences : String → Option ExperienceInfo) where
  -- A timed item: the time exists, suits the arrival and has room.
  unfoldable pub check_session : PlacesItem → String → Result (Unit {0})
  check_session item time =
      let info = experiences item.id in
      let name = name_of info item.id in
      let plan = cal.sessions item.id in
      throw_if (not (any (str_eq time) (times_of plan)))
        (bad_request (concat (name ∷ " has no " ∷ time ∷ " session" ∷ [])))
      >> throw_if (not (suits plan req.slot time)) (
          bad_request (concat ("A " ∷ time ∷ " " ∷ name ∷ " session needs a morning arrival" ∷ [])))
      >> throw_if
          (over (capacity_of plan) (
            session_taken now req.visit_date item.id time (per_person info) req.hold_id
              req.except_booking_id places
            + wanted info item))
          (conflict (
            concat (
              "The " ∷ time ∷ " " ∷ name ∷ " session is full on this date. Pick another time."
              ∷ [])))

  unfoldable pub check_activity : PlacesItem → Result (Unit {0})
  check_activity item =
      let info = experiences item.id in
      throw_if
        (over (limit_at req.slot (cal.activity_capacity item.id)) (
          activity_taken now req.visit_date req.slot item.id (per_person info) req.hold_id
            req.except_booking_id places
          + wanted info item))
        (conflict (
          concat (
            name_of info item.id
            ∷ " is fully booked for the "
            ∷ slot_text req.slot
            ∷ " on this date. Pick the other slot or another day."
            ∷ [])))

  -- One turn of the loop over the items.
  unfoldable pub check_item : PlacesItem → Result (Unit {0})
  check_item item =
      if is_product_id item.id || wanted (experiences item.id) item == 0
      then ok tt
      else (if is_filled (or_empty item.time)
          then check_session item (or_empty item.time) >> check_activity item
          else check_activity item)

  unfoldable pub check_items : List PlacesItem → Result (Unit {0})
  check_items [] = ok tt
  check_items (i ∷ items) = check_item i >> check_items items

  abbrev pub party : ℕ
  party = req.adults + req.kids + or_zero req.infants

  -- The one check every path goes through.
  unfoldable pub reserve_places : Result (Unit {0})
  reserve_places =
      elim (closure_for req.visit_date req.slot cal.closures) [
        | none ↦ ok tt
        | some c ↦ err (conflict (closure_message c req.slot))
      ]
      >> throw_if
          (ltb cal.slot_capacity (
            booked_guests req.visit_date req.slot req.except_booking_id places
            + held_guests now req.visit_date req.slot req.hold_id places
            + party))
          (conflict slot_full_message)
      >> check_items req.items

abbrev pub without_hold : Option String → List SlotHold → List SlotHold
without_hold id holds = filter (λ (h : SlotHold). differs id h.id) holds

-- manager.delete(SlotHold, { id })
abbrev pub delete_hold : Option String → Places → Places
delete_hold none p = p
delete_hold (some id) p = record p { holds = without_hold (some id) p.holds }

-- HOLD_MINUTES, in milliseconds.
abbrev pub hold_ms : ℕ
hold_ms = 600_000

-- The hold's items, with the counts that were left out as zero.
abbrev pub held_item : PlacesItem → PlacesItem
held_item i = record {
  id = i.id;
  adults = some (or_zero i.adults);
  kids = some (or_zero i.kids);
  units = some (or_zero i.units);
  time = if is_filled (or_empty i.time) then i.time else none;
}

unfoldable pub new_hold : String → Time → PlacesRequest → SlotHold
new_hold id now req = record {
  id = id;
  visit_date = req.visit_date;
  slot = req.slot;
  adults = req.adults;
  kids = req.kids;
  infants = or_zero req.infants;
  items = map held_item req.items;
  expires_at = now + hold_ms;
}

-- Places held while the guest types: an earlier hold of theirs is replaced. `id` is the new row's key.
unfoldable pub hold :
    String
    → Time
    → PlacesRequest
    → Calendar
    → (String → Option ExperienceInfo)
    → Places
    → Result Places
hold id now req cal experiences p =
    let kept = delete_hold req.hold_id p in
    reserve_places now kept req cal experiences
    >> ok (record kept { holds = new_hold id now req ∷ kept.holds })

unfoldable pub release_hold : String → Places → Places
release_hold id p = delete_hold (some id) p

-- The places of write: checked, the guest's hold deleted, the booking and its lines inserted.
unfoldable pub write_booking :
    Time
    → PlacesRequest
    → Calendar
    → (String → Option ExperienceInfo)
    → Booking
    → List BookingLine
    → Places
    → Result Places
write_booking now req cal experiences b lines p =
    let kept = delete_hold req.hold_id p in
    reserve_places now p req cal experiences
    >> ok (record kept { bookings = b ∷ kept.bookings; lines = lines ++ kept.lines })
