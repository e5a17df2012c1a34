-- ===== src/Capacity/Slots.antt =====
-- bookings/capacity.ts and bookings/bookings.service.ts: a slot never takes more guests than it can.
use valle_web_backend.Prelude.{
  ℕ, ◌+◌, ◌≤◌, ◌≡◌, refl, String, Option, none, some, List, [], ◌∷◌, true, ◌&&◌, ltb, ◌↔◌, or_zero,
  if◌then◌else◌, sum_of, arith, Bool-cases, inl, inr, ==_iff,
}
use valle_web_backend.Prelude.Http.{ok}
use valle_web_backend.Day.{Day}
use valle_web_backend.Booking.{Time, SlotKey}
use valle_web_backend.Capacity.{
  Calendar, ExperienceInfo, PlacesRequest, SlotHold, Places, same_slot, closure_for,
}
use valle_web_backend.Capacity.Taken.{at_slot, differs, hold_guests, booked_guests, held_guests}
use valle_web_backend.Capacity.Reserve.{check_items, reserve_places, delete_hold, without_hold}

-- Guests of a slot at a time: live bookings and live holds.
abbrev pub guests_at : Time → Day → SlotKey → Places → ℕ
guests_at now date slot p = booked_guests date slot none p + held_guests now date slot none p

-- No slot has more guests than the calendar allows.
abbrev pub IsWithin : Time → Calendar → Places → Type 0
IsWithin now cal p = (date : Day) (slot : SlotKey) → guests_at now date slot p ≤ cal.slot_capacity

pub same_slot_iff : (s t : SlotKey) → (same_slot s t ≡ true) ↔ (s ≡ t)
same_slot_iff s t = ground arith

-- A request that was let through.
pub reserve_places-ok :
    (now : Time) (p : Places) (req : PlacesRequest) (cal : Calendar)
    (experiences : String → Option ExperienceInfo)
    → reserve_places now p req cal experiences ≡ ok tt
    → (closure_for req.visit_date req.slot cal.closures ≡ none)
      × (booked_guests req.visit_date req.slot req.except_booking_id p
            + held_guests now req.visit_date req.slot req.hold_id p
            + (req.adults + req.kids + or_zero req.infants)
          ≤ cal.slot_capacity)
      × (check_items now p req cal experiences req.items ≡ ok tt)
unfolding reserve_places
reserve_places-ok now p req cal experiences h = ground arith

-- Deleting a hold is not counting it.
pub held-without_hold :
    (now : Time) (date : Day) (slot : SlotKey) (id : String) (p : Places)
    → held_guests now date slot none (delete_hold (some id) p)
      ≡ held_guests now date slot (some id) p
unfolding held_guests
held-without_hold now date slot id p = go p.holds
  where
    go :
        (hs : List SlotHold)
        → sum_of
            (λ (h : SlotHold).
              if at_slot date slot h.visit_date h.slot && ltb now h.expires_at && true
              then hold_guests h
              else 0)
            (without_hold (some id) hs)
          ≡ sum_of
              (λ (h : SlotHold).
                if at_slot date slot h.visit_date h.slot
                  && ltb now h.expires_at
                  && differs (some id) h.id
                then hold_guests h
                else 0)
              hs
    go [] = refl
    go (h ∷ hs) = ground (arith, go hs)

-- A hold that is gone is not there to be left out.
pub held-deleted_own :
    (now : Time) (date : Day) (slot : SlotKey) (own : Option String) (p : Places)
    → held_guests now date slot none (delete_hold own p) ≡ held_guests now date slot own p
unfolding held_guests
held-deleted_own now date slot none p = refl
held-deleted_own now date slot (some id) p = held-without_hold now date slot id p

pub held-own_twice :
    (now : Time) (date : Day) (slot : SlotKey) (id : String) (p : Places)
    → held_guests now date slot (some id) (delete_hold (some id) p)
      ≡ held_guests now date slot (some id) p
unfolding held_guests
held-own_twice now date slot id p = go p.holds
  where
    own : SlotHold → ℕ
    own h =
        if at_slot date slot h.visit_date h.slot && ltb now h.expires_at && differs (some id) h.id
        then hold_guests h
        else 0

    go : (hs : List SlotHold) → sum_of own (without_hold (some id) hs) ≡ sum_of own hs
    go [] = refl
    go (h ∷ hs) = ground (arith, go hs)

pub held-own-le :
    (now : Time) (date : Day) (slot : SlotKey) (own : Option String) (p : Places)
    → held_guests now date slot own p ≤ held_guests now date slot none p
unfolding held_guests
held-own-le now date slot own p = go p.holds
  where
    go :
        (hs : List SlotHold)
        → sum_of
            (λ (h : SlotHold).
              if at_slot date slot h.visit_date h.slot && ltb now h.expires_at && differs own h.id
              then hold_guests h
              else 0)
            hs
          ≤ sum_of
              (λ (h : SlotHold).
                if at_slot date slot h.visit_date h.slot && ltb now h.expires_at && true
                then hold_guests h
                else 0)
              hs
    go [] = omega arith
    go (h ∷ hs) = ground (arith, go hs)

-- Time only frees places.
pub held-later-le :
    (now now' : Time) (date : Day) (slot : SlotKey) (p : Places)
    → now ≤ now'
    → held_guests now' date slot none p ≤ held_guests now date slot none p
unfolding held_guests
held-later-le now now' date slot p later = go p.holds
  where
    go :
        (hs : List SlotHold)
        → sum_of
            (λ (h : SlotHold).
              if at_slot date slot h.visit_date h.slot && ltb now' h.expires_at && true
              then hold_guests h
              else 0)
            hs
          ≤ sum_of
              (λ (h : SlotHold).
                if at_slot date slot h.visit_date h.slot && ltb now h.expires_at && true
                then hold_guests h
                else 0)
              hs
    go [] = omega arith
    go (h ∷ hs) = ground (arith, go hs)

-- A party that joins its own slot, where there is room for it, and no other.
module _ (date d : Day) (slot s : SlotKey) (n before cap : ℕ) where
  pub joins :
      (at_slot d s date slot ≡ true → date ≡ d → slot ≡ s → before + n ≤ cap)
      → before ≤ cap
      → (if at_slot d s date slot then n else 0) + before ≤ cap
  joins room fine = elim (Bool-cases (at_slot d s date slot)) [
    | inl this ↦ rw this (
        omega
          (arith, room this (ground (arith, ==_iff date d)) (ground (arith, same_slot_iff slot s))))
    | inr other ↦ rw other (omega (arith, fine))
  ]
