-- ===== src/Capacity/Items.antt =====
-- bookings/capacity.ts (reservePlaces): exactly the requests that are let through.
use valle_web_backend.Prelude.{
  ℕ, ◌+◌, ◌≤◌, ◌≡◌, ◌↔◌, ◌⊎◌, refl, String, Option, none, some, List, [], ◌∷◌, Bool, true, false,
  ◌||◌, not, any, ◌==◌, or_zero, str_eq, All, arith, Bool-cases, inl, inr,
}
use valle_web_backend.Prelude.Text.{is_filled, or_empty}
use valle_web_backend.Prelude.Http.{HttpError, ok, ◌>>◌, throw_if, both_ok}
use valle_web_backend.Booking.{Time}
use valle_web_backend.Pricing.Product.{is_product_id}
use valle_web_backend.Capacity.{
  Calendar, ExperienceInfo, PlacesItem, PlacesRequest, Places, closure_for,
}
use valle_web_backend.Capacity.Taken.{booked_guests, held_guests, activity_taken, session_taken}
use valle_web_backend.Capacity.Reserve.{
  per_person, wanted, limit_at, over, times_of, capacity_of, suits, check_session, check_activity,
  check_item, check_items, reserve_places,
}
use valle_web_backend.Capacity.Slots.{reserve_places-ok}

-- At most the limit, where there is one.
abbrev pub AtMost : Option ℕ → ℕ → Type 0
AtMost none n = Unit
AtMost (some cap) n = n ≤ cap

over-AtMost : (limit : Option ℕ) (n : ℕ) → over limit n ≡ false → AtMost limit n
over-AtMost none n h = tt
over-AtMost (some cap) n h = ground arith

AtMost-over : (limit : Option ℕ) (n : ℕ) → AtMost limit n → over limit n ≡ false
AtMost-over none n h = refl
AtMost-over (some cap) n h = ground arith

throw_if-ok : (b : Bool) (e : HttpError) → throw_if b e ≡ ok tt → b ≡ false
throw_if-ok true e h = cc
throw_if-ok false e h = refl

module _ (now : Time) (places : Places) (req : PlacesRequest) (cal : Calendar)
    (experiences : String → Option ExperienceInfo) where
  abbrev pub want : PlacesItem → ℕ
  want i = wanted (experiences i.id) i

  -- A timed item: its session exists, suits the arrival slot and has room for it.
  pub record HasSession (i : PlacesItem) (time : String) : Type 0 where
    pub exists : any (str_eq time) (times_of (cal.sessions i.id)) ≡ true
    pub suited : suits (cal.sessions i.id) req.slot time ≡ true
    pub room : AtMost (capacity_of (cal.sessions i.id)) (
        session_taken now req.visit_date i.id time
          (per_person (experiences i.id))
          req.hold_id
          req.except_booking_id
          places
        + want i)

  abbrev pub HasRoom : PlacesItem → Type 0
  HasRoom i = AtMost (limit_at req.slot (cal.activity_capacity i.id)) (
      activity_taken now req.visit_date req.slot i.id (per_person (experiences i.id)) req.hold_id
        req.except_booking_id places
      + want i)

  -- A product, an item that wants nothing, or one with room in its session and its slot.
  abbrev pub Fits : PlacesItem → Type 0
  Fits i =
      ((is_product_id i.id || want i == 0) ≡ true)
      ⊎ (((is_filled (or_empty i.time) ≡ false) ⊎ HasSession i (or_empty i.time)) × HasRoom i)

  check_session-HasSession :
      (i : PlacesItem) (time : String)
      → check_session now places req cal experiences i time ≡ ok tt
      → HasSession i time
  unfolding check_session
  check_session-HasSession i time h =
      let (r, h₃) = both_ok _ _ h in
      let (h₁, h₂) = both_ok _ _ r in
      record {
        exists =
            ground
              (arith, throw_if-ok (not (any (str_eq time) (times_of (cal.sessions i.id)))) _ h₁);
        suited = ground (arith, throw_if-ok (not (suits (cal.sessions i.id) req.slot time)) _ h₂);
        room = over-AtMost _ _ (throw_if-ok _ _ h₃);
      }

  HasSession-check_session :
      (i : PlacesItem) (time : String)
      → HasSession i time
      → check_session now places req cal experiences i time ≡ ok tt
  unfolding check_session
  HasSession-check_session i time s =
      rw (s.exists, s.suited, AtMost-over (capacity_of (cal.sessions i.id)) _ s.room) refl

  check_item-Fits : (i : PlacesItem) → check_item now places req cal experiences i ≡ ok tt → Fits i
  unfolding check_item check_activity
  check_item-Fits i h = elim (Bool-cases (is_product_id i.id || want i == 0)) [
    | inl free ↦ inl free
    | inr counted ↦ elim (Bool-cases (is_filled (or_empty i.time))) [
      | inl timed ↦
          let h' : (check_session now places req cal experiences i (or_empty i.time)
                >> check_activity now places req cal experiences i)
              ≡ ok tt =
            ground arith in
          let (s, a) = both_ok _ _ h' in
          inr (
            inr (check_session-HasSession i (or_empty i.time) s),
            over-AtMost _ _ (throw_if-ok _ _ a),
          )
      | inr untimed ↦
          let a : check_activity now places req cal experiences i ≡ ok tt = ground arith in
          inr (inl untimed, over-AtMost _ _ (throw_if-ok _ _ a))
    ]
  ]

  Fits-check_item : (i : PlacesItem) → Fits i → check_item now places req cal experiences i ≡ ok tt
  unfolding check_item check_activity
  Fits-check_item i (inl free) = rw free refl
  Fits-check_item i (inr (session, room)) =
      let a : check_activity now places req cal experiences i ≡ ok tt =
        rw (AtMost-over (limit_at req.slot (cal.activity_capacity i.id)) _ room) refl in
      elim session [
        | inl untimed ↦ ground arith
        | inr s ↦ let t = HasSession-check_session i (or_empty i.time) s in ground arith
      ]

  check_items-All :
      (items : List PlacesItem)
      → check_items now places req cal experiences items ≡ ok tt
      → All Fits items
  unfolding check_items
  check_items-All [] h = tt
  check_items-All (i ∷ items) h =
      let (this, rest) = both_ok (check_item now places req cal experiences i) _ h in
      (check_item-Fits i this, check_items-All items rest)

  All-check_items :
      (items : List PlacesItem)
      → All Fits items
      → check_items now places req cal experiences items ≡ ok tt
  unfolding check_items
  All-check_items [] t = refl
  All-check_items (i ∷ items) (fits, t) = rw (Fits-check_item i fits, All-check_items items t) refl

  -- A request is let through exactly when no closure applies to its date and slot, its party fits into
  -- the slot beside the live bookings and holds of others, and each of its items, unless it is a product
  -- or wants nothing, has a session that exists, suits the arrival and has room, where it names one, and
  -- room under the experience's own limit for the slot, each item taken by itself.
  pub reserve_places_iff : (reserve_places now places req cal experiences ≡ ok tt) ↔ (
      (closure_for req.visit_date req.slot cal.closures ≡ none)
      × (booked_guests req.visit_date req.slot req.except_booking_id places
            + held_guests now req.visit_date req.slot req.hold_id places
            + (req.adults + req.kids + or_zero req.infants)
          ≤ cal.slot_capacity)
      × All Fits req.items)
  unfolding reserve_places
  reserve_places_iff = (
    λ h.
        let (open_day, room, items) = reserve_places-ok now places req cal experiences h in
        (open_day, room, check_items-All req.items items),
    λ (open_day, room, fits). rw (open_day, All-check_items req.items fits) (ground arith),
  )
