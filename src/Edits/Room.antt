-- ===== src/Edits/Room.antt =====
-- staff/bookings/staff-bookings.service.ts: an edit leaves no slot with more guests than it can take.
use mathlib.Core.Path.{subst}
use valle_web_backend.Prelude.{
  ℕ, ◌+◌, ◌≤◌, ◌≡◌, refl, sym, ap, ◌∙◌, String, none, some, List, [], ◌∷◌, Bool, true, false, ◌&&◌,
  ◌||◌, not, or_default, sum_of, if◌then◌else◌, str_eq, arith, Bool-cases, inl, inr, ==_iff,
}
use valle_web_backend.Prelude.Http.{Result, ok}
use valle_web_backend.Prelude.Rows.{row, save, IsKeyed, sum-save}
use valle_web_backend.Day.{Day}
use valle_web_backend.Booking.{Time, SlotKey, BookingStatus, Booking, BookingLine}
use valle_web_backend.Capacity.{Calendar, Places}
use valle_web_backend.Capacity.Taken.{
  at_slot, is_live, differs, booking_guests, booked_guests, held_guests,
}
use valle_web_backend.Capacity.Reserve.{reserve_places}
use valle_web_backend.Capacity.Slots.{IsWithin, reserve_places-ok, same_slot_iff}
use valle_web_backend.Patch.{BookingPatch, apply_patch, touches_places, audited_changes}
use valle_web_backend.Edits.{Catalogue}
use valle_web_backend.Edits.Fitting.{needs_places, edit_request, ensure_room}
use valle_web_backend.Edits.Update.{booking_id}
use valle_web_backend.Edits.Moved.{SamePlace, apply_patch-SamePlace}

-- The guests that a booking brings to a slot.
abbrev pub brings : Day → SlotKey → Booking → ℕ
brings date slot b =
    if at_slot date slot b.visit_date b.slot && is_live b.status && true
    then booking_guests b
    else 0

abbrev others_bring : Day → SlotKey → String → Booking → ℕ
others_bring date slot id b =
    if at_slot date slot b.visit_date b.slot && is_live b.status && differs (some id) b.id
    then booking_guests b
    else 0

-- No row of the key: leaving it out leaves all.
others-absent :
    (date : Day) (slot : SlotKey) (id : String) (rows : List Booking)
    → row booking_id rows id ≡ none
    → sum_of (others_bring date slot id) rows ≡ sum_of (brings date slot) rows
unfolding row
others-absent date slot id [] h = refl
others-absent date slot id (r ∷ rows) h = ground (arith, others-absent date slot id rows)

others-and_own :
    (date : Day) (slot : SlotKey) (b : Booking) (rows : List Booking)
    → IsKeyed booking_id rows
    → row booking_id rows b.id ≡ some b
    → sum_of (others_bring date slot b.id) rows + brings date slot b
      ≡ sum_of (brings date slot) rows
unfolding row
others-and_own date slot b [] t h = cc h
others-and_own date slot b (r ∷ rows) (fresh, t) h = elim (Bool-cases (str_eq r.id b.id)) [
  | inl this ↦
      let same : r ≡ b = ground arith in
      let gone =
        others-absent date slot b.id rows
          (ap (row booking_id rows) (sym (ap booking_id same)) ∙ fresh) in
      let own : others_bring date slot b.id r ≡ 0 = ground arith in
      omega (arith, gone, own, ap (brings date slot) same)
  | inr other ↦ let rest = others-and_own date slot b rows t (ground arith) in ground arith
]

abbrev with_booking : Booking → List BookingLine → Places → Places
with_booking b lines p = record p { bookings = save booking_id b p.bookings; lines = lines }

module _ (now : Time) (cal : Calendar) (p : Places) (b b' : Booking) (lines : List BookingLine)
    (fine : IsWithin now cal p) (keyed : IsKeyed booking_id p.bookings)
    (there : row booking_id p.bookings b.id ≡ some b) (same_id : b'.id ≡ b.id) where
  saved_sum :
      (date : Day) (slot : SlotKey)
      → sum_of (brings date slot) (save booking_id b' p.bookings) + brings date slot b
        ≡ sum_of (brings date slot) p.bookings + brings date slot b'
  saved_sum date slot =
      sum-save booking_id (brings date slot) b' b p.bookings keyed
        (ap (row booking_id p.bookings) same_id ∙ there)

  -- A booking that brings no more guests than before.
  stays-IsWithin :
      ((date : Day) (slot : SlotKey) → brings date slot b' ≤ brings date slot b)
      → IsWithin now cal (with_booking b' lines p)
  unfolding booked_guests held_guests
  stays-IsWithin less date slot = omega (arith, saved_sum date slot, less date slot, fine date slot)

  -- A booking whose guests have room beside the others of its slot.
  moves-IsWithin :
      booked_guests b'.visit_date b'.slot (some b.id) p
          + held_guests now b'.visit_date b'.slot none p
          + booking_guests b'
        ≤ cal.slot_capacity
      → IsWithin now cal (with_booking b' lines p)
  unfolding booked_guests held_guests
  moves-IsWithin room date slot = elim (Bool-cases (at_slot date slot b'.visit_date b'.slot)) [
    | inr elsewhere ↦
        let none_here : brings date slot b' ≡ 0 = ground arith in
        omega (arith, saved_sum date slot, none_here, fine date slot)
    | inl here ↦
        let e : b'.visit_date ≡ date = ground (arith, ==_iff b'.visit_date date) in
        let f : b'.slot ≡ slot = ground (arith, same_slot_iff b'.slot slot) in
        let room_here =
          subst {A = Day × SlotKey}
            (λ k.
              booked_guests k.0 k.1 (some b.id) p
                + held_guests now k.0 k.1 none p
                + booking_guests b'
              ≤ cal.slot_capacity)
            (λ i. (e i, f i)) room in
        let most : brings date slot b' ≤ booking_guests b' = ground arith in
        omega (
          arith,
          saved_sum date slot,
          others-and_own date slot b p.bookings keyed there,
          room_here,
          most,
        )
  ]

-- What re-pricing leaves of a booking's place.
brings-SamePlace :
    (b b' : Booking) (date : Day) (slot : SlotKey)
    → SamePlace b b'
    → brings date slot b' ≡ brings date slot b
brings-SamePlace b b' date slot s =
    rw (s.visit_date, s.slot, s.status, s.adults, s.kids, s.infants) refl

not_live : (s : BookingStatus) → needs_places s ≡ false → is_live s ≡ false
not_live BookingStatus.cancelled h = refl
not_live BookingStatus.postponed h = refl
not_live BookingStatus.confirmed h = cc h
not_live BookingStatus.arrived h = cc h

gone_brings :
    (date : Day) (slot : SlotKey) (b : Booking)
    → needs_places b.status ≡ false
    → brings date slot b ≡ 0
gone_brings date slot b h = ground (arith, not_live b.status h)

checked :
    (t n : Bool) (x y : Result (Unit {0})) {z : Result (Unit {0})}
    → t ≡ true
    → n ≡ true
    → (if not t || not n then x else y) ≡ z
    → y ≡ z
checked true true x y e f h = h
checked false n x y e f h = cc e
checked true false x y e f h = cc f

same_places :
    (now : Time) (cal : Calendar) (p p1 : Places)
    → p1.bookings ≡ p.bookings
    → p1.holds ≡ p.holds
    → IsWithin now cal p
    → IsWithin now cal p1
unfolding booked_guests held_guests
same_places now cal p p1 rows holds fine date slot = rw (rows, holds) (fine date slot)

-- The edited booking, in tables that have its new lines.
pub edited-IsWithin :
    (cat : Catalogue) (now : Time) (b b1 : Booking) (patch : BookingPatch) (p p1 : Places)
    → IsWithin now cat.calendar p
    → IsKeyed booking_id p.bookings
    → row booking_id p.bookings b.id ≡ some b
    → p1.bookings ≡ p.bookings
    → p1.holds ≡ p.holds
    → b1.id ≡ b.id
    → SamePlace b b1
    → ensure_room cat now b1 patch (audited_changes b patch) p1 ≡ ok tt
    → IsWithin now cat.calendar
        (record p1 { bookings = save booking_id (apply_patch b1 patch) p1.bookings })
unfolding ensure_room apply_patch
edited-IsWithin cat now b b1 patch p p1 fine keyed there same_rows same_holds same_id place room =
    let b' = apply_patch b1 patch in
    let changes = audited_changes b patch in
    let fine1 = same_places now cat.calendar p p1 same_rows same_holds fine in
    let keyed1 = subst (IsKeyed booking_id) (sym same_rows) keyed in
    let there1 = ap (λ rows. row booking_id rows b.id) same_rows ∙ there in
    elim (Bool-cases (touches_places changes)) [
      | inr still ↦
          let s = apply_patch-SamePlace b patch still in
          let stays : SamePlace b b' = record {
            visit_date = ap (or_default patch.visit_date) place.visit_date ∙ s.visit_date;
            slot = ap (or_default patch.slot) place.slot ∙ s.slot;
            adults = ap (or_default patch.adults) place.adults ∙ s.adults;
            kids = ap (or_default patch.kids) place.kids ∙ s.kids;
            infants = ap (or_default patch.infants) place.infants ∙ s.infants;
            status = ap (or_default patch.status) place.status ∙ s.status;
          } in
          stays-IsWithin now cat.calendar p1 b b' p1.lines fine1 keyed1 there1 same_id
            (λ date slot. omega (arith, brings-SamePlace b b' date slot stays))
      | inl moved ↦ elim (Bool-cases (needs_places b'.status)) [
        | inr gone ↦
            stays-IsWithin now cat.calendar p1 b b' p1.lines fine1 keyed1 there1 same_id
              (λ date slot. omega (arith, gone_brings date slot b' gone))
        | inl coming ↦
            let reserved =
              checked (touches_places changes) (needs_places b'.status) (ok tt)
                (reserve_places now p1 (edit_request b1 patch p1.lines) cat.calendar cat.infos)
                moved coming room in
            let (_, fits, _) =
              reserve_places-ok now p1 (edit_request b1 patch p1.lines) cat.calendar cat.infos
                reserved in
            moves-IsWithin now cat.calendar p1 b b' p1.lines fine1 keyed1 there1 same_id (
              omega
                (arith, fits, ap (λ id. booked_guests b'.visit_date b'.slot (some id) p1) same_id))
      ]
    ]
