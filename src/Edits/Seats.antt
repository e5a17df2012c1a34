-- ===== src/Edits/Seats.antt =====
-- staff/bookings/staff-bookings.service.ts: re-pricing moves no place, so that edits keep to the slots.
use mathlib.Core.Path.{subst}
use valle_web_backend.Prelude.{
  ◌≡◌, refl, sym, ap, ◌∙◌, String, Option, none, some, List, [], ◌∷◌, Bool, not, if◌then◌else◌,
  arith, Bool-cases, inl, inr,
}
use valle_web_backend.Prelude.Http.{ok, returned, eq_of_ok, throw_if}
use valle_web_backend.Prelude.Rows.{row, IsKeyed}
use valle_web_backend.Day.{Day}
use valle_web_backend.Booking.{Time, Booking}
use valle_web_backend.Pricing.Compute.{compute_booking}
use valle_web_backend.Coupons.{Coupon}
use valle_web_backend.Capacity.Slots.{IsWithin}
use valle_web_backend.Payments.{Actor}
use valle_web_backend.Patch.{BookingPatch, FieldChange, touches_money, audited_changes}
use valle_web_backend.Edits.{
  Desk, Catalogue, UpdateBooking, ArrivalCheck, normalize_patch, has_fields,
}
use valle_web_backend.Edits.Fitting.{fit_lines, ensure_room}
use valle_web_backend.Edits.Money.{
  with_offer, without_code, apply_code, with_manual, with_total, apply_adjustment, reprice_input,
  with_figures, reprice,
}
use valle_web_backend.Edits.Update.{
  booking_id, find_ref, put_booking, repriced, write_edit, write_changes, edit_booking, update,
  said_of, is_unreachable,
}
use valle_web_backend.Edits.Kept.{find_ref-row}
use valle_web_backend.Edits.Moved.{SamePlace}
use valle_web_backend.Edits.Room.{edited-IsWithin}

abbrev SameSeats : Booking → Booking → Type 0
SameSeats b b' = (b'.id ≡ b.id) × SamePlace b b'

apply_code-SameSeats :
    (today : Day) (code : Option String) (b b' : Booking) (coupons left : List Coupon)
    → apply_code today code b coupons ≡ ok (b', left)
    → SameSeats b b'
unfolding apply_code with_offer without_code
apply_code-SameSeats today none b b' coupons left h = ground arith
apply_code-SameSeats today (some code) b b' coupons left h = ground arith

reprice-SameSeats :
    (cat : Catalogue) (today : Day) (b b' : Booking) (patch : BookingPatch) (d d' : Desk)
    → reprice cat today b patch d ≡ ok (b', d')
    → SameSeats b b' × (d'.places.bookings ≡ d.places.bookings) × (d'.places.holds ≡ d.places.holds)
unfolding reprice with_figures apply_adjustment with_manual with_total
reprice-SameSeats cat today b b' patch d d' h =
    let input = reprice_input b patch d.places.lines in
    let (priced, p, h1) =
      returned (compute_booking cat.experiences cat.settings input cat.price_rows cat.products) _
        h in
    let ((b1, left), a, h2) =
      returned (apply_adjustment today (with_figures priced b) patch priced d.coupons) _ h1 in
    let ((b2, cs), c, h3) =
      returned (apply_code today patch.coupon_code (with_figures priced b) d.coupons) _ a in
    let (same_id, place) =
      apply_code-SameSeats today patch.coupon_code (with_figures priced b) b2 d.coupons cs c in
    let made = ap (λ (x : Booking × List Coupon). x.0) (eq_of_ok _ _ h3) in
    let is_b = ap (λ (x : Booking × Desk). x.0) (eq_of_ok _ _ h2) in
    let is_d = ap (λ (x : Booking × Desk). x.1) (eq_of_ok _ _ h2) in
    let seats : SameSeats b (with_total priced (with_manual patch b2)) = (
      same_id,
      record {
        visit_date = place.visit_date;
        slot = place.slot;
        adults = place.adults;
        kids = place.kids;
        infants = place.infants;
        status = place.status;
      },
    ) in
    (
      subst (SameSeats b) (made ∙ is_b) seats,
      ap (λ (x : Desk). x.places.bookings) (sym is_d),
      ap (λ (x : Desk). x.places.holds) (sym is_d),
    )

module _ (cat : Catalogue) (today : Day) (now : Time) where
  repriced-SameSeats :
      (b b' : Booking) (patch : BookingPatch) (changes : List FieldChange) (d d' : Desk)
      → repriced cat today now b patch changes d ≡ ok (b', d')
      → SameSeats b b'
        × (d'.places.bookings ≡ d.places.bookings)
        × (d'.places.holds ≡ d.places.holds)
  unfolding repriced
  repriced-SameSeats b b' patch changes d d' h = elim (Bool-cases (touches_money changes)) [
    | inl money ↦
        reprice-SameSeats cat today b b' patch d d'
          (ap (λ t. if t then reprice cat today b patch d else ok (b, d)) (sym money) ∙ h)
    | inr free ↦
        let same =
          eq_of_ok _ _
            (ap (λ t. if t then reprice cat today b patch d else ok (b, d)) (sym free) ∙ h) in
        let is_b : b ≡ b' = ap (λ (x : Booking × Desk). x.0) same in
        let is_d : d ≡ d' = ap (λ (x : Booking × Desk). x.1) same in
        (
          subst (SameSeats b) is_b (
            refl,
            record {
              visit_date = refl;
              slot = refl;
              adults = refl;
              kids = refl;
              infants = refl;
              status = refl;
            },
          ),
          ap (λ (x : Desk). x.places.bookings) (sym is_d),
          ap (λ (x : Desk). x.places.holds) (sym is_d),
        )
  ]

  write_changes-IsWithin :
      (check : Option ArrivalCheck) (dto : UpdateBooking) (by : Actor) (b : Booking)
      (patch : BookingPatch) (note : String) (changes : List FieldChange) (d d' : Desk)
      → IsWithin now cat.calendar d.places
      → IsKeyed booking_id d.places.bookings
      → row booking_id d.places.bookings b.id ≡ some b
      → changes ≡ audited_changes b patch
      → write_changes cat today now check dto by b patch note changes d ≡ ok d'
      → IsWithin now cat.calendar d'.places
  unfolding write_changes write_edit put_booking
  write_changes-IsWithin check dto by b patch note [] d d' fine keyed there are h =
      subst (λ (x : Desk). IsWithin now cat.calendar x.places) (eq_of_ok _ _ h) fine
  write_changes-IsWithin check dto by b patch note (c ∷ more) d d' fine keyed there are h =
      let (said, s, h1) = returned (said_of check dto patch (c ∷ more)) _ h in
      let ((b1, d1), r, h2) = returned (repriced cat today now b patch (c ∷ more) d) _ h1 in
      let (done, room, h3) = returned (ensure_room cat now b1 patch (c ∷ more) d1.places) _ h2 in
      let ((same_id, place), rows, holds) = repriced-SameSeats b b1 patch (c ∷ more) d d1 r in
      let room' = ap (λ cs. ensure_room cat now b1 patch cs d1.places) (sym are) ∙ room in
      subst (λ (x : Desk). IsWithin now cat.calendar x.places) (eq_of_ok _ _ h3)
        (edited-IsWithin cat now b b1 patch d.places d1.places fine keyed there rows holds same_id
          place room')

  -- An edit that goes through leaves no slot of any date with more guests, in live bookings and live
  -- holds together, than the calendar allows, where none had more before and no two bookings have one key.
  pub update-IsWithin :
      (ref : String) (dto : UpdateBooking) (stale : Bool) (check : Option ArrivalCheck) (by : Actor)
      (d d' : Desk)
      → IsWithin now cat.calendar d.places
      → IsKeyed booking_id d.places.bookings
      → update cat today now ref dto stale check by d ≡ ok d'
      → IsWithin now cat.calendar d'.places
  unfolding update edit_booking
  update-IsWithin ref dto stale check by d d' fine keyed h =
      let patch = normalize_patch dto.sent in
      let (u, some_field, h1) = returned (throw_if (not (has_fields patch)) _) _ h in
      let (b, found, h2) = returned (find_ref ref d) _ h1 in
      let (v, fresh, h3) = returned (throw_if stale _) _ h2 in
      let (w, reachable, h4) = returned (throw_if (is_unreachable b patch) _) _ h3 in
      let (fitted, note) = fit_lines d.places.lines b patch in
      write_changes-IsWithin check dto by b fitted note (audited_changes b fitted) d d' fine keyed
        (find_ref-row ref d b keyed found) refl h4
