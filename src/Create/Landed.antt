-- ===== src/Create/Landed.antt =====
-- bookings/bookings.service.ts (create): the attempts end with a booking.
use mathlib.Core.Path.{subst}
use valle_web_backend.Prelude.{
  ℕ, zero, suc, ◌≡◌, refl, sym, ap, ◌∙◌, String, Option, none, some, List, [], ◌∷◌, Bool, true,
  false, ◌||◌, not, if◌then◌else◌,
}
use valle_web_backend.Prelude.Http.{Result, ok, ◌>>=◌}
use valle_web_backend.Day.{Day}
use valle_web_backend.Booking.{Time, Booking}
use valle_web_backend.Capacity.Reserve.{delete_hold, reserve_places}
use valle_web_backend.Capacity.{Places}
use valle_web_backend.Coupons.{Coupon}
use valle_web_backend.Edits.{Desk, Catalogue}
use valle_web_backend.Create.{
  BookingRequest, LineInfo, BookingsService, BookingResponse, written, failed, ref_taken, key_taken,
}
use valle_web_backend.Create.Attempts.{booking_row-id}
use valle_web_backend.Create.Write.{
  PreparedBooking, ref_max_tries, booking_row, answer_for, response_for, find_by_idempotency_key,
  inserted, use_code, finish_write, insert_booking, after_reserve, write, after_write, attempt,
  prepare, create_booking, places_request, key_exists, ref_exists,
}

-- One of the first n references that are drawn is free.
abbrev pub has_free : ℕ → List (String × String) → List Booking → Bool
has_free zero draws bookings = false
has_free (suc n) [] bookings = false
has_free (suc n) (x ∷ draws) bookings =
    let rest = has_free n draws bookings in not (ref_exists x.1 bookings) || rest

-- The answer for a booking that was put in front of the others.
unfoldable pub Lands :
    BookingsService → Result (BookingResponse × Desk) → PreparedBooking → Desk → Type 0
Lands service result p d =
    (b : Booking) × (after : Desk) × (result ≡ ok (answer_for service p b, after))
    × (after.places.bookings ≡ b ∷ d.places.bookings)

bookings-delete_hold :
    (hold : Option String) (p : Places) → (delete_hold hold p).bookings ≡ p.bookings
bookings-delete_hold none p = refl
bookings-delete_hold (some id) p = refl

pub bookings-inserted :
    (b : Booking) (p : PreparedBooking) (coupons : List Coupon) (d : Desk)
    → (inserted b p coupons d).places.bookings ≡ b ∷ d.places.bookings
bookings-inserted b p coupons d =
    ap (λ bs. b ∷ bs) (bookings-delete_hold p.request.hold_id d.places)

module _ (cat : Catalogue) (service : BookingsService) (now : Time) (p : PreparedBooking)
    (coupons : List Coupon) (d : Desk) where
  insert_booking-row :
      (id ref_code : String)
      → key_exists p.request.form.idempotency_key d.places.bookings ≡ false
      → use_code p.adjustment d.coupons ≡ ok coupons
      → insert_booking (booking_row service id ref_code p) p d ≡ (
          if ref_exists ref_code d.places.bookings
          then failed ref_taken
          else written (
            booking_row service id ref_code p,
            inserted (booking_row service id ref_code p) p coupons d,
          ))
  unfolding insert_booking finish_write
  insert_booking-row id ref_code free used =
      let b = booking_row service id ref_code p in
      let bookings = d.places.bookings in
      let (_, same_key, same_ref) = booking_row-id service id ref_code p in
      let new = ap (λ k. key_exists k bookings) same_key ∙ free in
      let writes = λ (coupons : Result (List Coupon)). finish_write b p d coupons in
      ap
        (λ t.
          if ref_exists b.ref_code bookings
          then failed ref_taken
          else if t
          then failed key_taken
          else writes (use_code p.adjustment d.coupons))
        new
      ∙ ap
          (λ r.
            if ref_exists r bookings
            then failed ref_taken
            else writes (use_code p.adjustment d.coupons))
          same_ref
      ∙ ap (λ u. if ref_exists ref_code bookings then failed ref_taken else writes u) used

  -- One attempt, by whether its reference is taken.
  attempt_row-Lands :
      (b : Booking) (again result : Result (BookingResponse × Desk)) (taken rest : Bool)
      → (rest ≡ true → Lands service again p d)
      → not taken || rest ≡ true
      → result
        ≡ after_write service p again d
            (if taken then failed ref_taken else written (b, inserted b p coupons d))
      → Lands service result p d
  unfolding after_write Lands
  attempt_row-Lands b again result true rest later free h =
      subst (λ r. Lands service r p d) (sym h) (later free)
  attempt_row-Lands b again result false rest later free h =
      (b, inserted b p coupons d, h, bookings-inserted b p coupons d)

  attempt-Lands :
      (n : ℕ) (draws : List (String × String))
      → reserve_places now d.places (places_request p) cat.calendar cat.infos ≡ ok tt
      → key_exists p.request.form.idempotency_key d.places.bookings ≡ false
      → use_code p.adjustment d.coupons ≡ ok coupons
      → has_free n draws d.places.bookings ≡ true
      → Lands service (attempt cat service now p n draws d) p d
  unfolding attempt after_write Lands write after_reserve
  attempt-Lands zero draws room new used free = cc free
  attempt-Lands (suc n) [] room new used free = cc free
  attempt-Lands (suc n) ((id, ref_code) ∷ draws) room new used free =
      let b = booking_row service id ref_code p in
      let again = attempt cat service now p n draws d in
      let row = ap (λ r. after_reserve r b p d) room ∙ insert_booking-row id ref_code new used in
      let taken = ref_exists ref_code d.places.bookings in
      attempt_row-Lands b again (attempt cat service now p (suc n) ((id, ref_code) ∷ draws) d) taken
        (has_free n draws d.places.bookings) (λ t. attempt-Lands n draws room new used t) free
        (ap (after_write service p again d) row)

-- A new request (no booking has its key) that is prepared, finds room and may use its code, or has none,
-- is answered with a booking in front of the others where one of the first twenty references that are
-- drawn is free; the bookings before it stay as they were.
pub create_booking-Lands :
    (cat : Catalogue) (info : String → Option LineInfo) (service : BookingsService) (today : Day)
    (now : Time) (draws : List (String × String)) (r : BookingRequest) (before d : Desk)
    (p : PreparedBooking) (coupons : List Coupon)
    → find_by_idempotency_key r.form.idempotency_key before ≡ none
    → prepare cat info today r before ≡ ok p
    → key_exists p.request.form.idempotency_key d.places.bookings ≡ false
    → reserve_places now d.places (places_request p) cat.calendar cat.infos ≡ ok tt
    → use_code p.adjustment d.coupons ≡ ok coupons
    → has_free ref_max_tries draws d.places.bookings ≡ true
    → Lands service (create_booking cat info service today now draws r before d) p d
unfolding create_booking
create_booking-Lands cat info service today now draws r before d p coupons nothing prepared new room
      used free =
    let next = λ (p : PreparedBooking). attempt cat service now p ref_max_tries draws d in
    let call = prepare cat info today r before >>= next in
    let runs =
      ap (λ o. elim o [ some done ↦ ok (response_for service done before, d) | none ↦ call ])
        nothing
      ∙ ap (λ (x : Result PreparedBooking). x >>= next) prepared in
    subst (λ x. Lands service x p d) (sym runs)
      (attempt-Lands cat service now p coupons d ref_max_tries draws room new used free)
