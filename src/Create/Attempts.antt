-- ===== src/Create/Attempts.antt =====
-- bookings/bookings.service.ts (create): what the attempts of a request come to.
use valle_web_backend.Prelude.{
  ℕ, zero, suc, ◌≡◌, All, refl, sym, ap, ◌∙◌, String, Option, none, some, List, [], ◌∷◌, Bool, true,
  false, ◌⊎◌, inl, inr, if◌then◌else◌, arith,
}
use valle_web_backend.Prelude.Http.{Result, ok, err, eq_of_ok}
use valle_web_backend.Booking.{Time, Booking}
use valle_web_backend.Capacity.Reserve.{reserve_places}
use valle_web_backend.Coupons.{Coupon}
use valle_web_backend.Intake.{new_booking_record}
use valle_web_backend.Edits.{Desk, Catalogue}
use valle_web_backend.Create.{
  BookingsService, BookingResponse, WriteError, WriteResult, written, failed, thrown, ref_taken,
  key_taken,
}
use valle_web_backend.Create.Write.{
  PreparedBooking, booking_row, answer_for, response_for, find_by_idempotency_key, inserted,
  finish_write, insert_booking, after_reserve, write, after_write, attempt, places_request,
}

pub booking_row-id :
    (service : BookingsService) (id ref_code : String) (p : PreparedBooking)
    → ((booking_row service id ref_code p).id ≡ id)
      × ((booking_row service id ref_code p).idempotency_key ≡ p.request.form.idempotency_key)
      × ((booking_row service id ref_code p).ref_code ≡ ref_code)
unfolding booking_row new_booking_record
booking_row-id service id ref_code p = ground arith

-- An answer is that of a booking with the request's key, with the tables as they were, or that of a
-- booking that was inserted under one of the keys that were drawn.
abbrev pub AttemptOutcome :
    BookingsService → PreparedBooking → (String → Type 0) → Desk → BookingResponse × Desk → Type 0
AttemptOutcome service p Fresh d answer =
    ((b : Booking) × (find_by_idempotency_key p.request.form.idempotency_key d ≡ some b)
      × ((response_for service b d, d) ≡ answer))
    ⊎ ((id : String) × (ref_code : String) × (coupons : List Coupon) × Fresh id
        × (let b = booking_row service id ref_code p in
            (answer_for service p b, inserted b p coupons d) ≡ answer))

-- What a write that succeeds has done.
abbrev Inserted : Booking → PreparedBooking → Desk → WriteResult (Booking × Desk) → Type 0
Inserted b p d w = (coupons : List Coupon) × (w ≡ written (b, inserted b p coupons d))

finish_write-cases :
    (b : Booking) (p : PreparedBooking) (d : Desk) (used : Result (List Coupon))
    {x : Booking × Desk}
    → finish_write b p d used ≡ written x
    → Inserted b p d (finish_write b p d used)
unfolding finish_write
finish_write-cases b p d (err e) h = cc h
finish_write-cases b p d (ok coupons) h = (coupons, refl)

if_written :
    {A : Type 0} (t : Bool) (e : WriteError) (w : WriteResult A) {a : A}
    → (if t then failed e else w) ≡ written a
    → (if t then failed e else w) ≡ w
if_written true e w h = cc h
if_written false e w h = refl

after_reserve-cases :
    (room : Result (Unit {0})) (b : Booking) (p : PreparedBooking) (d : Desk) {x : Booking × Desk}
    → after_reserve room b p d ≡ written x
    → Inserted b p d (after_reserve room b p d)
unfolding after_reserve insert_booking
after_reserve-cases (err e) b p d h = cc h
after_reserve-cases (ok done) b p d h =
    let ref_free = if_written _ ref_taken _ h in
    let key_free = if_written _ key_taken _ (sym ref_free ∙ h) in
    let (coupons, is_written) = finish_write-cases b p d _ (sym key_free ∙ sym ref_free ∙ h) in
    (coupons, ref_free ∙ key_free ∙ is_written)

module _ (service : BookingsService) (p : PreparedBooking) (Fresh : String → Type 0)
    (d : Desk) where
  twin-cases :
      (twin : Option Booking) (again : Result (BookingResponse × Desk))
      (answer : BookingResponse × Desk)
      → find_by_idempotency_key p.request.form.idempotency_key d ≡ twin
      → (again ≡ ok answer → AttemptOutcome service p Fresh d answer)
      → elim twin [ some b ↦ ok (response_for service b d, d) | none ↦ again ] ≡ ok answer
      → AttemptOutcome service p Fresh d answer
  twin-cases none again answer found later h = later h
  twin-cases (some b) again answer found later h = inl (b, found, eq_of_ok _ _ h)

  after_write-cases :
      (id ref_code : String) (again : Result (BookingResponse × Desk))
      (w : WriteResult (Booking × Desk)) (answer : BookingResponse × Desk)
      → Fresh id
      → ((x : Booking × Desk) → w ≡ written x → Inserted (booking_row service id ref_code p) p d w)
      → (again ≡ ok answer → AttemptOutcome service p Fresh d answer)
      → after_write service p again d w ≡ ok answer
      → AttemptOutcome service p Fresh d answer
  unfolding after_write
  after_write-cases id ref_code again (written x) answer fresh wrote later h =
      let (coupons, is_written) = wrote x refl in
      inr (
        id,
        ref_code,
        coupons,
        fresh,
        eq_of_ok _ _ (ap (after_write service p again d) (sym is_written) ∙ h),
      )
  after_write-cases id ref_code again (failed (thrown e)) answer fresh wrote later h = cc h
  after_write-cases id ref_code again (failed ref_taken) answer fresh wrote later h = later h
  after_write-cases id ref_code again (failed key_taken) answer fresh wrote later h =
      twin-cases (find_by_idempotency_key p.request.form.idempotency_key d) again answer refl later
        h

  pub attempt-cases :
      (cat : Catalogue) (now : Time) (n : ℕ) (draws : List (String × String))
      (answer : BookingResponse × Desk)
      → All (λ (x : String × String). Fresh x.0) draws
      → attempt cat service now p n draws d ≡ ok answer
      → AttemptOutcome service p Fresh d answer
  unfolding attempt write
  attempt-cases cat now zero draws answer fresh h = cc h
  attempt-cases cat now (suc n) [] answer fresh h = cc h
  attempt-cases cat now (suc n) ((id, ref_code) ∷ draws) answer (here, fresh) h =
      let b = booking_row service id ref_code p in
      let room = reserve_places now d.places (places_request p) cat.calendar cat.infos in
      after_write-cases id ref_code (attempt cat service now p n draws d) (after_reserve room b p d)
        answer here (λ x wrote. after_reserve-cases room b p d wrote)
        (λ again. attempt-cases cat now n draws answer fresh again) h
