-- ===== src/Intake/Tests.antt =====
-- bookings/bookings.service.ts and bookings/booking-records.ts: a small request.
use valle_web_backend.Prelude.{◌+◌, ◌≡◌, refl, some, none, [], ◌∷◌, sum_of}
use valle_web_backend.Prelude.Text.{trim}
use valle_web_backend.Prelude.Http.{ok, err, bad_request}
use valle_web_backend.Booking.{SlotKey, PayMode}
use valle_web_backend.Pricing.Types.{Rate, AdjustmentKind}
use valle_web_backend.Pricing.Tests.{
  rides, park_settings, family_of_three, senior_pack, expected, runs,
}
use valle_web_backend.Coupons.{CouponOffer}
use valle_web_backend.Intake.{
  CreateBooking, BookingContact, validate_request, new_booking_record, line_records,
}
use valle_web_backend.Intake.Figures.{adjustment_of, new_booking_record-balanced}

abbrev pub a_request : CreateBooking
a_request = record {
  visit_date = 2026_02_09;
  slot = SlotKey.morning;
  adults = 2;
  kids = 1;
  infants = none;
  rate = Rate.rr;
  name = "Ana";
  phone = none;
  email = some " ana@example.com ";
  idempotency_key = none;
  lang = none;
  group = none;
  pay_mode = PayMode.gate;
}

abbrev pub a_contact : BookingContact
a_contact = record { email = "ana@example.com"; phone = ""; visit_date = 2026_02_09 }

abbrev ten_percent : CouponOffer
ten_percent = record { code = "SUMMER-10"; kind = AdjustmentKind.percent; value = 10; note = "" }

taken : validate_request a_request 2026_02_09 ≡ ok a_contact
unfolding validate_request trim
taken = refl

late : validate_request a_request 2026_02_10 ≡ err (bad_request "visitDate cannot be in the past")
unfolding validate_request trim
late = refl

new_booking_record-balanced_example :
    let b =
      new_booking_record "b1" a_request expected "VAL-1001-26" a_contact
        (some (adjustment_of ten_percent expected)) in
    (b.total + b.adjustment_amount + b.discount ≡ b.subtotal)
    × (sum_of (λ l. l.amount) (line_records b.id expected.lines) ≡ b.subtotal)
new_booking_record-balanced_example =
    new_booking_record-balanced rides park_settings family_of_three [] (senior_pack ∷ []) "b1"
      "VAL-1001-26" a_request a_contact expected ten_percent runs
