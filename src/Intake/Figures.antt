-- ===== src/Intake/Figures.antt =====
-- bookings/bookings.service.ts and bookings/booking-records.ts: the figures of a written booking.
use valle_web_backend.Prelude.{ℕ, ◌+◌, ◌≡◌, refl, String, some, List, [], ◌∷◌, sum_of, arith}
use valle_web_backend.Prelude.Http.{ok}
use valle_web_backend.Day.{Day}
use valle_web_backend.Booking.{BookingLine}
use valle_web_backend.Pricing.Types.{
  PricingExperience, PricingSettings, PricingInput, PricingPriceRow, PricedLine, PricedBooking,
  Product,
}
use valle_web_backend.Pricing.Compute.{compute_booking}
use valle_web_backend.Pricing.Adjust.{adjustment_amount}
use valle_web_backend.Pricing.Sums.{compute_booking-sums}
use valle_web_backend.Pricing.Discounts.{adjustment_amount-le-total}
use valle_web_backend.Coupons.{CouponOffer}
use valle_web_backend.Intake.{
  CreateBooking, BookingContact, BookingAdjustment, new_booking_record, records_from, line_records,
}

-- The adjustment that create makes of a code's offer.
unfoldable pub adjustment_of : CouponOffer → PricedBooking → BookingAdjustment
adjustment_of offer priced = record {
  kind = offer.kind;
  value = offer.value;
  amount = adjustment_amount offer.kind offer.value priced;
  note = offer.note;
  code = offer.code;
}

sum-records_from :
    (id : String) (i : ℕ) (lines : List PricedLine)
    → sum_of (λ (l : BookingLine). l.amount) (records_from id i lines)
      ≡ sum_of (λ (l : PricedLine). l.amount) lines
sum-records_from id i [] = refl
sum-records_from id i (l ∷ lines) = omega (arith, sum-records_from id (i + 1) lines)

module _ (experiences : List PricingExperience) (settings : PricingSettings) (input : PricingInput)
    (rows : List PricingPriceRow) (products : List Product) where
  -- A booking that is priced and written with a code's offer balances to the rupee: its total, what the
  -- code takes off and the discount add up to the subtotal, which is the sum of the written lines.
  pub new_booking_record-balanced :
      (id ref_code : String) (dto : CreateBooking) (contact : BookingContact)
      (priced : PricedBooking) (offer : CouponOffer)
      → compute_booking experiences settings input rows products ≡ ok priced
      → let b =
          new_booking_record id dto priced ref_code contact (some (adjustment_of offer priced)) in
        (b.total + b.adjustment_amount + b.discount ≡ b.subtotal)
        × (sum_of (λ l. l.amount) (line_records b.id priced.lines) ≡ b.subtotal)
  unfolding new_booking_record adjustment_of line_records
  new_booking_record-balanced id ref_code dto contact priced offer h =
      let (_, whole, printed, _) =
        compute_booking-sums experiences settings input rows products priced h in
      let (held, _) =
        adjustment_amount-le-total experiences settings input rows products offer.kind offer.value
          priced h in
      (omega (arith, whole, held), omega (arith, printed, sum-records_from id 0 priced.lines))
