-- ===== src/Edits/Money.antt =====
-- staff/bookings/staff-bookings.service.ts (reprice, applyAdjustment): the money of an edited booking.
use valle_web_backend.Prelude.{
  ◌-◌, String, Option, none, some, List, [], ◌∷◌, ◌++◌, Bool, true, false, not, map, filter,
  or_default, if◌then◌else◌,
}
use valle_web_backend.Prelude.Text.{concat, is_filled}
use valle_web_backend.Prelude.Http.{Result, ok, ◌>>=◌}
use valle_web_backend.Day.{Day}
use valle_web_backend.Booking.{Booking, BookingLine}
use valle_web_backend.Pricing.Types.{AdjustmentKind, PricingItem, PricingInput, PricedBooking}
use valle_web_backend.Pricing.Compute.{compute_booking}
use valle_web_backend.Pricing.Adjust.{adjustment_amount}
use valle_web_backend.Coupons.{Coupon, CouponOffer, resolve, consume}
use valle_web_backend.Intake.{line_records}
use valle_web_backend.Patch.{BookingPatch, PatchItem}
use valle_web_backend.Patch.Party.{repricing_items}
use valle_web_backend.Edits.{Desk, Catalogue}
use valle_web_backend.Edits.Fitting.{of_booking, paid_lines}

-- A code's offer on the booking.
unfoldable pub with_offer : CouponOffer → Booking → Booking
with_offer offer b = record b {
  coupon_code = offer.code;
  adjustment_kind = offer.kind;
  adjustment_value = offer.value;
  adjustment_note = if is_filled offer.note then offer.note else concat ("Code " ∷ offer.code ∷ []);
}

unfoldable pub without_code : Booking → Booking
without_code b = record b {
  coupon_code = "";
  adjustment_kind = AdjustmentKind.none;
  adjustment_value = 0;
  adjustment_note = "";
}

-- The code of the patch: an empty one takes the booking's code off it, another is used once more.
unfoldable pub apply_code :
    Day → Option String → Booking → List Coupon → Result (Booking × List Coupon)
apply_code today none b coupons = ok (b, coupons)
apply_code today (some code) b coupons =
    if is_filled code
    then (resolve coupons today code >>= λ offer.
        consume offer.code coupons >>= λ left. ok (with_offer offer b, left))
    else ok (without_code b, coupons)

abbrev pub is_none : AdjustmentKind → Bool
is_none AdjustmentKind.none = true
is_none _ = false

-- The adjustment that the patch names.
unfoldable pub with_manual : BookingPatch → Booking → Booking
with_manual patch b =
    let kind = or_default patch.adjustment_kind b.adjustment_kind in
    record b {
      adjustment_kind = kind;
      adjustment_value =
          if is_none kind then 0 else or_default patch.adjustment_value b.adjustment_value;
      adjustment_note =
          or_default patch.adjustment_note (if is_none kind then "" else b.adjustment_note);
    }

-- What the adjustment takes off, and the total.
unfoldable pub with_total : PricedBooking → Booking → Booking
with_total priced b =
    let amount = adjustment_amount b.adjustment_kind b.adjustment_value priced in
    record b { adjustment_amount = amount; total = priced.total - amount }

unfoldable pub apply_adjustment :
    Day → Booking → BookingPatch → PricedBooking → List Coupon → Result (Booking × List Coupon)
apply_adjustment today b patch priced coupons =
    apply_code today patch.coupon_code b coupons >>= λ after.
    ok (with_total priced (with_manual patch after.0), after.1)

abbrev pub pricing_item : PatchItem → PricingItem
pricing_item i = record {
  id = i.id;
  variant = i.variant;
  adults = i.adults;
  kids = i.kids;
  units = i.units;
  time = i.time;
}

abbrev pub reprice_input : Booking → BookingPatch → List BookingLine → PricingInput
reprice_input b patch lines = record {
  adults = or_default patch.adults b.adults;
  kids = or_default patch.kids b.kids;
  infants = some (or_default patch.infants b.infants);
  rate = or_default patch.rate b.rate;
  items = map pricing_item (repricing_items patch (paid_lines b.id lines));
  visit_date = none;
}

unfoldable pub with_figures : PricedBooking → Booking → Booking
with_figures priced b = record b {
  entry_amount = priced.entry;
  subtotal = priced.subtotal;
  discount = priced.discount;
}

-- DELETE the booking's lines, and INSERT the priced ones.
unfoldable pub rewrite_lines : String → PricedBooking → List BookingLine → List BookingLine
rewrite_lines id priced lines =
    filter (λ l. not (of_booking id l)) lines ++ line_records id priced.lines

-- The booking with its new money, and the tables with its new lines and the code's use.
unfoldable pub reprice : Catalogue → Day → Booking → BookingPatch → Desk → Result (Booking × Desk)
reprice cat today b patch d =
    compute_booking cat.experiences cat.settings (reprice_input b patch d.places.lines)
      cat.price_rows cat.products
    >>= λ priced. apply_adjustment today (with_figures priced b) patch priced d.coupons >>= λ after.
        ok (
          after.0,
          record d {
            places = record d.places { lines = rewrite_lines b.id priced d.places.lines };
            coupons = after.1;
          },
        )
