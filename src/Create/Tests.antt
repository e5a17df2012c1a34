-- ===== src/Create/Tests.antt =====
-- bookings/bookings.service.ts: a small request, taken and sent again, and the theorems at it.
use valle_web_backend.Prelude.{◌≡◌, refl, String, Option, some, none, List, [], ◌∷◌, false, All}
use valle_web_backend.Prelude.Text.{decimal, trim}
use valle_web_backend.Prelude.Upper.{upper_solid, upper_char}
use valle_web_backend.Prelude.Http.{Result, ok, err, traverse}
use valle_web_backend.Prelude.Rows.{row, save}
use valle_web_backend.Booking.{PayMode, BookingStatus}
use valle_web_backend.Payments.Service.{Checkout, start_checkout, checkout_due, open_checkout}
use valle_web_backend.Payments.Tests.{a_service, some_money}
use valle_web_backend.Coupons.Tests.{summer_table}
use valle_web_backend.Intake.Tests.{a_request}
use valle_web_backend.Capacity.{closure_for}
use valle_web_backend.Edits.{Desk}
use valle_web_backend.Edits.Tests.{a_catalogue, at_desk}
use valle_web_backend.Edits.Balanced.{AreBalanced}
use valle_web_backend.Create.{BookingsService, BookingRequest, BookingResponse, LineInfo}
use valle_web_backend.Create.Write.{
  answer_for, open_checkout_or_send_ticket, PreparedBooking, prepare, create_booking,
  adjustment_for, after_reserve, after_write, attempt, booking_row, find_by_idempotency_key,
  finish_write, insert_booking, use_code, write,
}
use valle_web_backend.Edits.Update.{postpone, find_ref, put_booking}
use valle_web_backend.Create.Balanced.{IsUnused}
use valle_web_backend.Create.Write.{places_request, key_exists}
use valle_web_backend.Intake.Tests.{a_contact}
use valle_web_backend.Pricing.Tests.{expected}
use valle_web_backend.Create.Retry.{AreFresh, told_again, create_booking-retry}
use valle_web_backend.Create.Landed.{Lands, create_booking-Lands}
use valle_web_backend.Create.Run.{created, postponed, opened, after_call, DeskCalls-AreBalanced}
use valle_web_backend.Pricing.Adjust.{adjustment_amount}
use valle_web_backend.Intake.Figures.{adjustment_of}
use valle_web_backend.Create.Party.{assert_age_minimums, check_party}
use valle_web_backend.Patch.Party.{assert_lines_fit_party}
use valle_web_backend.Pricing.Validate.{book_experiences, booked_experiences, booked_products}
use valle_web_backend.Capacity.Taken.{booked_guests, held_guests}
use valle_web_backend.Pricing.Compute.{by_order, compute_booking, entry_amount, total_up}
use valle_web_backend.Capacity.Reserve.{check_items, reserve_places}
use valle_web_backend.Coupons.{consume, find_code, increment, normalise, offer_of, resolve}
use valle_web_backend.Pricing.Coverage.{cover_items, entry_coverage, entry_prices, park_entry_line}
use valle_web_backend.Pricing.Pass.{distinct, explorer_pass}
use valle_web_backend.Intake.{line_records, new_booking_record, validate_request}
use valle_web_backend.Pricing.Party.{party_label, price_for, rate_of}
use valle_web_backend.Edits.Fitting.{lines_of}

abbrev no_bookings : Desk
no_bookings = record {
  places = record { bookings = []; lines = []; holds = [] };
  coupons = summer_table;
  trail = [];
}

abbrev keyed_request : BookingRequest
keyed_request = record {
  form = record a_request { idempotency_key = some "k1"; pay_mode = PayMode.online };
  items = [];
  coupon_code = some "summer-10";
  hold_id = none;
}

abbrev opened_checkout : Result Checkout → Option Checkout
opened_checkout (ok c) = some c
opened_checkout (err e) = none

-- The bank details change between the first answer and the second.
abbrev a_shop : BookingsService
a_shop = record {
  tickets = some (record { ticket_url = λ ref lang. ref; qr_url = λ ref. ref });
  payments = some (λ b. opened_checkout (start_checkout a_service "p9" 5 b some_money).1);
  deposit_percent = none;
  bank_details = "MCB 1";
  bank_details_again = "MCB 2";
}

abbrev no_infos : String → Option LineInfo
no_infos id = none

abbrev some_draws : List (String × String)
some_draws = ("b1", "VAL-1001-26") ∷ ("b2", "VAL-1002-26") ∷ []

abbrev answer_or : BookingResponse × Desk → Result (BookingResponse × Desk) → BookingResponse × Desk
answer_or a (ok b) = b
answer_or a (err e) = a

abbrev no_answer : BookingResponse
no_answer = record {
  ref_code = "";
  total = 0;
  discount = 0;
  adjustment = 0;
  adjustment_note = "";
  coupon_code = "";
  lines = [];
  status = BookingStatus.confirmed;
  ticket_url = none;
  qr_url = none;
  checkout = none;
  deposit = none;
}

abbrev desk_or : Desk → Result Desk → Desk
desk_or d (ok e) = e
desk_or d (err e) = d

abbrev taken : BookingResponse × Desk
taken =
    answer_or (no_answer, no_bookings)
      (create_booking a_catalogue no_infos a_shop 2026_02_09 5 some_draws keyed_request no_bookings
        no_bookings)

abbrev prepared_or : PreparedBooking → Result PreparedBooking → PreparedBooking
prepared_or p (ok q) = q
prepared_or p (err e) = p

abbrev prepared : PreparedBooking
prepared =
    prepared_or
      (record {
        request = keyed_request;
        priced = expected;
        contact = a_contact;
        adjustment = none;
      })
      (prepare a_catalogue no_infos 2026_02_09 keyed_request no_bookings)

abbrev put_off : Desk
put_off = desk_or taken.1 (postpone "VAL-1001-26" "Heavy rain" at_desk taken.1)

-- The request is prepared, finds room, may use the code and is taken; then the day is rained off.
runs :
    (prepare a_catalogue no_infos 2026_02_09 keyed_request no_bookings ≡ ok prepared)
    × (reserve_places 5 no_bookings.places
          (places_request prepared)
          a_catalogue.calendar
          a_catalogue.infos
        ≡ ok tt)
    × (use_code prepared.adjustment summer_table ≡ ok taken.1.coupons)
    × (key_exists prepared.request.form.idempotency_key [] ≡ false)
    × (create_booking a_catalogue no_infos a_shop 2026_02_09 5 some_draws keyed_request no_bookings
          no_bookings
        ≡ ok taken)
    × (taken.0.total ≡ 1125)
    × (taken.0.checkout ≡ some (record { payment_id = "p9"; checkout_url = "/pay" }))
    × (postpone "VAL-1001-26" "Heavy rain" at_desk taken.1 ≡ ok put_off)
unfolding postpone find_ref put_booking save create_booking find_by_idempotency_key prepare
    validate_request check_party assert_lines_fit_party assert_age_minimums compute_booking
    booked_products booked_experiences book_experiences entry_prices cover_items entry_coverage
    park_entry_line price_for rate_of party_label distinct explorer_pass by_order entry_amount
    total_up traverse decimal trim adjustment_for resolve normalise upper_solid upper_char find_code
    offer_of adjustment_of adjustment_amount attempt write after_reserve reserve_places check_items
    booked_guests held_guests closure_for booking_row new_booking_record insert_booking use_code
    answer_for open_checkout_or_send_ticket start_checkout checkout_due open_checkout consume
    increment finish_write after_write line_records
runs = (refl, refl, refl, refl, refl, refl, refl, refl)

no_twin : find_by_idempotency_key (some "k1") no_bookings ≡ none
unfolding find_by_idempotency_key
no_twin = refl

draws-AreFresh : AreFresh no_bookings some_draws
unfolding lines_of
draws-AreFresh = (refl, (refl, tt))

-- Sent again with nobody in it, on another day.
abbrev sent_again : BookingRequest
sent_again = record keyed_request { form = record keyed_request.form { adults = 0; kids = 0 } }

create_booking-retry_example :
    create_booking a_catalogue no_infos a_shop 2026_03_01 9 [] sent_again taken.1 no_bookings
    ≡ ok (told_again "MCB 2" taken.0, no_bookings)
create_booking-retry_example =
    create_booking-retry a_catalogue no_infos a_shop 2026_02_09 5 some_draws keyed_request
      no_bookings no_bookings "k1" taken.0 taken.1 refl refl no_twin draws-AreFresh runs.4
      a_catalogue no_infos a_shop 2026_03_01 9 [] sent_again no_bookings refl refl

create_booking-Lands_example :
    Lands a_shop
      (create_booking a_catalogue no_infos a_shop 2026_02_09 5 some_draws keyed_request no_bookings
        no_bookings)
      prepared
      no_bookings
create_booking-Lands_example =
    create_booking-Lands a_catalogue no_infos a_shop 2026_02_09 5 some_draws keyed_request
      no_bookings no_bookings prepared taken.1.coupons no_twin runs.0 runs.3 runs.1 runs.2 refl

none-AreBalanced : AreBalanced no_bookings
unfolding row
none-AreBalanced = (tt, λ id b h. cc h)

draws-AreUnused : All (λ (x : String × String). IsUnused no_bookings x.0) some_draws
unfolding row lines_of
draws-AreUnused = ((refl, refl), ((refl, refl), tt))

DeskCalls-AreBalanced_example : AreBalanced put_off
DeskCalls-AreBalanced_example = DeskCalls-AreBalanced no_bookings put_off none-AreBalanced (
    after_call
      (after_call opened (
        created a_catalogue no_infos a_shop 2026_02_09 5 some_draws keyed_request no_bookings
          taken.0 draws-AreUnused runs.4))
      (postponed "VAL-1001-26" "Heavy rain" at_desk runs.7))
