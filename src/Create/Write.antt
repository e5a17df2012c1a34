-- ===== src/Create/Write.antt =====
-- bookings/bookings.service.ts (price, write, persist, create): one attempt to write a booking, and the attempts.
use mathlib.Core.Option
use valle_web_backend.Prelude.{
  ◌==◌, true, ℕ, zero, suc, ◌+◌, ◌*◌, ◌/◌, min, String, Option, none, some, List, [], ◌∷◌, ◌++◌,
  Bool, false, find, any, map, or_zero, or_default, is_some, if◌then◌else◌, str_eq,
}
use valle_web_backend.Prelude.Text.{is_filled, or_empty}
use valle_web_backend.Prelude.Http.{Result, ok, err, conflict, ◌>>=◌, ◌>>◌}
use valle_web_backend.Day.{Day}
use valle_web_backend.Booking.{PayMode, Time, Booking, BookingLine}
use valle_web_backend.Pricing.Types.{PricingItem, PricingInput, PricedLine, PricedBooking}
use valle_web_backend.Pricing.Compute.{compute_booking}
use valle_web_backend.Coupons.{Coupon, resolve, consume}
use valle_web_backend.Capacity.{PlacesItem, PlacesRequest}
use valle_web_backend.Capacity.Reserve.{reserve_places, delete_hold}
use valle_web_backend.Intake.{
  BookingContact, BookingAdjustment, validate_request, new_booking_record, line_records,
}
use valle_web_backend.Intake.Figures.{adjustment_of}
use valle_web_backend.Edits.{Desk, Catalogue}
use valle_web_backend.Edits.Fitting.{lines_of}
use valle_web_backend.Payments.Service.{Checkout}
use valle_web_backend.Create.{
  TicketLinks, BookingsService, BookingRequest, LineInfo, BookingResponse, WriteResult, thrown,
  ref_taken, key_taken, written, failed,
}
use valle_web_backend.Create.Party.{party_item, check_party}

-- Rupees a group pays up front, for the percentage of the settings: none where the text is no number.
unfoldable pub group_deposit_amount : ℕ → Option ℕ → ℕ
group_deposit_amount total percent = (total * min 100 (or_default percent 30) + 50) / 100

-- Everything create works out before it writes.
pub record PreparedBooking : Type 0 where
  pub request : BookingRequest
  pub priced : PricedBooking
  pub contact : BookingContact
  pub adjustment : Option BookingAdjustment

abbrev pub places_item : PricingItem → PlacesItem
places_item i = record {
  id = i.id;
  adults = i.adults;
  kids = i.kids;
  units = i.units;
  time = i.time;
}

abbrev pub places_request : PreparedBooking → PlacesRequest
places_request p = record {
  visit_date = p.contact.visit_date;
  slot = p.request.form.slot;
  adults = p.request.form.adults;
  kids = p.request.form.kids;
  infants = some (or_zero p.request.form.infants);
  items = map places_item p.request.items;
  hold_id = p.request.hold_id;
  except_booking_id = none;
}

-- The row, with a group's deposit.
unfoldable pub booking_row : BookingsService → String → String → PreparedBooking → Booking
booking_row service id ref_code p =
    let b = new_booking_record id p.request.form p.priced ref_code p.contact p.adjustment in
    if is_some p.request.form.group
    then record b { deposit_amount = group_deposit_amount b.total service.deposit_percent }
    else b

abbrev pub has_key : String → Booking → Bool
has_key key b = elim b.idempotency_key [ none ↦ false | some k ↦ str_eq k key ]

abbrev pub ref_exists : String → List Booking → Bool
ref_exists ref_code bookings = any (λ (b : Booking). str_eq b.ref_code ref_code) bookings

-- The unique index over the keys that are not null.
abbrev pub key_exists : Option String → List Booking → Bool
key_exists none bookings = false
key_exists (some key) bookings = any (has_key key) bookings

-- A code is used where the request has an adjustment.
unfoldable pub use_code : Option BookingAdjustment → List Coupon → Result (List Coupon)
use_code none coupons = ok coupons
use_code (some a) coupons = consume a.code coupons

abbrev pub inserted : Booking → PreparedBooking → List Coupon → Desk → Desk
inserted b p coupons d =
    let kept = delete_hold p.request.hold_id d.places in
    record d {
      places = record kept {
        bookings = b ∷ kept.bookings;
        lines = line_records b.id p.priced.lines ++ kept.lines;
      };
      coupons = coupons;
    }

unfoldable pub finish_write :
    Booking → PreparedBooking → Desk → Result (List Coupon) → WriteResult (Booking × Desk)
finish_write b p d (ok coupons) = written (b, inserted b p coupons d)
finish_write b p d (err e) = failed (thrown e)

-- The row is inserted, unless its reference or its key is taken, of which the older index, that of the
-- references, is met first; then the code is counted.
unfoldable pub insert_booking : Booking → PreparedBooking → Desk → WriteResult (Booking × Desk)
insert_booking b p d =
    if ref_exists b.ref_code d.places.bookings
    then failed ref_taken
    else if key_exists b.idempotency_key d.places.bookings
    then failed key_taken
    else finish_write b p d (use_code p.adjustment d.coupons)

unfoldable pub after_reserve :
    Result (Unit {0}) → Booking → PreparedBooking → Desk → WriteResult (Booking × Desk)
after_reserve (ok done) b p d = insert_booking b p d
after_reserve (err e) b p d = failed (thrown e)

-- The booking, its code's use and its lines, in one transaction. `id` is the key the database draws.
unfoldable pub write :
    Catalogue
    → BookingsService
    → Time
    → PreparedBooking
    → String
    → String
    → Desk
    → WriteResult (Booking × Desk)
write cat service now p id ref_code d =
    after_reserve (reserve_places now d.places (places_request p) cat.calendar cat.infos)
      (booking_row service id ref_code p) p d

abbrev pub printed : PricedLine → String × ℕ
printed l = (l.label, l.amount)

abbrev pub printed_row : BookingLine → String × ℕ
printed_row l = (l.label, l.amount)

abbrev pub deposit_of : Booking → String → Option (ℕ × String)
deposit_of b bank = if b.deposit_amount == 0 then none else some (b.deposit_amount, bank)

-- The links are those of the tickets, where there are any.
abbrev pub booking_response :
    Booking → List (String × ℕ) → Option TicketLinks → Option Checkout → String → BookingResponse
booking_response b lines tickets checkout bank = record {
  ref_code = b.ref_code;
  total = b.total;
  discount = b.discount;
  adjustment = b.adjustment_amount;
  adjustment_note = b.adjustment_note;
  coupon_code = b.coupon_code;
  lines = lines;
  status = b.status;
  ticket_url = Option.map (λ (t : TicketLinks). t.ticket_url b.ref_code b.lang) tickets;
  qr_url = Option.map (λ (t : TicketLinks). t.qr_url b.ref_code) tickets;
  checkout = checkout;
  deposit = deposit_of b bank;
}

abbrev pays_online : PayMode → Bool
pays_online PayMode.online = true
pays_online PayMode.gate = false

-- The checkout of a guest who pays online, where there is a gateway and the checkout opens. The ticket that
-- is sent where there is none is left out.
unfoldable pub open_checkout_or_send_ticket :
    BookingsService → BookingRequest → Booking → Option Checkout
open_checkout_or_send_ticket service r b =
    if pays_online r.form.pay_mode
    then elim service.payments [ none ↦ none | some start_checkout ↦ start_checkout b ]
    else none

-- The answer for a booking that is just written: the end of persist.
unfoldable pub answer_for : BookingsService → PreparedBooking → Booking → BookingResponse
answer_for service p b =
    booking_response b (map printed p.priced.lines) service.tickets
      (open_checkout_or_send_ticket service p.request b) service.bank_details

-- The response for a booking that is already written: its lines and the bank details are read again, and
-- there is no checkout.
unfoldable pub response_for : BookingsService → Booking → Desk → BookingResponse
response_for service b d =
    booking_response b (map printed_row (lines_of b.id d.places.lines)) service.tickets none
      service.bank_details_again

-- findOne by the request's key; an empty one is none.
unfoldable pub find_by_idempotency_key : Option String → Desk → Option Booking
find_by_idempotency_key none d = none
find_by_idempotency_key (some key) d =
    if is_filled key then find (has_key key) d.places.bookings else none

abbrev pub ref_message : String
ref_message = "Could not allocate a unique booking reference, please try again"

-- What an attempt leaves to do: the answer, a twin to look for, or another reference.
unfoldable pub after_write :
    BookingsService
    → PreparedBooking
    → Result (BookingResponse × Desk)
    → Desk
    → WriteResult (Booking × Desk)
    → Result (BookingResponse × Desk)
after_write service p again d (written (b, d')) = ok (answer_for service p b, d')
after_write service p again d (failed (thrown e)) = err e
after_write service p again d (failed ref_taken) = again
after_write service p again d (failed key_taken) =
    elim (find_by_idempotency_key p.request.form.idempotency_key d) [
      | some twin ↦ ok (response_for service twin d, d)
      | none ↦ again
    ]

-- REF_MAX_TRIES
abbrev pub ref_max_tries : ℕ
ref_max_tries = 20

-- At most n attempts, each with the key and the reference that it draws.
unfoldable pub attempt :
    Catalogue
    → BookingsService
    → Time
    → PreparedBooking
    → ℕ
    → List (String × String)
    → Desk
    → Result (BookingResponse × Desk)
attempt cat service now p zero draws d = err (conflict ref_message)
attempt cat service now p (suc n) [] d = err (conflict ref_message)
attempt cat service now p (suc n) ((id, ref_code) ∷ draws) d =
    after_write service p (attempt cat service now p n draws d) d
      (write cat service now p id ref_code d)

unfoldable pub adjustment_for :
    List Coupon → Day → Option String → PricedBooking → Result (Option BookingAdjustment)
adjustment_for coupons today code priced =
    if is_filled (or_empty code)
    then (resolve coupons today (or_empty code) >>= λ offer. ok (some (adjustment_of offer priced)))
    else ok none

abbrev pub pricing_input : BookingRequest → BookingContact → PricingInput
pricing_input r contact = record {
  adults = r.form.adults;
  kids = r.form.kids;
  infants = some (or_zero r.form.infants);
  rate = r.form.rate;
  items = r.items;
  visit_date = some contact.visit_date;
}

-- The rules, the price and the code, before anything is written.
unfoldable pub prepare :
    Catalogue → (String → Option LineInfo) → Day → BookingRequest → Desk → Result PreparedBooking
prepare cat info today r d = do
  contact ← validate_request r.form today
  check_party (map party_item r.items)
      (record {
        adults = r.form.adults;
        kids = r.form.kids;
        infants = some (or_zero r.form.infants);
      })
      info
  priced ←
      compute_booking cat.experiences cat.settings (pricing_input r contact) cat.price_rows
        cat.products
  adjustment ← adjustment_for d.coupons today r.coupon_code priced
  ok (record { request = r; priced = priced; contact = contact; adjustment = adjustment })

-- A booking as the website takes it. `before` is the state that the look-up and the preparation read,
-- and `d` the one that the attempts find: other requests may come between.
unfoldable pub create_booking :
    Catalogue
    → (String → Option LineInfo)
    → BookingsService
    → Day
    → Time
    → List (String × String)
    → BookingRequest
    → Desk
    → Desk
    → Result (BookingResponse × Desk)
create_booking cat info service today now draws r before d =
    elim (find_by_idempotency_key r.form.idempotency_key before) [
      | some done ↦ ok (response_for service done before, d)
      | none ↦
          prepare cat info today r before >>= λ p. attempt cat service now p ref_max_tries draws d
    ]
