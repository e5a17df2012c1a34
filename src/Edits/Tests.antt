-- ===== src/Edits/Tests.antt =====
-- staff/bookings/staff-bookings.service.ts: an edit of a small booking, and the theorems at it.
use valle_web_backend.Prelude.{
  ◌≡◌, refl, String, some, none, [], ◌∷◌, true, false, arith, if◌then◌else◌, str_eq, map,
}
use valle_web_backend.Prelude.Text.{decimal, trim}
use valle_web_backend.Prelude.Upper.{upper_solid, upper_char}
use valle_web_backend.Prelude.Http.{Result, ok, err, traverse}
use valle_web_backend.Prelude.Rows.{row, save, IsKeyed}
use valle_web_backend.Booking.{Booking}
use valle_web_backend.Pricing.Tests.{rides, park_settings}
use valle_web_backend.Coupons.{
  CouponOffer, resolve, find_code, offer_of, increment, consume, normalise,
}
use valle_web_backend.Coupons.Tests.{summer_table, summer-IsTable}
use valle_web_backend.Coupons.Table.{bump, on_row}
use valle_web_backend.Capacity.Tests.{small_calendar, zipline}
use valle_web_backend.Capacity.Slots.{IsWithin}
use valle_web_backend.Capacity.Taken.{booked_guests, held_guests}
use valle_web_backend.Payments.{Actor}
use valle_web_backend.Payments.Tests.{a_booking}
use valle_web_backend.Patch.{touches_money, audited_changes, apply_patch, touches_places}
use valle_web_backend.Patch.Tests.{a_patch}
use valle_web_backend.Edits.{
  EditRow, Desk, Catalogue, UpdateBooking, normalize_patch, audit_action, changed_lines, has_fields,
  line_count_changes,
}
use valle_web_backend.Edits.Fitting.{
  fit_lines, ensure_room, fit_own_lines, lines_of, paid_lines, places_items,
}
use valle_web_backend.Edits.Update.{
  write_row, booking_id, find_ref, update, edit_booking, is_unreachable, put_booking, repriced,
  said_of, write_changes, write_edit,
}
use valle_web_backend.Edits.Guest.{guest_cancel, guest_can_change}
use valle_web_backend.Edits.Cancelled.{cancelled_by_guest, guest_cancel_lem}
use valle_web_backend.Edits.Codes.{update-uses_code}
use valle_web_backend.Edits.Seats.{update-IsWithin}
use valle_web_backend.Edits.Money.{
  apply_adjustment, apply_code, reprice, rewrite_lines, with_figures, with_manual, with_offer,
  with_total,
}
use valle_web_backend.Pricing.Validate.{booked_experiences, booked_products, book_experiences}
use valle_web_backend.Pricing.Compute.{by_order, compute_booking, entry_amount, total_up}
use valle_web_backend.Capacity.Reserve.{check_items, reserve_places}
use valle_web_backend.Capacity.{closure_for}
use valle_web_backend.Pricing.Coverage.{cover_items, entry_coverage, entry_prices, park_entry_line}
use valle_web_backend.Pricing.Pass.{distinct, explorer_pass}
use valle_web_backend.Patch.Party.{fit_line, fit_lines_to_party, lines_as_items, repricing_items}
use valle_web_backend.Intake.{line_records}
use valle_web_backend.Pricing.Party.{party_label, price_for, rate_of}
use valle_web_backend.Pricing.Adjust.{adjustment_amount}

-- A booking for three with the summer code, at a desk with that code alone.
abbrev summer_booking : Booking
summer_booking = record a_booking { coupon_code = "SUMMER-10" }

abbrev pub a_catalogue : Catalogue
a_catalogue = record {
  experiences = rides;
  settings = park_settings;
  price_rows = [];
  products = [];
  calendar = small_calendar;
  infos = zipline;
}

abbrev a_desk : Desk
a_desk = record {
  places = record { bookings = summer_booking ∷ []; lines = []; holds = [] };
  coupons = summer_table;
  trail = [];
}

abbrev pub at_desk : Actor
at_desk = record { id = some "s1"; email = "desk@example.com" }

-- One adult more, and the code once more.
abbrev one_more : UpdateBooking
one_more = record {
  sent = record a_patch { phone = none; status = none; coupon_code = some "summer-10" };
  reason = none;
  override = false;
}

abbrev desk_of : Result Desk → Desk
desk_of (ok d) = d
desk_of (err e) = a_desk

abbrev edited : Desk
edited = desk_of (update a_catalogue 2026_02_09 5 "VAL-1001-26" one_more false none at_desk a_desk)

-- Ten percent off the entry for four.
is_edited :
    (update a_catalogue 2026_02_09 5 "VAL-1001-26" one_more false none at_desk a_desk ≡ ok edited)
    × (map (λ (b : Booking). b.total) edited.places.bookings ≡ 1575 ∷ [])
unfolding update find_ref edit_booking write_changes write_edit repriced said_of is_unreachable
    put_booking save normalize_patch has_fields audit_action fit_lines fit_own_lines paid_lines
    lines_of places_items ensure_room audited_changes apply_patch touches_money touches_places
    lines_as_items fit_lines_to_party fit_line line_count_changes changed_lines repricing_items
    reprice apply_adjustment apply_code with_offer with_manual with_total with_figures rewrite_lines
    line_records normalise upper_solid upper_char find_code resolve offer_of consume increment
    reserve_places check_items booked_guests held_guests closure_for compute_booking booked_products
    booked_experiences book_experiences entry_prices cover_items entry_coverage park_entry_line
    price_for rate_of party_label distinct explorer_pass by_order entry_amount total_up traverse
    decimal trim adjustment_amount
is_edited = (refl, refl)

some_room : IsWithin 5 small_calendar a_desk.places
unfolding booked_guests held_guests
some_room = λ date slot. ground arith

one_key : IsKeyed booking_id a_desk.places.bookings
unfolding row
one_key = (refl, tt)

update-IsWithin_example : IsWithin 5 small_calendar edited.places
update-IsWithin_example =
    update-IsWithin a_catalogue 2026_02_09 5 "VAL-1001-26" one_more false none at_desk a_desk edited
      some_room one_key is_edited.0

desk_booking : find_ref "VAL-1001-26" a_desk ≡ ok summer_booking
unfolding find_ref
desk_booking = refl

sent_code : (normalize_patch one_more.sent).coupon_code ≡ some "SUMMER-10"
unfolding normalize_patch normalise upper_solid upper_char
sent_code = refl

sent_money :
    touches_money (
      audited_changes summer_booking
        (fit_lines [] summer_booking (normalize_patch one_more.sent)).0)
    ≡ true
unfolding touches_money audited_changes fit_lines fit_own_lines paid_lines lines_as_items
    fit_lines_to_party line_count_changes changed_lines normalize_patch normalise upper_solid
    upper_char
sent_money = refl

update-uses_code_example :
    (o : CouponOffer) × (resolve summer_table 2026_02_09 "SUMMER-10" ≡ ok o)
    × ((j : String)
        → find_code edited.coupons j ≡ (
            if str_eq o.code j
            then on_row bump (find_code summer_table j)
            else find_code summer_table j))
update-uses_code_example =
    update-uses_code a_catalogue 2026_02_09 5 "VAL-1001-26" "SUMMER-10" one_more false none at_desk
      summer_booking a_desk edited summer-IsTable is_edited.0 desk_booking sent_code refl sent_money

may_cancel : guest_can_change 2026_02_09 summer_booking ≡ ok tt
unfolding guest_can_change
may_cancel = refl

guest_cancel_lem_example :
    (r : EditRow) × (guest_cancel a_catalogue 2026_02_09 5 true "VAL-1001-26" "ill" a_desk
      ≡ ok (write_row r (put_booking (cancelled_by_guest summer_booking "ill") a_desk)))
guest_cancel_lem_example =
    guest_cancel_lem a_catalogue 2026_02_09 5 "VAL-1001-26" "ill" summer_booking a_desk desk_booking
      may_cancel refl
