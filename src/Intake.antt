-- ===== src/Intake.antt =====
-- bookings/bookings.service.ts (validateRequest) and bookings/booking-records.ts: a request that may be
-- booked, and the rows that a priced request is written as. A group is its number of participants; the
-- columns that entities/booking.entity.ts gives a default are written out.
pub mod Figures
pub mod Tests
use valle_web_backend.Prelude.{
  ℕ, ◌+◌, ◌-◌, String, Option, none, some, List, [], ◌∷◌, Bool, true, false, ◌&&◌, ◌||◌, not, ltb,
  leb, or_zero, or_default, is_some, if◌then◌else◌,
}
use valle_web_backend.Prelude.Text.{or_empty, is_filled, trim}
use valle_web_backend.Prelude.Http.{Result, ok, err, bad_request, ◌>>=◌, ◌>>◌, throw_if}
use valle_web_backend.Day.{Day}
use valle_web_backend.Booking.{SlotKey, PayMode, BookingStatus, Booking, BookingLine}
use valle_web_backend.Pricing.Types.{Rate, AdjustmentKind, PricedLine, PricedBooking}

pub record CreateBooking : Type 0 where
  pub visit_date : Day
  pub slot : SlotKey
  pub adults : ℕ
  pub kids : ℕ
  pub infants : Option ℕ
  pub rate : Rate
  pub name : String
  pub phone : Option String
  pub email : Option String
  pub idempotency_key : Option String
  pub lang : Option String
  -- The participants listed, of a group.
  pub group : Option ℕ
  pub pay_mode : PayMode

pub record BookingContact : Type 0 where
  pub email : String
  pub phone : String
  pub visit_date : Day

pub record BookingAdjustment : Type 0 where
  pub kind : AdjustmentKind
  pub value : ℕ
  pub amount : ℕ
  pub note : String
  pub code : String

abbrev pub party_size : CreateBooking → ℕ
party_size dto = dto.adults + dto.kids + or_zero dto.infants

-- The rules a request must meet before anything is priced.
unfoldable pub validate_request : CreateBooking → Day → Result BookingContact
validate_request dto today = do
  throw_if
      (not (is_filled (trim (or_empty dto.email))) && not (is_filled (trim (or_empty dto.phone))))
      (bad_request "Provide at least an email address or a phone number")
  throw_if
      (not (is_some dto.group)
        && (ltb 12 dto.adults || ltb 12 dto.kids || ltb 12 (or_zero dto.infants)))
      (bad_request "Parties over 12 book as a group (school, company or club)")
  throw_if (is_some dto.group && ltb (party_size dto) 10)
      (bad_request "A group booking is for 10 people or more")
  throw_if (is_some dto.group && ltb (party_size dto) (or_zero dto.group))
      (bad_request "More participants listed than people in the party")
  throw_if (ltb dto.visit_date today) (bad_request "visitDate cannot be in the past")
  ok (record {
    email = trim (or_empty dto.email);
    phone = trim (or_empty dto.phone);
    visit_date = dto.visit_date;
  })

abbrev pub kind_of : Option BookingAdjustment → AdjustmentKind
kind_of none = AdjustmentKind.none
kind_of (some a) = a.kind

abbrev pub value_of : Option BookingAdjustment → ℕ
value_of none = 0
value_of (some a) = a.value

abbrev pub amount_of : Option BookingAdjustment → ℕ
amount_of none = 0
amount_of (some a) = a.amount

abbrev pub note_of : Option BookingAdjustment → String
note_of none = ""
note_of (some a) = a.note

abbrev pub code_of : Option BookingAdjustment → String
code_of none = ""
code_of (some a) = a.code

-- The row of a new booking, before its group deposit; `id` is the key that the database draws.
unfoldable pub new_booking_record :
    String
    → CreateBooking
    → PricedBooking
    → String
    → BookingContact
    → Option BookingAdjustment
    → Booking
new_booking_record id dto priced ref_code contact adjustment = record {
  id = id;
  ref_code = ref_code;
  visit_date = contact.visit_date;
  slot = dto.slot;
  adults = dto.adults;
  kids = dto.kids;
  infants = or_zero dto.infants;
  rate = dto.rate;
  guest_name = dto.name;
  phone = contact.phone;
  email = contact.email;
  pay_mode = dto.pay_mode;
  status = BookingStatus.confirmed;
  entry_amount = priced.entry;
  subtotal = priced.subtotal;
  discount = priced.discount;
  total = priced.total - amount_of adjustment;
  staff_note = "";
  ticket_sent_at = none;
  paid_amount = 0;
  paid_at = none;
  payment_method = "";
  receipt_no = "";
  adjustment_kind = kind_of adjustment;
  adjustment_value = value_of adjustment;
  adjustment_amount = amount_of adjustment;
  adjustment_note = note_of adjustment;
  coupon_code = code_of adjustment;
  postponed_from = none;
  idempotency_key = dto.idempotency_key;
  lang = or_default dto.lang "en";
  deposit_amount = 0;
}

abbrev pub line_record : String → PricedLine → ℕ → BookingLine
line_record booking_id l i = record {
  booking_id = booking_id;
  experience_id = l.experience_id;
  variant = l.variant;
  label = l.label;
  product_key = l.product_key;
  session_time = l.time;
  adults = l.adults;
  kids = l.kids;
  units = l.units;
  amount = l.amount;
  sort_order = i;
}

abbrev pub records_from : String → ℕ → List PricedLine → List BookingLine
records_from booking_id i [] = []
records_from booking_id i (l ∷ lines) =
    line_record booking_id l i ∷ records_from booking_id (i + 1) lines

-- The rows of priced lines, in their priced order.
unfoldable pub line_records : String → List PricedLine → List BookingLine
line_records booking_id lines = records_from booking_id 0 lines
