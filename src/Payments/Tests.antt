-- ===== src/Payments/Tests.antt =====
-- payments/payments.service.ts: runs on one booking and its payment.
use valle_web_backend.Payments.Listed.{IsStale}
use valle_web_backend.Payments.Swept.{IsSwept, release_abandoned_lem}
use valle_web_backend.Prelude.{
  length, String, str_eq, find, if◌then◌else◌, ◌+◌, ◌<◌, ◌≡◌, ◌↔◌, refl, none, some, [], ◌∷◌, true,
  false, arith,
}
use valle_web_backend.Prelude.Http.{ok}
use valle_web_backend.Prelude.Rows.{row, save}
use valle_web_backend.Prelude.Text.{split_at, trim}
use valle_web_backend.Booking.{Booking, SlotKey, PayMode, BookingStatus}
use valle_web_backend.Pricing.Types.{Rate, AdjustmentKind}
use valle_web_backend.Payments.{
  PaymentStatus, Outcome, WebhookEvent, PaymentProvider, Payment, Actor, Money,
}
use valle_web_backend.Payments.Service.{PaymentsService, booking_row, start_checkout}
use valle_web_backend.Payments.Settle.{
  with_outcome, lock_payment, credited, credit_row, credit_booking, apply_outcome, settle,
}
use valle_web_backend.Payments.Sweep.{
  Released, send_if_due, send_ticket, abandoned, stale, release, release_abandoned,
}
use valle_web_backend.Payments.Refunds.{
  last_paid, with_refund, debited, refund_row, refund, lock_or_404, refund_booking,
  merge_payment_method,
}
use valle_web_backend.Payments.Steps.{settled, here, next}
use valle_web_backend.Payments.Sound.{IsSound}
use valle_web_backend.Payments.Open.{Reach-IsSound}
use valle_web_backend.Payments.Opening.{HasOpened, start_checkout_iff}
use valle_web_backend.Payments.Once.{settle-once}
use valle_web_backend.Payments.Exact.{refund_booking-exact}

abbrev pub a_booking : Booking
a_booking = record {
  id = "b1";
  ref_code = "VAL-1001-26";
  visit_date = 2026_02_09;
  slot = SlotKey.morning;
  adults = 2;
  kids = 1;
  infants = 0;
  rate = Rate.rr;
  guest_name = "Ana";
  phone = "";
  email = "ana@example.com";
  pay_mode = PayMode.online;
  status = BookingStatus.confirmed;
  entry_amount = 0;
  subtotal = 4_500;
  discount = 0;
  total = 4_500;
  staff_note = "";
  ticket_sent_at = none;
  paid_amount = 0;
  paid_at = none;
  payment_method = "";
  receipt_no = "";
  adjustment_kind = AdjustmentKind.none;
  adjustment_value = 0;
  adjustment_amount = 0;
  adjustment_note = "";
  coupon_code = "";
  postponed_from = none;
  idempotency_key = none;
  lang = "en";
  deposit_amount = 0;
}

abbrev a_payment : Payment
a_payment = record {
  id = "p1";
  booking_id = "b1";
  provider = "sandbox";
  provider_ref = "s1";
  amount = 4_500;
  status = PaymentStatus.pending;
  refunded_amount = 0;
  failure_reason = "";
  created_at = 0;
  settled_at = none;
}

abbrev pub some_money : Money
some_money = record { bookings = a_booking ∷ []; payments = a_payment ∷ []; trail = [] }

abbrev pub paid_event : WebhookEvent
paid_event = record {
  payment_id = none;
  provider_ref = "s1";
  status = Outcome.paid;
  amount = 4_500;
  reason = none;
}

abbrev late_event : WebhookEvent
late_event = record {
  payment_id = some "p1";
  provider_ref = "s1";
  status = Outcome.paid;
  amount = 4_500;
  reason = none;
}

abbrev settled_payment : Payment
settled_payment = record a_payment { status = PaymentStatus.paid; settled_at = some 7 }

abbrev pub settled_booking : Booking
settled_booking = record a_booking {
  paid_amount = 4_500;
  paid_at = some 7;
  payment_method = "online";
  receipt_no = "s1";
}

abbrev pub settled_money : Money
settled_money = record {
  bookings = settled_booking ∷ [];
  payments = settled_payment ∷ [];
  trail = credit_row settled_payment 7 a_booking ∷ [];
}

abbrev a_provider : PaymentProvider
a_provider = record {
  name = "sandbox";
  create_checkout = λ r. ok (record { redirect_url = "/pay"; provider_ref = "s1" });
  parse_webhook = λ body. ok none;
  refund = λ ref amount reason. ok "r1";
}

abbrev pub a_service : PaymentsService
a_service = record {
  provider = some a_provider;
  site_url = "https://valle.example";
  encode = λ ref. ref;
  token = λ ref. "t";
  verify = λ ref token. true;
  grace_ms = 7_200_000;
  guest = true;
  reaches = λ b. true;
}

pub some_money-IsSound : IsSound some_money
unfolding row
some_money-IsSound = record {
  booking_ids = (refl, tt);
  payment_ids = (refl, tt);
  payments = (refl, tt);
  covered = λ id b h. ground arith;
  known = tt;
}

pub settled_once : settle "sandbox" 7 paid_event some_money ≡ ok (true, settled_money)
unfolding settle lock_payment apply_outcome with_outcome credit_booking credited credit_row row save
settled_once = refl

about_paid : lock_payment "sandbox" paid_event some_money ≡ some a_payment
unfolding lock_payment
about_paid = refl

about_late : lock_payment "other" late_event settled_money ≡ some settled_payment
unfolding lock_payment row
about_late = refl

settle-once_example : settle "other" 9 late_event settled_money ≡ ok (false, settled_money)
settle-once_example =
    settle-once a_service "sandbox" 7 paid_event some_money settled_money settled_money true
      some_money-IsSound settled_once here "other" 9 late_event a_payment settled_payment about_paid
      about_late refl

Reach-IsSound_example : IsSound settled_money
Reach-IsSound_example =
    Reach-IsSound a_service some_money settled_money some_money-IsSound
      (next here (settled "sandbox" 7 paid_event settled_once))

abbrev staff : Actor
staff = record { id = some "u1"; email = "desk@valle.example" }

abbrev refunded_money : Money
refunded_money = record {
  bookings = debited 1_500 settled_booking ∷ [];
  payments = record settled_payment { refunded_amount = 1_500 } ∷ [];
  trail = refund_row 1_500 "weather" "r1" staff settled_booking ∷ settled_money.trail;
}

settled_money-IsSound : IsSound settled_money
settled_money-IsSound =
    Reach-IsSound a_service some_money settled_money some_money-IsSound
      (next here (settled "sandbox" 7 paid_event settled_once))

refunded_run :
    refund_booking a_service "VAL-1001-26" 1_500 (some " weather ") staff settled_money
    ≡ ok refunded_money
unfolding refund_booking refund lock_or_404 last_paid with_refund debited refund_row row save trim
refunded_run = refl

refund_booking-exact_example :
    (b b' : Booking) × (find
        (λ (x : Booking). str_eq x.ref_code "VAL-1001-26")
        settled_money.bookings
      ≡ some b)
    × (booking_row settled_money b.id ≡ some b)
    × ((id : String)
        → booking_row refunded_money id
          ≡ (if str_eq b.id id then some b' else booking_row settled_money id))
    × (0 < 1_500)
    × (b'.paid_amount + 1_500 ≡ b.paid_amount)
refund_booking-exact_example =
    refund_booking-exact a_service "VAL-1001-26" 1_500 (some " weather ") staff settled_money
      refunded_money settled_money-IsSound refunded_run

start_checkout_iff_example :
    ((start_checkout a_service "p2" 9 a_booking some_money).1
      ≡ ok (record { payment_id = "p2"; checkout_url = "/pay" }))
    ↔ HasOpened a_service "p2" 9 a_booking some_money
        (record { payment_id = "p2"; checkout_url = "/pay" })
start_checkout_iff_example =
    start_checkout_iff a_service "p2" 9 a_booking some_money
      (record { payment_id = "p2"; checkout_url = "/pay" })

-- The sweep after the grace period cancels the payment and sends the ticket.
swept :
    (release_abandoned a_service "sandbox" 7_200_001 some_money).1
    ≡ ok (record { count = 1; tickets = "b1" ∷ [] })
unfolding send_ticket send_if_due release_abandoned stale release abandoned settle lock_payment
    apply_outcome with_outcome row save
swept = refl

merged_methods : merge_payment_method "cash+card" "cash" ≡ "cash+card"
unfolding merge_payment_method split_at trim
merged_methods = refl

release_abandoned_lem_example :
    let ps = stale a_service 7_200_001 some_money in
    let (m', r) = release_abandoned a_service "sandbox" 7_200_001 some_money in
    ((done : Released) × (r ≡ ok done) × (done.count ≡ length ps))
    × IsStale a_service 7_200_001 some_money ps
    × IsSwept a_service 7_200_001 ps some_money m'
release_abandoned_lem_example =
    release_abandoned_lem a_service "sandbox" 7_200_001 some_money some_money-IsSound.payment_ids
      (refl, tt)
