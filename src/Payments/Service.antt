-- ===== src/Payments/Service.antt =====
-- payments/payments.service.ts: checkouts, the provider's webhook, the sweep of abandoned checkouts and
-- refunds. The tables go in and come out; a call in a transaction that throws leaves them as they were.
-- The payload of a webhook (`raw`) and the log lines are left out.
use valle_web_backend.Prelude.{ℕ, ◌-◌, String, Option, none, [], ◌∷◌, Bool, true, false, not, leb}
use valle_web_backend.Prelude.Text.{concat}
use valle_web_backend.Prelude.Http.{
  Result, ok, err, bad_request, forbidden, not_found, ◌>>=◌, ◌>>◌, throw_if, or_throw,
}
use valle_web_backend.Prelude.Rows.{row, save}
use valle_web_backend.Booking.{Time, Booking, BookingStatus}
use valle_web_backend.Payments.{
  CheckoutRequest, PaymentStatus, PaymentProvider, Payment, AuditRow, Money,
}

-- The service with what it is configured with: the site's address, encodeURIComponent, the tickets'
-- signature and its check, the grace period, and whether messages to guests are wired and
-- whether a ticket reaches the guest by e-mail or WhatsApp.
pub record PaymentsService : Type 0 where
  pub provider : Option PaymentProvider
  pub site_url : String
  pub encode : String → String
  pub token : String → String
  pub verify : String → Option String → Bool
  pub grace_ms : ℕ
  pub guest : Bool
  pub reaches : Booking → Bool

pub record Checkout : Type 0 where
  pub payment_id : String
  pub checkout_url : String

abbrev pub booking_row : Money → String → Option Booking
booking_row m id = row (λ (b : Booking). b.id) m.bookings id

abbrev pub payment_row : Money → String → Option Payment
payment_row m id = row (λ (p : Payment). p.id) m.payments id

abbrev pub save_booking : Booking → Money → Money
save_booking b m = record m { bookings = save (λ (b : Booking). b.id) b m.bookings }

abbrev pub save_payment : Payment → Money → Money
save_payment p m = record m { payments = save (λ (p : Payment). p.id) p m.payments }

abbrev pub write_audit : AuditRow → Money → Money
write_audit r m = record m { trail = r ∷ m.trail }

abbrev pub is_cancelled : BookingStatus → Bool
is_cancelled BookingStatus.cancelled = true
is_cancelled _ = false

abbrev pub is_pending : PaymentStatus → Bool
is_pending PaymentStatus.pending = true
is_pending _ = false

abbrev pub is_paid : PaymentStatus → Bool
is_paid PaymentStatus.paid = true
is_paid _ = false

-- Where the guest lands after the hosted page.
unfoldable pub return_url : PaymentsService → Booking → String → String
return_url s b payment_id = concat (
    s.site_url
    ∷ "/ticket/"
    ∷ s.encode b.ref_code
    ∷ "?t="
    ∷ s.token b.ref_code
    ∷ "&payment="
    ∷ payment_id
    ∷ [])

unfoldable pub checkout_request :
    PaymentsService → PaymentProvider → Booking → String → ℕ → CheckoutRequest
checkout_request s p b payment_id due = record {
  payment_id = payment_id;
  ref_code = b.ref_code;
  amount = due;
  description = concat ("VALLÉ Advenature Park · booking " ∷ b.ref_code ∷ []);
  return_url = return_url s b payment_id;
  webhook_url = concat (s.site_url ∷ "/api/payments/webhook/" ∷ p.name ∷ []);
  guest_name = b.guest_name;
  guest_email = b.email;
  guest_phone = b.phone;
}

unfoldable pub new_payment : PaymentProvider → Booking → String → Time → ℕ → Payment
new_payment p b id now due = record {
  id = id;
  booking_id = b.id;
  provider = p.name;
  provider_ref = "";
  amount = due;
  status = PaymentStatus.pending;
  refunded_amount = 0;
  failure_reason = "";
  created_at = now;
  settled_at = none;
}

-- The provider to pay with and what is due, or why no checkout opens.
unfoldable pub checkout_due : PaymentsService → Booking → Result (PaymentProvider × ℕ)
checkout_due s b = do
  p ← or_throw s.provider (bad_request "Online payment is not available")
  throw_if (is_cancelled b.status) (bad_request "This booking is cancelled")
  throw_if (leb b.total b.paid_amount) (bad_request "This booking is already paid")
  ok (p, b.total - b.paid_amount)

-- The pending payment is written before the provider is called, and stays if that call throws.
unfoldable pub open_checkout :
    PaymentsService
    → String
    → Time
    → Booking
    → PaymentProvider
    → ℕ
    → Money
    → Money × Result Checkout
open_checkout s id now b p due m =
    let payment = new_payment p b id now due in
    let saved = record m { payments = payment ∷ m.payments } in
    elim (p.create_checkout (checkout_request s p b id due)) [
      | err e ↦ (saved, err e)
      | ok session ↦ (
        save_payment (record payment { provider_ref = session.provider_ref }) saved,
        ok (record { payment_id = id; checkout_url = session.redirect_url }),
      )
    ]

-- A checkout for what a booking owes; `id` is the key that the database gives the payment.
unfoldable pub start_checkout :
    PaymentsService → String → Time → Booking → Money → Money × Result Checkout
start_checkout s id now b m = elim (checkout_due s b) [
  | err e ↦ (m, err e)
  | ok (p, due) ↦ open_checkout s id now b p due m
]

pub record PaymentStatusView : Type 0 where
  pub id : String
  pub status : PaymentStatus
  pub amount : ℕ
  pub refunded_amount : ℕ
  pub provider : String
  pub settled_at : Option Time
  pub ref_code : String
  pub total : ℕ
  pub paid_amount : ℕ
  pub balance : ℕ

-- A payment and its booking's money, for the holder of the ticket.
unfoldable pub status : PaymentsService → String → Option String → Money → Result PaymentStatusView
status s payment_id token m = do
  p ← or_throw (payment_row m payment_id) (not_found "No such payment")
  b ← or_throw (booking_row m p.booking_id) (not_found "No such payment")
  throw_if (not (s.verify b.ref_code token)) (forbidden "Bad or missing token")
  ok (record {
    id = p.id;
    status = p.status;
    amount = p.amount;
    refunded_amount = p.refunded_amount;
    provider = p.provider;
    settled_at = p.settled_at;
    ref_code = b.ref_code;
    total = b.total;
    paid_amount = b.paid_amount;
    balance = b.total - b.paid_amount;
  })
