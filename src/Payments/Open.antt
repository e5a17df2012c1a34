-- ===== src/Payments/Open.antt =====
-- payments/payments.service.ts: a checkout that opens, or does not, and every call after the other.
use valle_web_backend.Prelude.{ℕ, ◌≡◌, refl, String, none, ◌∷◌, true, arith, inl, inr}
use valle_web_backend.Prelude.Http.{Result-cases}
use valle_web_backend.Prelude.Rows.{row-head}
use valle_web_backend.Booking.{Time, Booking}
use valle_web_backend.Payments.{PaymentProvider, Payment, Money}
use valle_web_backend.Payments.Service.{
  PaymentsService, payment_row, is_pending, new_payment, checkout_request, checkout_due,
  open_checkout, start_checkout,
}
use valle_web_backend.Payments.Steps.{Step, Reach, checkout, settled, refunded, cashed, here, next}
use valle_web_backend.Payments.Sound.{IsPayment, IsSound, net}
use valle_web_backend.Payments.Keep.{IsSound-save_payment}
use valle_web_backend.Payments.Settled.{settle-IsSound}
use valle_web_backend.Payments.Desk.{
  lock_or_404-row, Refunded-IsSound, refund_booking-Refunded, record_payment-IsSound,
}

IsSound-insert :
    (m : Money) (p : Payment)
    → IsSound m
    → payment_row m p.id ≡ none
    → is_pending p.status ≡ true
    → p.refunded_amount ≡ 0
    → IsSound (record m { payments = p ∷ m.payments })
IsSound-insert m p s fresh waits nothing =
    let good : IsPayment p = ground arith in
    let empty : net p ≡ 0 = ground arith in
    record {
      booking_ids = s.booking_ids;
      payment_ids = (fresh, s.payment_ids);
      payments = (good, s.payments);
      covered = λ id b h. ground (arith, empty, s.covered id b h);
      known = s.known;
    }

open_checkout-IsSound :
    (s : PaymentsService) (id : String) (now : Time) (b : Booking) (p : PaymentProvider) (due : ℕ)
    (m : Money)
    → IsSound m
    → payment_row m id ≡ none
    → IsSound (open_checkout s id now b p due m).0
unfolding open_checkout new_payment
open_checkout-IsSound s id now b p due m sound fresh =
    let payment = new_payment p b id now due in
    let opened = IsSound-insert m payment sound (fresh) (refl) (refl) in
    elim (Result-cases (p.create_checkout (checkout_request s p b id due))) [
      | inr (e, failed) ↦ rw (open_checkout, failed) opened
      | inl (session, done) ↦
          rw (open_checkout, done)
            (IsSound-save_payment (record m { payments = payment ∷ m.payments }) payment
              (record payment { provider_ref = session.provider_ref }) opened
              (row-head (λ (x : Payment). x.id) payment m.payments) refl (refl)
              (λ c h. omega (arith, opened.covered payment.booking_id c h)))
    ]

start_checkout-IsSound :
    (s : PaymentsService) (id : String) (now : Time) (b : Booking) (m : Money)
    → IsSound m
    → payment_row m id ≡ none
    → IsSound (start_checkout s id now b m).0
unfolding start_checkout
start_checkout-IsSound s id now b m sound fresh = elim (Result-cases (checkout_due s b)) [
  | inr (e, refused) ↦ rw (start_checkout, refused) sound
  | inl ((p, due), ready) ↦
      rw (start_checkout, ready) (open_checkout-IsSound s id now b p due m sound fresh)
]

pub Step-IsSound : (s : PaymentsService) {m m' : Money} → Step s m m' → IsSound m → IsSound m'
Step-IsSound s (checkout id now b fresh) sound = start_checkout-IsSound s id now b _ sound fresh
Step-IsSound s (settled provider now e {applied} {m'} h) sound =
    settle-IsSound provider now e _ applied m' sound h
Step-IsSound s {m} (refunded ref amount reason staff {m'} h) sound =
    let (b, locked, r) = refund_booking-Refunded s ref amount reason staff m m' h in
    Refunded-IsSound s b amount staff m sound (lock_or_404-row ref m b sound locked) m' r
Step-IsSound s (cashed ref amount method receipt now staff {m'} h) sound =
    record_payment-IsSound ref amount method receipt now staff _ m' sound h

-- Whatever checkouts, events of the provider, refunds and payments at the desk follow one another,
-- with any provider: no payment is refunded before it is paid or beyond its amount, and every booking's
-- paid amount is at least what its online payments brought in and was not given back.
pub Reach-IsSound : (s : PaymentsService) (m m' : Money) → IsSound m → Reach s m m' → IsSound m'
Reach-IsSound s m m' sound here = sound
Reach-IsSound s m m' sound (next r step) = Step-IsSound s step (Reach-IsSound s m _ sound r)
