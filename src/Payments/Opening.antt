-- ===== src/Payments/Opening.antt =====
-- payments/payments.service.ts (startCheckout): when a checkout opens, and what it leaves.
use valle_web_backend.Prelude.{
  ap, sym, ◌∙◌, ℕ, ◌+◌, ◌<◌, ◌≡◌, ◌↔◌, refl, String, some, ◌∷◌, true, false, arith, inl, inr,
}
use valle_web_backend.Prelude.Http.{Result, ok, eq_of_ok, Result-cases}
use valle_web_backend.Prelude.Rows.{row-head, row-save_same}
use valle_web_backend.Booking.{Time, Booking}
use valle_web_backend.Payments.{CheckoutRequest, CheckoutSession, PaymentProvider, Payment, Money}
use valle_web_backend.Payments.Service.{
  PaymentsService, Checkout, save_payment, payment_row, is_cancelled, is_pending, new_payment,
  checkout_request, checkout_due, open_checkout, start_checkout,
}

checkout_due_iff :
    (s : PaymentsService) (b : Booking) (p : PaymentProvider) (due : ℕ)
    → (checkout_due s b ≡ ok (p, due)) ↔ (
        (s.provider ≡ some p)
        × (is_cancelled b.status ≡ false)
        × (0 < due)
        × (b.paid_amount + due ≡ b.total))
unfolding checkout_due
checkout_due_iff s b p due = ground arith

-- A checkout that opened: for a booking that is not cancelled and owes something, the provider answered a
-- request for exactly that, and the row of the payment waits for it under the provider's reference.
pub record HasOpened (s : PaymentsService) (id : String) (now : Time) (b : Booking) (m : Money)
    (c : Checkout) : Type 0 where
  pub provider : PaymentProvider
  pub due : ℕ
  pub request : CheckoutRequest
  pub session : CheckoutSession
  pub payment : Payment
  pub wired : s.provider ≡ some provider
  pub live : is_cancelled b.status ≡ false
  pub owes : 0 < due
  pub missing : b.paid_amount + due ≡ b.total
  pub asked : checkout_request s provider b id due ≡ request
  pub amount : request.amount ≡ due
  pub names : (request.payment_id ≡ id) × (request.ref_code ≡ b.ref_code)
  pub answered : provider.create_checkout request ≡ ok session
  pub row : payment_row (start_checkout s id now b m).0 id ≡ some payment
  pub waits : is_pending payment.status ≡ true
  pub waits_for : (payment.amount ≡ due) × (payment.booking_id ≡ b.id)
  pub reference : payment.provider_ref ≡ session.provider_ref
  pub told : (c.payment_id ≡ id) × (c.checkout_url ≡ session.redirect_url)

module _ (s : PaymentsService) (id : String) (now : Time) (b : Booking) (m : Money) where
  -- What a checkout comes to once it is known what is due and what the provider answers.
  start_checkout-opens :
      (p : PaymentProvider) (due : ℕ) (session : CheckoutSession)
      → checkout_due s b ≡ ok (p, due)
      → p.create_checkout (checkout_request s p b id due) ≡ ok session
      → start_checkout s id now b m ≡ (
        save_payment
            (record (new_payment p b id now due) { provider_ref = session.provider_ref })
            (record m { payments = new_payment p b id now due ∷ m.payments }),
        ok (record { payment_id = id; checkout_url = session.redirect_url }),
      )
  unfolding start_checkout open_checkout
  start_checkout-opens p due session ready done =
      rw (start_checkout, ready) (rw (open_checkout, done) refl)

  opened-row :
      (p : PaymentProvider) (due : ℕ) (session : CheckoutSession)
      → checkout_due s b ≡ ok (p, due)
      → p.create_checkout (checkout_request s p b id due) ≡ ok session
      → payment_row (start_checkout s id now b m).0 id
        ≡ some (record (new_payment p b id now due) { provider_ref = session.provider_ref })
  unfolding new_payment
  opened-row p due session ready done =
      let payment = new_payment p b id now due in
      ap (λ (x : Money × Result Checkout). payment_row x.0 id)
        (start_checkout-opens p due session ready done)
      ∙ row-save_same (λ (x : Payment). x.id)
          (record payment { provider_ref = session.provider_ref }) payment (payment ∷ m.payments) id
          (row-head (λ (x : Payment). x.id) payment m.payments) refl

  opened :
      (c : Checkout) (p : PaymentProvider) (due : ℕ) (session : CheckoutSession)
      → checkout_due s b ≡ ok (p, due)
      → p.create_checkout (checkout_request s p b id due) ≡ ok session
      → (start_checkout s id now b m).1 ≡ ok c
      → HasOpened s id now b m c
  unfolding checkout_request new_payment
  opened c p due session ready done h =
      let (wired, live, owes, missing) = (checkout_due_iff s b p due).0 ready in
      let same : record { payment_id = id; checkout_url = session.redirect_url } ≡ c =
        eq_of_ok _ _ (
          sym (
            ap (λ (x : Money × Result Checkout). x.1)
              (start_checkout-opens p due session ready done))
          ∙ h) in
      record {
        provider = p;
        due = due;
        request = checkout_request s p b id due;
        session = session;
        payment = record (new_payment p b id now due) { provider_ref = session.provider_ref };
        wired = wired;
        live = live;
        owes = owes;
        missing = missing;
        asked = refl;
        amount = refl;
        names = (refl, refl);
        answered = done;
        row = opened-row p due session ready done;
        waits = refl;
        waits_for = (refl, refl);
        reference = refl;
        told = (
          ap (λ (x : Checkout). x.payment_id) (sym same),
          ap (λ (x : Checkout). x.checkout_url) (sym same),
        );
      }

-- A checkout opens exactly where there is a provider, the booking is not cancelled and not paid, and the
-- provider answers the request. The request is then for exactly what is missing from the total, under the
-- payment's key and the booking's reference; the payment's row waits for that amount under the provider's
-- reference; and the guest is sent to the page that the provider named.
pub start_checkout_iff :
    (s : PaymentsService) (id : String) (now : Time) (b : Booking) (m : Money) (c : Checkout)
    → ((start_checkout s id now b m).1 ≡ ok c) ↔ HasOpened s id now b m c
unfolding start_checkout open_checkout
start_checkout_iff s id now b m c = (
  λ h. elim (Result-cases (checkout_due s b)) [
    | inr (e, refused) ↦ cc (rw (start_checkout, refused) at h)
    | inl ((p, due), ready) ↦
        elim (Result-cases (p.create_checkout (checkout_request s p b id due))) [
          | inr (e, failed) ↦ cc (rw (open_checkout, failed) at (rw (start_checkout, ready) at h))
          | inl (session, done) ↦ opened s id now b m c p due session ready done h
        ]
  ],
  λ o.
      let ready = (checkout_due_iff s b o.provider o.due).1 (o.wired, o.live, o.owes, o.missing) in
      let done = ap (λ r. o.provider.create_checkout r) o.asked ∙ o.answered in
      ap (λ (x : Money × Result Checkout). x.1)
        (start_checkout-opens s id now b m o.provider o.due o.session ready done)
      ∙ ap (λ i. ok (record { payment_id = i; checkout_url = o.session.redirect_url }))
          (sym o.told.0)
      ∙ ap (λ u. ok (record { payment_id = c.payment_id; checkout_url = u })) (sym o.told.1),
)
