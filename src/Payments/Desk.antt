-- ===== src/Payments/Desk.antt =====
-- payments/payments.service.ts and staff/bookings/staff-bookings.service.ts: a refund, a payment at the
-- desk and an opened checkout, and the sound tables that they leave.
use mathlib.Core.Path.{subst}
use valle_web_backend.Prelude.{
  ℕ, ◌+◌, ◌-◌, ◌≤◌, ◌<◌, ◌≡◌, refl, ap, ◌∙◌, String, Option, some, true, false, str_eq, ltb, not,
  arith,
}
use valle_web_backend.Prelude.Text.{or_empty, trim}
use valle_web_backend.Prelude.Http.{
  ok, throw_if, or_throw, returned, or_throw-eq-ok, throw_if-eq-ok,
}
use valle_web_backend.Prelude.Rows.{row-find, All-row}
use valle_web_backend.Booking.{Time, Booking}
use valle_web_backend.Payments.{Payment, Actor, Money}
use valle_web_backend.Payments.Service.{
  PaymentsService, booking_row, save_booking, save_payment, write_audit, is_cancelled, is_paid,
}
use valle_web_backend.Payments.Refunds.{
  last_paid, with_refund, debited, refund_row, refund, lock_or_404, refund_booking, with_payment,
  payment_audit, record_payment,
}
use valle_web_backend.Payments.Sound.{IsPayment, IsSound, net, net_of, net-le, last_paid_lem}
use valle_web_backend.Payments.Keep.{
  IsSound-save_booking, IsSound-save_payment, net_of-save_payment,
}

pub lock_or_404-row :
    (ref : String) (m : Money) (b : Booking)
    → IsSound m
    → lock_or_404 ref m ≡ ok b
    → booking_row m b.id ≡ some b
unfolding lock_or_404
lock_or_404-row ref m b s h =
    row-find (λ (x : Booking). x.id) (λ (x : Booking). str_eq x.ref_code ref) m.bookings b
      s.booking_ids (or_throw-eq-ok _ _ h)

-- What a refund that returned did.
pub record Refunded (s : PaymentsService) (b : Booking) (amount : ℕ) (by : Actor) (m m' : Money)
    : Type 0 where
  pub payment : Payment
  pub found : last_paid b.id m.payments ≡ some payment
  pub positive : 0 < amount
  pub room : amount ≤ payment.amount - payment.refunded_amount
  pub reason : String
  pub provider_ref : String
  pub tables :
      write_audit
        (refund_row amount reason provider_ref by b)
        (save_booking (debited amount b) (save_payment (with_refund amount payment) m))
      ≡ m'

pub refund-Refunded :
    (s : PaymentsService) (b : Booking) (amount : ℕ) (reason : String) (by : Actor) (m m' : Money)
    (p : Payment)
    → refund s b amount reason by m ≡ ok (p, m')
    → Refunded s b amount by m m'
unfolding refund refund_row
refund-Refunded s b amount reason by m m' p h =
    let (provider, e₁, h₁) = returned (or_throw s.provider _) _ h in
    let (u, e₂, h₂) = returned (throw_if (not (ltb 0 amount)) _) _ h₁ in
    let (q, e₃, h₃) = returned (or_throw (last_paid b.id m.payments) _) _ h₂ in
    let (v, e₄, h₄) = returned (throw_if (ltb (q.amount - q.refunded_amount) amount) _) _ h₃ in
    let (provider_ref, e₅, h₅) = returned (provider.refund q.provider_ref amount reason) _ h₄ in
    record {
      payment = q;
      found = or_throw-eq-ok _ _ e₃;
      positive = ground (arith, throw_if-eq-ok (not (ltb 0 amount)) _ e₂);
      room = ground (arith, throw_if-eq-ok (ltb (q.amount - q.refunded_amount) amount) _ e₄);
      reason = reason;
      provider_ref = provider_ref;
      tables = cc h₅;
    }

refunded-IsPayment :
    (amount : ℕ) (p : Payment)
    → IsPayment p
    → is_paid p.status ≡ true
    → amount ≤ p.amount - p.refunded_amount
    → IsPayment (with_refund amount p) × (net (with_refund amount p) + amount ≡ net p)
unfolding with_refund
refunded-IsPayment amount p good live room = ground arith

module _ (s : PaymentsService) (b : Booking) (amount : ℕ) (by : Actor) (m : Money)
    (sound : IsSound m) (at_id : booking_row m b.id ≡ some b) where
  -- The money that goes back had come in: what is left of the booking's paid amount is exact.
  pub refund-le-paid : (m' : Money) → Refunded s b amount by m m' → amount ≤ b.paid_amount
  refund-le-paid m' r =
      let (here, mine, live) = last_paid_lem b.id m.payments r.payment sound.payment_ids r.found in
      let whole = net-le m.payments r.payment here in
      let value : net r.payment ≡ r.payment.amount - r.payment.refunded_amount = ground arith in
      omega (
        arith,
        whole,
        value,
        r.room,
        ap (λ (id : String). net_of id m.payments) mine,
        sound.covered b.id b at_id,
      )

  pub Refunded-IsSound : (m' : Money) → Refunded s b amount by m m' → IsSound m'
  unfolding debited with_refund refund_row
  Refunded-IsSound m' r =
      let p = r.payment in
      let p' = with_refund amount p in
      let (here, mine, live) = last_paid_lem b.id m.payments p sound.payment_ids r.found in
      let good = All-row (λ (x : Payment). x.id) IsPayment m.payments p.id p sound.payments here in
      let (good', less) = refunded-IsPayment amount p good live r.room in
      let at_pay : booking_row m p.booking_id ≡ some b = ap (booking_row m) mine ∙ at_id in
      let enough = sound.covered p.booking_id b at_pay in
      let back =
        IsSound-save_payment m p p' sound here refl good'
          (λ c h. omega (arith, sound.covered p.booking_id c h, less)) in
      let left : net_of b.id (save_payment p' m).payments ≤ b.paid_amount - amount =
        rw (← mine) (omega (arith, net_of-save_payment m p p' sound here refl, enough, less)) in
      subst IsSound r.tables (
        IsSound-save_booking (save_payment p' m) b (debited amount b)
          (refund_row amount r.reason r.provider_ref by b) back at_id refl left)

-- Cash over the desk: what a payment that returned did.
pub record_payment-ok :
    (ref : String) (amount : ℕ) (method : String) (receipt : Option String) (now : Time)
    (staff : Actor) (m m' : Money)
    → record_payment ref amount method receipt now staff m ≡ ok m'
    → (b : Booking) × (lock_or_404 ref m ≡ ok b)
      × (is_cancelled b.status ≡ false)
      × (write_audit
            (payment_audit amount method receipt staff b)
            (save_booking (with_payment amount method receipt now b) m)
          ≡ m')
unfolding record_payment
record_payment-ok ref amount method receipt now staff m m' h =
    let (b, e₁, h₁) = returned (lock_or_404 ref m) _ h in
    let (u, e₂, h₂) = returned (throw_if (is_cancelled b.status) _) _ h₁ in
    (b, e₁, throw_if-eq-ok _ _ e₂, cc h₂)

pub record_payment-IsSound :
    (ref : String) (amount : ℕ) (method : String) (receipt : Option String) (now : Time)
    (staff : Actor) (m m' : Money)
    → IsSound m
    → record_payment ref amount method receipt now staff m ≡ ok m'
    → IsSound m'
unfolding with_payment payment_audit
record_payment-IsSound ref amount method receipt now staff m m' s h =
    let (b, locked, _, same) = record_payment-ok ref amount method receipt now staff m m' h in
    let at_id = lock_or_404-row ref m b s locked in
    subst IsSound same (
      IsSound-save_booking m b (with_payment amount method receipt now b)
        (payment_audit amount method receipt staff b) s at_id refl
        (omega (arith, s.covered b.id b at_id)))

pub refund_booking-Refunded :
    (s : PaymentsService) (ref : String) (amount : ℕ) (reason : Option String) (staff : Actor)
    (m m' : Money)
    → refund_booking s ref amount reason staff m ≡ ok m'
    → (b : Booking) × (lock_or_404 ref m ≡ ok b) × Refunded s b amount staff m m'
unfolding refund_booking
refund_booking-Refunded s ref amount reason staff m m' h =
    let (b, e₁, h₁) = returned (lock_or_404 ref m) _ h in
    let ((p, t), e₂, h₂) = returned (refund s b amount (trim (or_empty reason)) staff m) _ h₁ in
    let same : t ≡ m' = cc h₂ in
    (b, e₁, subst (Refunded s b amount staff m) same (refund-Refunded s b amount _ staff m t p e₂))
