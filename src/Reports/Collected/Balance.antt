-- ===== src/Reports/Collected/Balance.antt =====
-- payments/payments.service.ts, the cashier and staff/reports/reconciliation.ts together: what the till
-- is told it collected is what the bookings' paid amounts rose by.
use mathlib.Core.Path.{subst}
use valle_web_backend.Prelude.{
  ℕ, ◌+◌, ◌≡◌, refl, ap, ◌∙◌, some, String, List, [], ◌∷◌, Bool, sum_of, sum_of-append, All, arith,
  inl, inr,
}
use valle_web_backend.Prelude.Http.{ok, Result-cases}
use valle_web_backend.Prelude.Rows.{sum-save, key-row}
use valle_web_backend.Prelude.Integers.{diff, diff_iff}
use valle_web_backend.Booking.{Time, Booking}
use valle_web_backend.Payments.{AuditRow, Change, WebhookEvent, Money}
use valle_web_backend.Payments.Service.{
  PaymentsService, booking_row, save_booking, write_audit, start_checkout, open_checkout,
  checkout_due, checkout_request,
}
use valle_web_backend.Payments.Settle.{settle, with_outcome, credited, credit_row}
use valle_web_backend.Payments.Refunds.{debited, refund_row, with_payment, payment_audit}
use valle_web_backend.Payments.Steps.{Step, Reach, checkout, settled, refunded, cashed, here, next}
use valle_web_backend.Payments.Sound.{IsSound}
use valle_web_backend.Payments.Settled.{settle-ok, apply_outcome-ok}
use valle_web_backend.Payments.Desk.{refund_booking-Refunded, record_payment-ok, lock_or_404-row}
use valle_web_backend.Payments.Open.{Reach-IsSound}
use valle_web_backend.Reports.Ledger.{
  joined, audit_rows, PaymentAuditRow, payment_ledger, collected_by_method,
}
use valle_web_backend.Reports.Collected.{paid_from, paid_to, collected_by_method-moved}

-- All that the bookings show as paid.
abbrev pub paid_total : Money → ℕ
paid_total m = sum_of (λ b. b.paid_amount) m.bookings

abbrev from_total : List AuditRow → ℕ
from_total trail = sum_of (λ r. paid_from r.changes) trail

abbrev to_total : List AuditRow → ℕ
to_total trail = sum_of (λ r. paid_to r.changes) trail

-- The trail's new rows tell what the paid amounts rose by.
abbrev Balances : Money → Money → Type 0
Balances m m' =
    paid_total m' + from_total m'.trail + to_total m.trail
    ≡ paid_total m + from_total m.trail + to_total m'.trail

-- A booking saved with the row that tells its paid amounts.
Balances-row :
    (m : Money) (b b' : Booking) (r : AuditRow)
    → IsSound m
    → booking_row m b'.id ≡ some b
    → paid_from r.changes ≡ b.paid_amount
    → paid_to r.changes ≡ b'.paid_amount
    → Balances m (write_audit r (save_booking b' m))
Balances-row m b b' r s found from to = omega (
  arith,
  from,
  to,
  sum-save (λ (x : Booking). x.id) (λ (x : Booking). x.paid_amount) b' b m.bookings s.booking_ids
      found,
)

start_checkout-Balances :
    (s : PaymentsService) (id : String) (now : Time) (b : Booking) (m : Money)
    → Balances m (start_checkout s id now b m).0
unfolding start_checkout open_checkout
start_checkout-Balances s id now b m = elim (Result-cases (checkout_due s b)) [
  | inr (e, refused) ↦ rw (start_checkout, refused) (omega arith)
  | inl ((p, due), ready) ↦
      elim (Result-cases (p.create_checkout (checkout_request s p b id due))) [
        | inr (e, failed) ↦ rw (start_checkout, ready, open_checkout, failed) (omega arith)
        | inl (session, done) ↦ rw (start_checkout, ready, open_checkout, done) (omega arith)
      ]
]

settle-Balances :
    (provider : String) (now : Time) (e : WebhookEvent) (m m' : Money) (applied : Bool)
    → IsSound m
    → settle provider now e m ≡ ok (applied, m')
    → Balances m m'
unfolding credit_row credited
settle-Balances provider now e m m' applied s h =
    let (p, found, what) = settle-ok provider now e m applied m' h in
    elim what [
      | inl (_, _, same) ↦ subst (Balances m) same (omega arith)
      | inr (waits, done) ↦
          let (_, how) = apply_outcome-ok provider now e m p applied m' done in
          elim how [
            | inl (_, (b, at_pay, same)) ↦
                let mine = key-row (λ (x : Booking). x.id) m.bookings p.booking_id b at_pay in
                let q = with_outcome e now p in
                subst (Balances m) same (
                  Balances-row m b (credited q now b) (credit_row q now b) s
                    (ap (booking_row m) mine ∙ at_pay) refl refl)
            | inr (_, same) ↦ subst (Balances m) same (omega arith)
          ]
    ]

Step-Balances : (s : PaymentsService) {m m' : Money} → IsSound m → Step s m m' → Balances m m'
unfolding debited refund_row with_payment payment_audit
Step-Balances s {m} sound (checkout id now b fresh) = start_checkout-Balances s id now b m
Step-Balances s {m} {m'} sound (settled provider now e {applied} h) =
    settle-Balances provider now e m m' applied sound h
Step-Balances s {m} {m'} sound (refunded ref amount reason staff h) =
    let (b, locked, r) = refund_booking-Refunded s ref amount reason staff m m' h in
    subst (Balances m) r.tables (
      Balances-row m b (debited amount b) (refund_row amount r.reason r.provider_ref staff b) sound
        (lock_or_404-row ref m b sound locked) refl refl)
Step-Balances s {m} {m'} sound (cashed ref amount method receipt now staff h) =
    let (b, locked, _, same) = record_payment-ok ref amount method receipt now staff m m' h in
    subst (Balances m) same (
      Balances-row m b (with_payment amount method receipt now b)
        (payment_audit amount method receipt staff b) sound (lock_or_404-row ref m b sound locked)
        refl refl)

Reach-Balances : (s : PaymentsService) {m m' : Money} → IsSound m → Reach s m m' → Balances m m'
Reach-Balances s sound here = omega arith
Reach-Balances s {m} {m'} sound (next {t} r step) =
    omega (arith, Reach-Balances s sound r, Step-Balances s (Reach-IsSound s m t sound r) step)

-- The join with the bookings drops no row.
joined_sum :
    (f : List Change → ℕ) (m : Money) (trail : List AuditRow)
    → All (λ (r : AuditRow). (b : Booking) × (booking_row m r.booking_id ≡ some b)) trail
    → sum_of (λ r. f r.changes) (audit_rows m trail) ≡ sum_of (λ r. f r.changes) trail
unfolding audit_rows
joined_sum f m [] t = refl
joined_sum f m (r ∷ trail) ((b, found), t) =
    let one : sum_of (λ (x : PaymentAuditRow). f x.changes) (joined r (booking_row m r.booking_id))
        ≡ f r.changes =
      rw found (omega arith) in
    omega (
      arith,
      one,
      joined_sum f m trail t,
      sum_of-append (λ (x : PaymentAuditRow). f x.changes) (audit_rows m trail)
          (joined r (booking_row m r.booking_id)),
    )

-- The till balances: from the start of a day's trail, whatever checkouts, events of the provider,
-- refunds and payments at the desk follow one another, the total that reconciliation reads out of the
-- trail is what the paid amounts of all bookings together rose by, negative where they fell.
pub reconciliation-balanced :
    (s : PaymentsService) (m m' : Money)
    → IsSound m
    → m.trail ≡ []
    → Reach s m m'
    → (collected_by_method (payment_ledger (audit_rows m' m'.trail))).total
      ≡ diff (paid_total m') (paid_total m)
reconciliation-balanced s m m' sound day r =
    let known = (Reach-IsSound s m m' sound r).known in
    let moved = Reach-Balances s sound r in
    let none_from : from_total m.trail ≡ 0 = rw day refl in
    let none_to : to_total m.trail ≡ 0 = rw day refl in
    let froms = joined_sum paid_from m' m'.trail known in
    let tos = joined_sum paid_to m' m'.trail known in
    collected_by_method-moved (audit_rows m' m'.trail)
    ∙ (diff_iff (sum_of (λ (x : PaymentAuditRow). paid_to x.changes) (audit_rows m' m'.trail))
          (sum_of (λ (x : PaymentAuditRow). paid_from x.changes) (audit_rows m' m'.trail))
          (paid_total m') (paid_total m)).1
        (omega (arith, moved, none_from, none_to, froms, tos))
