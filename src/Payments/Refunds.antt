-- ===== src/Payments/Refunds.antt =====
-- payments/payments.service.ts (refund), staff/bookings/payment-method.ts and the cashier's side of
-- staff/bookings/staff-bookings.service.ts (recordPayment, refund): money back, and money at the desk.
use valle_web_backend.Prelude.{
  ℕ, ◌+◌, ◌-◌, String, Option, none, some, List, [], ◌∷◌, ◌++◌, Bool, true, false, ◌&&◌, not, find,
  filter, any, map, ltb, leb, if◌then◌else◌, str_eq,
}
use valle_web_backend.Prelude.Text.{concat, join, or_empty, is_filled, trim, rupees, split_at}
use valle_web_backend.Prelude.Http.{
  Result, ok, bad_request, not_found, ◌>>=◌, ◌>>◌, throw_if, or_throw,
}
use valle_web_backend.Booking.{Time, Booking}
use valle_web_backend.Payments.{PaymentStatus, Payment, Actor, Change, AuditRow, Money}
use valle_web_backend.Payments.Service.{
  PaymentsService, save_booking, save_payment, write_audit, is_cancelled, is_paid,
}

-- ORDER BY settled_at DESC, where a missing time comes first.
abbrev pub settled_later : Payment → Payment → Bool
settled_later p q = elim p.settled_at [
  | none ↦ true
  | some t ↦ elim q.settled_at [ none ↦ false | some u ↦ leb u t ]
]

abbrev pub later_of : Payment → Option Payment → Option Payment
later_of p none = some p
later_of p (some q) = some (if settled_later p q then p else q)

-- The booking's paid payment that was settled last.
unfoldable pub last_paid : String → List Payment → Option Payment
last_paid booking_id [] = none
last_paid booking_id (p ∷ ps) =
    let rest = last_paid booking_id ps in
    if str_eq p.booking_id booking_id && is_paid p.status then later_of p rest else rest

unfoldable pub with_refund : ℕ → Payment → Payment
with_refund amount p = record p {
  refunded_amount = p.refunded_amount + amount;
  status = if leb p.amount (p.refunded_amount + amount) then PaymentStatus.refunded else p.status;
}

unfoldable pub debited : ℕ → Booking → Booking
debited amount b = record b { paid_amount = b.paid_amount - amount }

unfoldable pub refund_row : ℕ → String → String → Actor → Booking → AuditRow
refund_row amount reason provider_ref by b = record {
  booking_id = b.id;
  by = by;
  changes =
      Change.paid_amount b.paid_amount (debited amount b).paid_amount
      ∷ Change.refund_note (
          concat (
            rupees amount
            ∷ " · "
            ∷ (if is_filled reason then reason else "refund")
            ∷ " · "
            ∷ provider_ref
            ∷ []))
      ∷ [];
}

-- Money back through the provider: the payment after it, and the tables.
unfoldable pub refund :
    PaymentsService → Booking → ℕ → String → Actor → Money → Result (Payment × Money)
refund s b amount reason by m = do
  provider ← or_throw s.provider (bad_request "Online payment is not available")
  throw_if (not (ltb 0 amount)) (bad_request "Enter the amount to refund")
  p ←
      or_throw (last_paid b.id m.payments)
        (bad_request "No online payment to refund on this booking")
  throw_if (ltb (p.amount - p.refunded_amount) amount) (
      bad_request (
        concat (
          "Only "
          ∷ rupees (p.amount - p.refunded_amount)
          ∷ " can still be refunded on this payment"
          ∷ [])))
  provider_ref ← provider.refund p.provider_ref amount reason
  ok (
    with_refund amount p,
    write_audit (refund_row amount reason provider_ref by b)
        (save_booking (debited amount b) (save_payment (with_refund amount p) m)),
  )

-- findOne by the reference, under a lock.
unfoldable pub lock_or_404 : String → Money → Result Booking
lock_or_404 ref m =
    or_throw (find (λ (b : Booking). str_eq b.ref_code ref) m.bookings)
      (not_found (concat ("No booking " ∷ ref ∷ [])))

-- The desk's refund, by the booking's reference.
unfoldable pub refund_booking :
    PaymentsService → String → ℕ → Option String → Actor → Money → Result Money
refund_booking s ref amount reason staff m = do
  b ← lock_or_404 ref m
  (p, m') ← refund s b amount (trim (or_empty reason)) staff m
  ok m'

-- "cash+card": the methods of a booking, and one more.
unfoldable pub merge_payment_method : String → String → String
merge_payment_method current next =
    let seen = filter is_filled (map trim (split_at b'+' current)) in
    join "+" (if any (λ m. str_eq m next) seen then seen else seen ++ next ∷ [])

abbrev receipt_text : Option String → String
receipt_text receipt = trim (or_empty receipt)

unfoldable pub with_payment : ℕ → String → Option String → Time → Booking → Booking
with_payment amount method receipt now b = record b {
  paid_amount = b.paid_amount + amount;
  paid_at = some now;
  payment_method =
      merge_payment_method (if ltb 0 b.paid_amount then b.payment_method else "") method;
  receipt_no = if is_filled (receipt_text receipt) then receipt_text receipt else b.receipt_no;
}

unfoldable pub payment_audit : ℕ → String → Option String → Actor → Booking → AuditRow
payment_audit amount method receipt staff b = record {
  booking_id = b.id;
  by = staff;
  changes =
      Change.paid_amount b.paid_amount (b.paid_amount + amount)
      ∷ Change.payment_method method
      ∷ (if is_filled (receipt_text receipt)
          then Change.receipt_no (receipt_text receipt) ∷ []
          else []);
}

-- The cashier took money.
unfoldable pub record_payment :
    String → ℕ → String → Option String → Time → Actor → Money → Result Money
record_payment ref amount method receipt now staff m = do
  b ← lock_or_404 ref m
  throw_if (is_cancelled b.status) (bad_request "This booking is cancelled")
  ok (
      write_audit (payment_audit amount method receipt staff b)
        (save_booking (with_payment amount method receipt now b) m))
