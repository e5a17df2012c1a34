-- ===== src/Payments/Settle.antt =====
-- payments/payments.service.ts (settle, handleWebhook): the provider's webhook. The payload (`raw`),
-- the log lines and the messages that follow a payment, with the mark of a sent ticket, are left out.
use valle_web_backend.Prelude.{
  ℕ, ◌+◌, String, Option, none, some, [], ◌∷◌, Bool, true, false, ◌&&◌, find, ltb, if◌then◌else◌,
  str_eq,
}
use valle_web_backend.Prelude.Text.{concat, or_empty, is_filled}
use valle_web_backend.Prelude.Http.{Result, ok, not_found, ◌>>=◌, or_throw}
use valle_web_backend.Booking.{Time, Booking}
use valle_web_backend.Payments.{
  PaymentStatus, Outcome, WebhookEvent, Payment, Change, AuditRow, Money,
}
use valle_web_backend.Payments.Service.{
  PaymentsService, booking_row, payment_row, save_booking, save_payment, write_audit, is_pending,
}

abbrev status_of : Outcome → PaymentStatus
status_of Outcome.paid = PaymentStatus.paid
status_of Outcome.failed = PaymentStatus.failed
status_of Outcome.cancelled = PaymentStatus.cancelled

abbrev reason_of : WebhookEvent → Payment → String
reason_of e p = elim e.status [ Outcome.paid ↦ p.failure_reason | _ ↦ or_empty e.reason ]

abbrev amount_of : WebhookEvent → Payment → ℕ
amount_of e p = elim e.status [
  | Outcome.paid ↦ if ltb 0 e.amount then e.amount else p.amount
  | _ ↦ p.amount
]

-- The payment with the outcome of an event.
unfoldable pub with_outcome : WebhookEvent → Time → Payment → Payment
with_outcome e now p = record p {
  status = status_of e.status;
  settled_at = some now;
  provider_ref = if is_filled e.provider_ref then e.provider_ref else p.provider_ref;
  failure_reason = reason_of e p;
  amount = amount_of e p;
}

-- The payment that an event is about, by our key, else by the provider's reference.
unfoldable pub lock_payment : String → WebhookEvent → Money → Option Payment
lock_payment provider e m =
    if is_filled (or_empty e.payment_id)
    then payment_row m (or_empty e.payment_id)
    else find (λ (p : Payment). str_eq p.provider_ref e.provider_ref && str_eq p.provider provider)
        m.payments

unfoldable pub credited : Payment → Time → Booking → Booking
credited p now b = record b {
  paid_amount = b.paid_amount + p.amount;
  paid_at = some now;
  payment_method = "online";
  receipt_no = if is_filled p.provider_ref then p.provider_ref else p.id;
}

unfoldable pub credit_row : Payment → Time → Booking → AuditRow
credit_row p now b = record {
  booking_id = b.id;
  by = record { id = none; email = concat ("payments:" ∷ p.provider ∷ []) };
  changes =
      Change.paid_amount b.paid_amount (credited p now b).paid_amount
      ∷ Change.payment_method "online"
      ∷ Change.receipt_no (credited p now b).receipt_no
      ∷ [];
}

-- A settled payment goes into its booking's paid amount, receipt and trail.
unfoldable pub credit_booking : Payment → Time → Money → Result Money
credit_booking p now m = do
  b ← or_throw (booking_row m p.booking_id) (not_found "No such booking")
  ok (write_audit (credit_row p now b) (save_booking (credited p now b) m))

unfoldable pub apply_outcome : WebhookEvent → Time → Payment → Money → Result (Bool × Money)
apply_outcome e now p m =
    let saved = save_payment (with_outcome e now p) m in
    elim e.status [
      | Outcome.paid ↦ credit_booking (with_outcome e now p) now saved >>= λ m'. ok (true, m')
      | _ ↦ ok (true, saved)
    ]

-- An outcome, applied once: whether it was, and the tables after it.
unfoldable pub settle : String → Time → WebhookEvent → Money → Result (Bool × Money)
settle provider now e m = do
  p ← or_throw (lock_payment provider e m) (not_found "No such payment")
  elim (is_pending p.status) [ false ↦ ok (false, m) | true ↦ apply_outcome e now p m ]

-- The provider's call: checked by the adapter, then settled.
unfoldable pub handle_webhook : PaymentsService → Time → String → Money → Result (Bool × Money)
handle_webhook s now body m = do
  p ← or_throw s.provider (not_found "Online payment is not available")
  event ← p.parse_webhook body
  elim event [ none ↦ ok (false, m) | some e ↦ settle p.name now e m ]
