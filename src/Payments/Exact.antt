-- ===== src/Payments/Exact.antt =====
-- payments/payments.service.ts: a refund is exact.
use mathlib.Core.Path.{subst}
use valle_web_backend.Prelude.{
  ℕ, ◌+◌, ◌<◌, ◌≡◌, String, Option, some, if◌then◌else◌, eq_iff, find, str_eq, arith,
}
use valle_web_backend.Prelude.Http.{ok, or_throw-eq-ok}
use valle_web_backend.Prelude.Rows.{row-save}
use valle_web_backend.Booking.{Booking}
use valle_web_backend.Payments.{Actor, Money}
use valle_web_backend.Payments.Service.{PaymentsService, booking_row}
use valle_web_backend.Payments.Refunds.{refund_booking, debited, lock_or_404}
use valle_web_backend.Payments.Sound.{IsSound}
use valle_web_backend.Payments.Desk.{refund_booking-Refunded, lock_or_404-row, refund-le-paid}

-- A refund that is let through for a reference takes exactly its amount, which is positive, off the paid
-- amount of the booking that has the reference, which held it; every other booking's row stays as it was.
pub refund_booking-exact :
    (s : PaymentsService) (ref : String) (amount : ℕ) (reason : Option String) (staff : Actor)
    (m m' : Money)
    → IsSound m
    → refund_booking s ref amount reason staff m ≡ ok m'
    → (b b' : Booking) × (find (λ (x : Booking). str_eq x.ref_code ref) m.bookings ≡ some b)
      × (booking_row m b.id ≡ some b)
      × ((id : String) → booking_row m' id ≡ (if str_eq b.id id then some b' else booking_row m id))
      × (0 < amount)
      × (b'.paid_amount + amount ≡ b.paid_amount)
unfolding debited lock_or_404
refund_booking-exact s ref amount reason staff m m' sound h =
    let (b, locked, r) = refund_booking-Refunded s ref amount reason staff m m' h in
    let at_id = lock_or_404-row ref m b sound locked in
    let b' = debited amount b in
    let held = refund-le-paid s b amount staff m sound at_id m' r in
    (
      b,
      b',
      or_throw-eq-ok _ _ locked,
      at_id,
      λ id.
          subst (λ t. booking_row t id ≡ (if str_eq b.id id then some b' else booking_row m id))
            r.tables
            (ground
              (arith, row-save (λ (x : Booking). x.id) b' m.bookings id, at_id, eq_iff b.id id)),
      r.positive,
      omega (arith, held),
    )
