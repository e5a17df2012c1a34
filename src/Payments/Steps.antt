-- ===== src/Payments/Steps.antt =====
-- payments/payments.service.ts and the cashier: the transactions, one after the other, in any order.
use valle_web_backend.Prelude.{ℕ, ◌≡◌, String, Option, none, Bool}
use valle_web_backend.Prelude.Http.{ok}
use valle_web_backend.Booking.{Time, Booking}
use valle_web_backend.Payments.{WebhookEvent, Actor, Money}
use valle_web_backend.Payments.Service.{PaymentsService, payment_row, start_checkout}
use valle_web_backend.Payments.Settle.{settle}
use valle_web_backend.Payments.Refunds.{refund_booking, record_payment}

-- A call that returned. The database gives a new payment a key that no row has.
pub data Step (s : PaymentsService) (m : Money) : Money → Type 0 where
  checkout :
      (id : String) (now : Time) (b : Booking)
      → payment_row m id ≡ none
      → Step s m (start_checkout s id now b m).0
  settled :
      (provider : String) (now : Time) (e : WebhookEvent) {applied : Bool} {m' : Money}
      → settle provider now e m ≡ ok (applied, m')
      → Step s m m'
  refunded :
      (ref : String) (amount : ℕ) (reason : Option String) (staff : Actor) {m' : Money}
      → refund_booking s ref amount reason staff m ≡ ok m'
      → Step s m m'
  cashed :
      (ref : String) (amount : ℕ) (method : String) (receipt : Option String) (now : Time)
      (staff : Actor) {m' : Money}
      → record_payment ref amount method receipt now staff m ≡ ok m'
      → Step s m m'

pub data Reach (s : PaymentsService) (m : Money) : Money → Type 0 where
  here : Reach s m m
  next : {t u : Money} → Reach s m t → Step s t u → Reach s m u
