-- ===== src/Payments.antt =====
-- payments/payment-provider.ts, entities/payment.entity.ts, entities/booking-audit.entity.ts and
-- common/audit.ts: the data of online payments. The provider is a record of the calls that an adapter
-- answers; the service's operations are in the modules below.
pub mod Service
pub mod Settle
pub mod Sweep
pub mod Listed
pub mod Swept
pub mod Refunds
pub mod Steps
pub mod Sound
pub mod Keep
pub mod Settled
pub mod Desk
pub mod Open
pub mod Opening
pub mod Done
pub mod Once
pub mod Exact
pub mod Tests
use valle_web_backend.Prelude.{ℕ, String, Option, List}
use valle_web_backend.Prelude.Http.{Result}
use valle_web_backend.Booking.{Time, Booking}

pub record CheckoutRequest : Type 0 where
  pub payment_id : String
  pub ref_code : String
  pub amount : ℕ
  pub description : String
  pub return_url : String
  pub webhook_url : String
  pub guest_name : String
  pub guest_email : String
  pub guest_phone : String

pub record CheckoutSession : Type 0 where
  pub redirect_url : String
  pub provider_ref : String

pub data PaymentStatus : Type 0 where
  pending paid failed cancelled refunded : PaymentStatus

pub data Outcome : Type 0 where
  paid failed cancelled : Outcome

pub record WebhookEvent : Type 0 where
  pub payment_id : Option String
  pub provider_ref : String
  pub status : Outcome
  pub amount : ℕ
  pub reason : Option String

-- An adapter: its calls may throw.
pub record PaymentProvider : Type 0 where
  pub name : String
  pub create_checkout : CheckoutRequest → Result CheckoutSession
  pub parse_webhook : String → Result (Option WebhookEvent)
  pub refund : String → ℕ → String → Result String

pub record Payment : Type 0 where
  pub id : String
  pub booking_id : String
  pub provider : String
  pub provider_ref : String
  pub amount : ℕ
  pub status : PaymentStatus
  pub refunded_amount : ℕ
  pub failure_reason : String
  pub created_at : Time
  pub settled_at : Option Time

pub record Actor : Type 0 where
  pub id : Option String
  pub email : String

-- An entry of the changes of a row of the trail.
pub data Change : Type 0 where
  paid_amount : ℕ → ℕ → Change
  payment_method receipt_no refund_note : String → Change

pub record AuditRow : Type 0 where
  pub booking_id : String
  pub by : Actor
  pub changes : List Change

-- The tables that money operations write.
pub record Money : Type 0 where
  pub bookings : List Booking
  pub payments : List Payment
  pub trail : List AuditRow
