-- ===== src/Create.antt =====
-- bookings/bookings.service.ts (checkParty, create, persist, write) with groupDepositAmount of
-- bookings/pricing.ts and bookingResponse of bookings/booking-records.ts: a new booking, with the key of
-- the request that makes a retry harmless and the references that are drawn until one is free. The
-- messages that follow the transaction are left out.
pub mod Party
pub mod Write
pub mod Attempts
pub mod Retry
pub mod Landed
pub mod Balanced
pub mod Run
mod Tests
use valle_web_backend.Prelude.{ℕ, String, Option, List}
use valle_web_backend.Prelude.Http.{HttpError}
use valle_web_backend.Booking.{Booking, BookingStatus}
use valle_web_backend.Payments.Service.{Checkout}
use valle_web_backend.Pricing.Types.{PricingItem}
use valle_web_backend.Intake.{CreateBooking}

-- The request: its form, the items, a code and the hold that it ends.
pub record BookingRequest : Type 0 where
  pub form : CreateBooking
  pub items : List PricingItem
  pub coupon_code : Option String
  pub hold_id : Option String

-- What the rules of the party need to know about an experience or product.
pub record LineInfo : Type 0 where
  pub name : String
  pub age_label : Option String

-- The addresses of a ticket, by its reference and the language, and of its code.
pub record TicketLinks : Type 0 where
  pub ticket_url : String → String → String
  pub qr_url : String → String

-- The service with what it is wired to and the settings that a request reads: the tickets, where there
-- are any; startCheckout, where there is a gateway, which gives nothing where it throws; the percentage of
-- a group's deposit; and the bank details as the preparation reads them and as an answer for a booking
-- that is already written reads them again.
pub record BookingsService : Type 0 where
  pub tickets : Option TicketLinks
  pub payments : Option (Booking → Option Checkout)
  pub deposit_percent : Option ℕ
  pub bank_details : String
  pub bank_details_again : String

-- What the guest gets back: the checkout, and a deposit with where to pay it, only where there is one.
pub record BookingResponse : Type 0 where
  pub ref_code : String
  pub total : ℕ
  pub discount : ℕ
  pub adjustment : ℕ
  pub adjustment_note : String
  pub coupon_code : String
  pub lines : List (String × ℕ)
  pub status : BookingStatus
  pub ticket_url : Option String
  pub qr_url : Option String
  pub checkout : Option Checkout
  pub deposit : Option (ℕ × String)

-- Why a write failed: an exception, or one of the two unique indexes.
pub data WriteError : Type 0 where
  thrown : HttpError → WriteError
  ref_taken key_taken : WriteError

pub data WriteResult (A : Type 0) : Type 0 where
  written : A → WriteResult A
  failed : WriteError → WriteResult A
