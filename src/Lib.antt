-- ===== src/Lib.antt =====
-- The booking core of the VALLÉ Advenature Park API: prices, codes, places, bookings and
-- their changes, payments, the till, waivers, staff accounts and the chat.
--
-- A visit is booked on the website or at the desk. BookingsService prices the request from the
-- catalogue's rows (Pricing), looks up a promo code (Coupons), and in one transaction checks that there
-- are places (Capacity), writes the booking and counts the use of the code (Intake, Create). The desk and
-- the guest change it later: StaffBookingsService fits its lines to the party, prices it again, checks the
-- places and writes the trail (Patch, Edits). PaymentsService takes money online through a provider and
-- the cashier takes it at the desk; both write the booking's paid amount and a row of the booking's trail
-- (Payments). The reconciliation reads the trail at the end of the day (Reports). Guests sign waivers, and
-- at the gate the waiver rules say who must have signed and what to check (Waivers). Beside the bookings
-- stand the accounts of the staff with their second factor (Accounts) and the chat (Chat).
--
-- Files and the code that they model:
--   Prelude, Prelude/*     tests, lists, texts, the framework's exceptions as results, tables with a
--                          primary key (row, save), integers for amounts that may be negative
--   Day                    common/park-time.ts: calendar days
--   Booking                entities/booking.entity.ts, entities/booking-line.entity.ts
--   Pricing, Pricing/*     bookings/pricing.ts, entities/product.entity.ts. Types, Product, Party, Adjust,
--                          Coverage, Validate, Lines, Pass and Compute hold computeBooking and the
--                          functions it calls, in the order of the source; Checks, Charges, Sums, Accept,
--                          Covered and Discounts hold proofs
--   Coupons, Coupons/*     coupons/coupons.service.ts: resolve, consume, create and setActive on a table;
--                          Table, Uses and Offer hold proofs
--   Capacity               bookings/capacity.ts: the calendar, closures and sessions
--   Capacity/Taken         heldGuests, activityTaken, sessionTaken, and the sum inside reservePlaces
--   Capacity/Reserve       reservePlaces; hold, releaseHold and the places of write in
--                          bookings/bookings.service.ts
--   Capacity/Levels        bookings/availability.ts: busyLevel, applySlotLevels; activityLevel
--   Capacity/*             Slots, Within and Items hold proofs
--   Intake, Intake/*       bookings/bookings.service.ts: validateRequest and the adjustment of create;
--                          bookings/booking-records.ts: newBookingRecord, lineRecords. Figures holds proofs
--   Patch, Patch/Party     staff/bookings/booking-patch.ts, and assertLinesFitParty of
--                          bookings/party-rules.ts. Resent holds proofs
--   Payments               payments/payment-provider.ts, entities/payment.entity.ts and the trail's rows
--   Payments/Service       payments/payments.service.ts: startCheckout, status
--   Payments/Settle        settle, handleWebhook, lockPayment, creditBooking
--   Payments/Sweep         releaseAbandoned
--   Payments/Listed, Swept, Opening
--                          proofs about the sweep and about a checkout that opens
--   Payments/Refunds       refund; staff/bookings/payment-method.ts; recordPayment and refund of
--                          staff/bookings/staff-bookings.service.ts
--   Payments/Steps         the transactions in any order, as a step relation; the other files of
--                          Payments hold proofs
--   Reports                staff/reports/reconciliation.ts: reconciliationTotals
--   Reports/Ledger         paymentLedger, collectedByMethod, and the join in
--                          staff/reports/reports.service.ts that feeds them
--   Create                 bookings/bookings.service.ts: the request and the answer of create
--   Create/Party           assertAgeMinimums of bookings/party-rules.ts, checkParty
--   Create/Write           price, write, persist, openCheckoutOrSendTicket, responseFor, create; groupDepositAmount of bookings/pricing.ts;
--                          bookingResponse of bookings/booking-records.ts
--   Create/*               Attempts, Retry, Landed and Balanced hold proofs; Run has the steps of all calls
--                          of Create and Edits
--   Edits                  staff/bookings/booking-patch.ts: normalizePatch, auditAction, lineCountChanges
--   Edits/Fitting, Money   fitLines, ensureRoom, reprice and applyAdjustment of
--                          staff/bookings/staff-bookings.service.ts
--   Edits/Update, Guest    update, arrivalRule, postpone; guestChange, guestCancel
--   Edits/*                Balanced, Kept, Codes, Moved, Room, Seats and Cancelled hold proofs
--   Chat                   entities/chat-conversation.entity.ts, chat-message.entity.ts and
--                          chat-attachment.entity.ts
--   Chat/Service, Files    chat/chat.service.ts: startSession, addVisitorMessage, addStaffMessage,
--                          markStaffRead, close; attachmentKind, addAttachment
--   Chat/Calls             the calls above, one after the other; Unread, Backlog and Run hold proofs
--   Waivers                waivers/waiver-rules.ts; Waivers/AgeLabel has parseAgeLabel
--   Waivers/Register       waivers/waivers.service.ts: sign; signerFor and newWaiverRecord of
--                          waivers/waiver-views.ts; Gate, Signing and Current hold proofs
--   Accounts               staff/auth/ with the entities of accounts and reset links
--   Accounts/Base32, Totp  totp.ts: base32, one-time codes and recovery codes
--   Accounts/Factor        consumeSecondFactor of staff-auth.service.ts
--   Accounts/Sessions      login, completeTwoFactor, staffFromToken
--   Accounts/Security      staff-security.service.ts
--   Accounts/Team          staff-users.service.ts
--   Accounts/Calls         the calls above, one after the other; the other files of Accounts hold proofs
-- All paths are below src/ of the repository. Names are the source's in snake case.
--
-- How the code is modelled. Tables are lists of rows. A method that writes takes the tables and returns
-- them; an exception is a value of Prelude/Http, with its kind and message, and a transaction that throws
-- leaves the tables as they were. Where the code writes before it calls the provider, outside a
-- transaction, the tables come back beside the error. Row locks make transactions on one row follow one
-- another, which sequences of steps model. Keys that the database draws, the time, the provider, the
-- ticket's addresses, its signature and its check, and encodeURIComponent are parameters. Amounts and counts are whole numbers, as the integer
-- columns and the validated requests make them; where the source subtracts and may fall below zero the
-- model keeps an integer, or says why it does not. A day is the number YYYYMMDD, whose order is the
-- order of the texts that the source compares. Rounding and the shares of a capacity are written with
-- exact fractions, which agree with the floating-point tests for amounts and counts that occur. Upper and
-- lower case are those of ASCII letters. Recursion is on lists, and create makes at most twenty attempts, as the source does; decimal
-- numbers and groups of digits take the number itself as fuel, which is more than its digits.
--
-- Not modelled: parsing of settings (JSON), the controllers and their validation, queries that only
-- read for a view, messages to guests and staff (but for the mark of a ticket that the sweep of abandoned
-- checkouts sends), and the parts of the service listed without a file
-- above, such as staff shifts, careers, quotes and notifications.
pub mod Prelude
pub mod Day
pub mod Booking
pub mod Pricing
pub mod Coupons
pub mod Capacity
pub mod Intake
pub mod Payments
pub mod Patch
pub mod Reports
pub mod Waivers
pub mod Edits
pub mod Create
pub mod Accounts
pub mod Chat
