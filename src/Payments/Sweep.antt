-- ===== src/Payments/Sweep.antt =====
-- payments/payments.service.ts (releaseAbandoned): the sweep of abandoned checkouts.
use valle_web_backend.Prelude.{
  ℕ, ◌+◌, String, Option, none, some, List, [], ◌∷◌, Bool, true, false, ◌&&◌, not, filter, ltb,
  if◌then◌else◌, suc, zero, is_some, ◌++◌,
}
use valle_web_backend.Prelude.Http.{Result, ok, err, ◌>>=◌}
use valle_web_backend.Booking.{Time, Booking}
use valle_web_backend.Payments.{Outcome, WebhookEvent, Payment, Money}
use valle_web_backend.Payments.Service.{
  PaymentsService, booking_row, save_booking, is_cancelled, is_pending,
}
use valle_web_backend.Payments.Settle.{settle}

abbrev pub take_first : ℕ → List Payment → List Payment
take_first zero ps = []
take_first (suc n) [] = []
take_first (suc n) (p ∷ ps) = p ∷ take_first n ps

-- Pending payments older than the grace period, fifty at most.
unfoldable pub stale : PaymentsService → Time → Money → List Payment
stale s now m = take_first 50 (
    filter (λ (p : Payment). is_pending p.status && ltb (p.created_at + s.grace_ms) now) m.payments)

unfoldable pub abandoned : Payment → WebhookEvent
abandoned p = record {
  payment_id = some p.id;
  provider_ref = p.provider_ref;
  status = Outcome.cancelled;
  amount = 0;
  reason = some "abandoned";
}

abbrev pub is_due : PaymentsService → Booking → Bool
is_due s b = not (is_cancelled b.status) && not (is_some b.ticket_sent_at) && s.guest

-- A ticket is sent; its time is kept where it reached the guest. The time of the sweep stands for that of
-- the sending.
unfoldable pub send_ticket : PaymentsService → Time → Booking → Money → Money
send_ticket s now b m =
    if s.reaches b then save_booking (record b { ticket_sent_at = some now }) m else m

-- A booking that is due gets its ticket as pay on arrival: the tables, and the booking that it was for.
unfoldable pub send_if_due : PaymentsService → Time → Option Booking → Money → Money × List String
send_if_due s now none m = (m, [])
send_if_due s now (some b) m = if is_due s b then (send_ticket s now b m, b.id ∷ []) else (m, [])

-- What a sweep did: the payments it cancelled, and the bookings whose ticket it sent.
pub record Released : Type 0 where
  pub count : ℕ
  pub tickets : List String

-- One transaction per payment; an exception ends the sweep.
unfoldable pub release :
    PaymentsService → String → Time → List Payment → Money → Money × Result Released
release s provider now [] m = (m, ok (record { count = 0; tickets = [] }))
release s provider now (p ∷ ps) m = elim (settle provider now (abandoned p) m) [
  | err e ↦ (m, err e)
  | ok (false, m') ↦ release s provider now ps m'
  | ok (true, m') ↦
      let (sent, tickets) = send_if_due s now (booking_row m' p.booking_id) m' in
      let (m'', r) = release s provider now ps sent in
      (
        m'',
        r >>= λ (rest : Released).
            ok (record { count = suc rest.count; tickets = tickets ++ rest.tickets }),
      )
]

unfoldable pub release_abandoned : PaymentsService → String → Time → Money → Money × Result Released
release_abandoned s provider now m = release s provider now (stale s now m) m
