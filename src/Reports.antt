-- ===== src/Reports.antt =====
-- staff/reports/reconciliation.ts, and its inputs in staff/reports/reports.service.ts (reconciliation):
-- the day sheet's totals, and the money that the booking trail says was taken.
pub mod Ledger
pub mod Totals
pub mod Collected
mod Tests
use valle_web_backend.Prelude.{
  ℕ, ◌+◌, String, Option, none, some, List, [], ◌∷◌, Bool, true, false, ◌&&◌, if◌then◌else◌, str_eq,
  length, ◌++◌,
}
use valle_web_backend.Prelude.Integers.{ℤ, pos, diff, ◌+ℤ◌, is_zero}
use valle_web_backend.Booking.{Booking, BookingStatus, PayMode}
use valle_web_backend.Payments.{Change, AuditRow, Money}
use valle_web_backend.Payments.Service.{booking_row, is_cancelled}

pub record ReconciliationInput : Type 0 where
  pub status : BookingStatus
  pub pay_mode : PayMode
  pub adults : ℕ
  pub kids : ℕ
  pub infants : ℕ
  pub total : ℕ

pub record ReconciliationTotals : Type 0 where
  pub bookings : ℕ
  pub guests_expected : ℕ
  pub guests_arrived : ℕ
  pub gate_expected : ℕ
  pub gate_collected : ℕ
  pub gate_outstanding : ℕ
  pub online_paid : ℕ
  pub cancelled : ℕ
  pub cancelled_amount : ℕ
  pub no_shows : ℕ
  pub no_show_amount : ℕ

abbrev pub is_arrived : BookingStatus → Bool
is_arrived BookingStatus.arrived = true
is_arrived _ = false

abbrev pub is_confirmed : BookingStatus → Bool
is_confirmed BookingStatus.confirmed = true
is_confirmed _ = false

abbrev pub is_online : PayMode → Bool
is_online PayMode.online = true
is_online _ = false

abbrev pub is_gate : PayMode → Bool
is_gate PayMode.gate = true
is_gate _ = false

abbrev pub guests_of : ReconciliationInput → ℕ
guests_of r = r.adults + r.kids + r.infants

unfoldable pub add_guests : ReconciliationInput → ReconciliationTotals → ReconciliationTotals
add_guests r t = record t {
  guests_expected = t.guests_expected + guests_of r;
  guests_arrived = if is_arrived r.status then t.guests_arrived + guests_of r else t.guests_arrived;
  online_paid = if is_online r.pay_mode then t.online_paid + r.total else t.online_paid;
}

unfoldable pub add_gate : ReconciliationInput → ReconciliationTotals → ReconciliationTotals
add_gate r t =
    if is_gate r.pay_mode
    then (if is_arrived r.status
        then record t {
          gate_expected = t.gate_expected + r.total;
          gate_collected = t.gate_collected + r.total;
        }
        else record t {
          gate_expected = t.gate_expected + r.total;
          gate_outstanding = t.gate_outstanding + r.total;
        })
    else t

unfoldable pub add_no_show :
    Bool → ReconciliationInput → ReconciliationTotals → ReconciliationTotals
add_no_show day_has_passed r t =
    if day_has_passed && is_confirmed r.status
    then record t { no_shows = t.no_shows + 1; no_show_amount = t.no_show_amount + r.total }
    else t

-- The body of the loop over the rows.
unfoldable pub add_row : Bool → ReconciliationInput → ReconciliationTotals → ReconciliationTotals
add_row day_has_passed r t =
    if is_cancelled r.status
    then record t { cancelled = t.cancelled + 1; cancelled_amount = t.cancelled_amount + r.total }
    else add_no_show day_has_passed r (add_gate r (add_guests r t))

unfoldable pub add_rows :
    Bool → List ReconciliationInput → ReconciliationTotals → ReconciliationTotals
add_rows day_has_passed [] t = t
add_rows day_has_passed (r ∷ rows) t = add_rows day_has_passed rows (add_row day_has_passed r t)

abbrev pub no_totals : ℕ → ReconciliationTotals
no_totals n = record {
  bookings = n;
  guests_expected = 0;
  guests_arrived = 0;
  gate_expected = 0;
  gate_collected = 0;
  gate_outstanding = 0;
  online_paid = 0;
  cancelled = 0;
  cancelled_amount = 0;
  no_shows = 0;
  no_show_amount = 0;
}

unfoldable pub reconciliation_totals : List ReconciliationInput → Bool → ReconciliationTotals
reconciliation_totals rows day_has_passed = add_rows day_has_passed rows (no_totals (length rows))
