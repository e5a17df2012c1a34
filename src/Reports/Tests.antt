-- ===== src/Reports/Tests.antt =====
-- staff/reports/reconciliation.ts: runs on a small day.
use valle_web_backend.Prelude.{◌+◌, ◌≡◌, refl, List, [], ◌∷◌, true, ◌&&◌, ◌||◌, sum_of}
use valle_web_backend.Prelude.Integers.{diff}
use valle_web_backend.Booking.{BookingStatus, PayMode}
use valle_web_backend.Payments.{Change}
use valle_web_backend.Payments.Steps.{here, next, settled}
use valle_web_backend.Payments.Tests.{
  a_service, some_money, settled_money, some_money-IsSound, paid_event, settled_once,
}
use valle_web_backend.Reports.{
  ReconciliationInput, is_arrived, is_confirmed, is_gate, is_online, reconciliation_totals,
}
use valle_web_backend.Reports.Ledger.{
  PaymentAuditRow, payment_ledger, collected_by_method, audit_rows,
}
use valle_web_backend.Reports.Totals.{
  rupees_if, guests_if, one_if, is_live, reconciliation_totals-rupees, reconciliation_totals-guests,
}
use valle_web_backend.Reports.Collected.{
  methods_total, paid_from, paid_to, collected_by_method-total, collected_by_method-moved,
}
use valle_web_backend.Reports.Collected.Balance.{paid_total, reconciliation-balanced}

abbrev a_day : List ReconciliationInput
a_day =
    record {
      status = BookingStatus.arrived;
      pay_mode = PayMode.gate;
      adults = 2;
      kids = 1;
      infants = 0;
      total = 4_500;
    }
    ∷ record {
      status = BookingStatus.confirmed;
      pay_mode = PayMode.online;
      adults = 2;
      kids = 0;
      infants = 1;
      total = 3_000;
    }
    ∷ record {
      status = BookingStatus.cancelled;
      pay_mode = PayMode.gate;
      adults = 4;
      kids = 0;
      infants = 0;
      total = 6_000;
    }
    ∷ []

abbrev a_trail : List PaymentAuditRow
a_trail =
    record {
      ref_code = "VAL-1001-26";
      guest_name = "Ana";
      by = "desk";
      changes = Change.paid_amount 0 4_500 ∷ Change.payment_method "cash" ∷ [];
    }
    ∷ record {
      ref_code = "VAL-1001-26";
      guest_name = "Ana";
      by = "desk";
      changes = Change.paid_amount 4_500 3_000 ∷ Change.refund_note "Rs 1,500" ∷ [];
    }
    ∷ []

reconciliation_totals-rupees_example :
    let t = reconciliation_totals a_day true in
    (t.gate_expected + t.online_paid + t.cancelled_amount ≡ sum_of (λ r. r.total) a_day)
    × (t.gate_expected
        ≡ sum_of
            (rupees_if (λ r. is_gate r.pay_mode && (is_confirmed r.status || is_arrived r.status)))
            a_day)
    × (t.gate_collected ≡ sum_of (rupees_if (λ r. is_gate r.pay_mode && is_arrived r.status)) a_day)
    × (t.gate_outstanding
        ≡ sum_of (rupees_if (λ r. is_gate r.pay_mode && is_confirmed r.status)) a_day)
    × (t.online_paid ≡ sum_of (rupees_if (λ r. is_live r && is_online r.pay_mode)) a_day)
reconciliation_totals-rupees_example =
    reconciliation_totals-rupees true a_day (refl, (refl, (refl, tt)))

reconciliation_totals-guests_example :
    let t = reconciliation_totals a_day true in
    (t.guests_expected ≡ sum_of (guests_if is_live) a_day)
    × (t.guests_arrived ≡ sum_of (guests_if (λ r. is_arrived r.status)) a_day)
    × (t.no_shows ≡ sum_of (one_if (λ r. true && is_confirmed r.status)) a_day)
    × (t.no_show_amount ≡ sum_of (rupees_if (λ r. true && is_confirmed r.status)) a_day)
reconciliation_totals-guests_example = reconciliation_totals-guests true a_day

collected_by_method-total_example :
    let split = collected_by_method (payment_ledger a_trail) in methods_total split ≡ split.total
collected_by_method-total_example = collected_by_method-total a_trail

collected_by_method-moved_example :
    (collected_by_method (payment_ledger a_trail)).total
    ≡ diff (sum_of (λ r. paid_to r.changes) a_trail) (sum_of (λ r. paid_from r.changes) a_trail)
collected_by_method-moved_example = collected_by_method-moved a_trail

reconciliation-balanced_example :
    (collected_by_method (payment_ledger (audit_rows settled_money settled_money.trail))).total
    ≡ diff (paid_total settled_money) (paid_total some_money)
reconciliation-balanced_example =
    reconciliation-balanced a_service some_money settled_money some_money-IsSound refl
      (next here (settled "sandbox" 7 paid_event settled_once))
