-- ===== src/Reports/Ledger.antt =====
-- staff/reports/reconciliation.ts (paymentLedger, collectedByMethod) and the query of
-- staff/reports/reports.service.ts that feeds it: the money that the booking trail says was taken.
use valle_web_backend.Prelude.{
  ℕ, String, Option, none, some, List, [], ◌∷◌, Bool, true, false, if◌then◌else◌, str_eq, ◌++◌,
}
use valle_web_backend.Prelude.Integers.{ℤ, pos, diff, ◌+ℤ◌, is_zero}
use valle_web_backend.Booking.{Booking}
use valle_web_backend.Payments.{Change, AuditRow, Money}
use valle_web_backend.Payments.Service.{booking_row}

pub data LedgerMethod : Type 0 where
  cash card juice transfer online other : LedgerMethod

-- A row of the trail joined with its booking.
pub record PaymentAuditRow : Type 0 where
  pub ref_code : String
  pub guest_name : String
  pub by : String
  pub changes : List Change

pub record LedgerEntry : Type 0 where
  pub ref_code : String
  pub guest_name : String
  pub method : LedgerMethod
  pub amount : ℤ
  pub receipt_no : String
  pub by : String

-- changes.paidAmount, changes.paymentMethod, changes.receiptNo and changes.refund.
abbrev pub paid_change : List Change → Option (ℕ × ℕ)
paid_change [] = none
paid_change (Change.paid_amount from to ∷ cs) = some (from, to)
paid_change (_ ∷ cs) = paid_change cs

abbrev pub method_change : List Change → Option String
method_change [] = none
method_change (Change.payment_method m ∷ cs) = some m
method_change (_ ∷ cs) = method_change cs

abbrev pub receipt_change : List Change → String
receipt_change [] = ""
receipt_change (Change.receipt_no r ∷ cs) = r
receipt_change (_ ∷ cs) = receipt_change cs

abbrev pub has_refund : List Change → Bool
has_refund [] = false
has_refund (Change.refund_note r ∷ cs) = true
has_refund (_ ∷ cs) = has_refund cs

abbrev pub raw_method : List Change → String
raw_method cs = elim (method_change cs) [
  | some m ↦ m
  | none ↦ if has_refund cs then "online" else "other"
]

-- LEDGER_METHODS.includes(raw) ? raw : 'other'
unfoldable pub ledger_method : String → LedgerMethod
ledger_method raw =
    if str_eq raw "cash"
    then LedgerMethod.cash
    else if str_eq raw "card"
    then LedgerMethod.card
    else if str_eq raw "juice"
    then LedgerMethod.juice
    else if str_eq raw "transfer"
    then LedgerMethod.transfer
    else if str_eq raw "online"
    then LedgerMethod.online
    else LedgerMethod.other

abbrev pub entry_of : PaymentAuditRow → ℕ → ℕ → LedgerEntry
entry_of r from to = record {
  ref_code = r.ref_code;
  guest_name = r.guest_name;
  method = ledger_method (raw_method r.changes);
  amount = diff to from;
  receipt_no = receipt_change r.changes;
  by = r.by;
}

-- Every payment of the day, from the booking trail.
unfoldable pub payment_ledger : List PaymentAuditRow → List LedgerEntry
payment_ledger [] = []
payment_ledger (r ∷ rows) =
    let rest = payment_ledger rows in
    elim (paid_change r.changes) [
      | none ↦ rest
      | some (from, to) ↦ if is_zero (diff to from) then rest else entry_of r from to ∷ rest
    ]

pub record CollectedSplit : Type 0 where
  pub of_method : LedgerMethod → ℤ
  pub total : ℤ

abbrev pub same_method : LedgerMethod → LedgerMethod → Bool
same_method LedgerMethod.cash LedgerMethod.cash = true
same_method LedgerMethod.card LedgerMethod.card = true
same_method LedgerMethod.juice LedgerMethod.juice = true
same_method LedgerMethod.transfer LedgerMethod.transfer = true
same_method LedgerMethod.online LedgerMethod.online = true
same_method LedgerMethod.other LedgerMethod.other = true
same_method _ _ = false

unfoldable pub add_entry : LedgerEntry → CollectedSplit → CollectedSplit
add_entry e split = record {
  of_method =
      λ m. if same_method e.method m then split.of_method m +ℤ e.amount else split.of_method m;
  total = split.total +ℤ e.amount;
}

unfoldable pub add_entries : List LedgerEntry → CollectedSplit → CollectedSplit
add_entries [] split = split
add_entries (e ∷ es) split = add_entries es (add_entry e split)

-- One figure per method, and their sum.
unfoldable pub collected_by_method : List LedgerEntry → CollectedSplit
collected_by_method es = add_entries es (record { of_method = λ m. pos 0; total = pos 0 })

abbrev pub joined : AuditRow → Option Booking → List PaymentAuditRow
joined r none = []
joined r (some b) =
    record {
      ref_code = b.ref_code;
      guest_name = b.guest_name;
      by = r.by.email;
      changes = r.changes;
    }
    ∷ []

-- booking_audit JOIN bookings ORDER BY created_at, of the day's rows: the trail has the newest first.
unfoldable pub audit_rows : Money → List AuditRow → List PaymentAuditRow
audit_rows m [] = []
audit_rows m (r ∷ rows) = audit_rows m rows ++ joined r (booking_row m r.booking_id)
