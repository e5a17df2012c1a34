-- ===== src/Reports/Collected.antt =====
-- staff/reports/reconciliation.ts (paymentLedger, collectedByMethod): the split of the till, and its
-- balance against the bookings that the money operations changed.
pub mod Balance
use valle_web_backend.Prelude.{
  ℕ, zero, ◌+◌, ◌≤◌, ◌≡◌, refl, ap, sym, ◌∙◌, Option, none, some, List, [], ◌∷◌, ◌++◌, Bool, true,
  false, if◌then◌else◌, sum_of, sum_of-append, arith, Bool-cases, inl, inr, Option-cases,
}
use valle_web_backend.Prelude.Integers.{
  ℤ, pos, diff, ◌+ℤ◌, is_zero, diff-+, +ℤ-assoc, +ℤ-comm, zero-+ℤ,
}
use valle_web_backend.Payments.{Change}
use valle_web_backend.Reports.Ledger.{
  LedgerMethod, PaymentAuditRow, LedgerEntry, paid_change, entry_of, payment_ledger, CollectedSplit,
  same_method, add_entry, add_entries, collected_by_method,
}

abbrev pub methods_total : CollectedSplit → ℤ
methods_total s =
    s.of_method LedgerMethod.cash
    +ℤ s.of_method LedgerMethod.card
    +ℤ s.of_method LedgerMethod.juice
    +ℤ s.of_method LedgerMethod.transfer
    +ℤ s.of_method LedgerMethod.online
    +ℤ s.of_method LedgerMethod.other

swap : (a x b : ℤ) → a +ℤ x +ℤ b ≡ a +ℤ b +ℤ x
swap a x b = +ℤ-assoc a x b ∙ ap (λ y. a +ℤ y) (+ℤ-comm x b) ∙ sym (+ℤ-assoc a b x)

-- A summand that grew is carried to the end of the sum.
pull : {u : ℤ} (v x b : ℤ) → u ≡ v +ℤ x → u +ℤ b ≡ v +ℤ b +ℤ x
pull v x b h = ap (λ y. y +ℤ b) h ∙ swap v x b

add_entry-methods :
    (e : LedgerEntry) (s : CollectedSplit)
    → methods_total (add_entry e s) ≡ methods_total s +ℤ e.amount
unfolding add_entry
add_entry-methods e s =
    let a = s.of_method LedgerMethod.cash in
    let b = s.of_method LedgerMethod.card in
    let c = s.of_method LedgerMethod.juice in
    let d = s.of_method LedgerMethod.transfer in
    let o = s.of_method LedgerMethod.online in
    let r = s.of_method LedgerMethod.other in
    let x = e.amount in
    elim e.method
      as (λ m. methods_total (add_entry (record e { method = m }) s) ≡ methods_total s +ℤ x) [
        | LedgerMethod.cash ↦ pull _ x r (pull _ x o (pull _ x d (pull _ x c (pull _ x b refl))))
        | LedgerMethod.card ↦
            pull _ x r (pull _ x o (pull _ x d (pull _ x c (sym (+ℤ-assoc a b x)))))
        | LedgerMethod.juice ↦ pull _ x r (pull _ x o (pull _ x d (sym (+ℤ-assoc (a +ℤ b) c x))))
        | LedgerMethod.transfer ↦ pull _ x r (pull _ x o (sym (+ℤ-assoc (a +ℤ b +ℤ c) d x)))
        | LedgerMethod.online ↦ pull _ x r (sym (+ℤ-assoc (a +ℤ b +ℤ c +ℤ d) o x))
        | LedgerMethod.other ↦ sym (+ℤ-assoc (a +ℤ b +ℤ c +ℤ d +ℤ o) r x)
      ]

add_entries-methods :
    (es : List LedgerEntry) (s : CollectedSplit)
    → methods_total s ≡ s.total
    → methods_total (add_entries es s) ≡ (add_entries es s).total
unfolding add_entries
add_entries-methods [] s h = h
add_entries-methods (e ∷ es) s h =
    add_entries-methods es (add_entry e s)
      (add_entry-methods e s ∙ unfold add_entry in ap (λ y. y +ℤ e.amount) h)

-- The figures of the six methods add up to the day's total, whatever methods the trail names.
pub collected_by_method-total :
    (rows : List PaymentAuditRow)
    → let split = collected_by_method (payment_ledger rows) in methods_total split ≡ split.total
unfolding collected_by_method
collected_by_method-total rows = add_entries-methods (payment_ledger rows) _ refl

-- The paid amounts that rows of the trail start from, and those that they lead to.
abbrev pub paid_from : List Change → ℕ
paid_from cs = elim (paid_change cs) [ none ↦ 0 | some (from, to) ↦ from ]

abbrev pub paid_to : List Change → ℕ
paid_to cs = elim (paid_change cs) [ none ↦ 0 | some (from, to) ↦ to ]

amounts_total : List LedgerEntry → ℤ
amounts_total [] = pos 0
amounts_total (e ∷ es) = e.amount +ℤ amounts_total es

add_entries-total :
    (es : List LedgerEntry) (s : CollectedSplit)
    → (add_entries es s).total ≡ s.total +ℤ amounts_total es
unfolding add_entries amounts_total
add_entries-total [] s = ground arith
add_entries-total (e ∷ es) s =
    add_entries-total es (add_entry e s)
    ∙ unfold add_entry in +ℤ-assoc s.total e.amount (amounts_total es)

amounts-payment_ledger :
    (rows : List PaymentAuditRow)
    → amounts_total (payment_ledger rows)
      ≡ diff (sum_of (λ r. paid_to r.changes) rows) (sum_of (λ r. paid_from r.changes) rows)
unfolding payment_ledger amounts_total
amounts-payment_ledger [] = refl
amounts-payment_ledger (r ∷ rows) =
    let ih = amounts-payment_ledger rows in
    let T = sum_of (λ (x : PaymentAuditRow). paid_to x.changes) rows in
    let F = sum_of (λ (x : PaymentAuditRow). paid_from x.changes) rows in
    elim (Option-cases (paid_change r.changes)) [
      | inl nothing ↦ ground (arith, ih)
      | inr ((from, to), change) ↦ elim (Bool-cases (is_zero (diff to from))) [
        | inl still ↦ ground (arith, ih)
        | inr moved ↦ ground (arith, ap (λ y. diff to from +ℤ y) ih ∙ diff-+ to from T F)
      ]
    ]

-- The day's total is what the paid amounts of the trail's rows rose by, less what they fell by.
pub collected_by_method-moved :
    (rows : List PaymentAuditRow)
    → (collected_by_method (payment_ledger rows)).total
      ≡ diff (sum_of (λ r. paid_to r.changes) rows) (sum_of (λ r. paid_from r.changes) rows)
unfolding collected_by_method
collected_by_method-moved rows =
    add_entries-total (payment_ledger rows) (record { of_method = λ m. pos 0; total = pos 0 })
    ∙ zero-+ℤ (amounts_total (payment_ledger rows))
    ∙ amounts-payment_ledger rows
