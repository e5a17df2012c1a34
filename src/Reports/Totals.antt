-- ===== src/Reports/Totals.antt =====
-- staff/reports/reconciliation.ts (reconciliationTotals): what the figures of the day sheet add up to.
use valle_web_backend.Prelude.{
  All, ◌||◌, true, false, ℕ, ◌+◌, ◌≡◌, refl, ◌∙◌, List, [], ◌∷◌, Bool, ◌&&◌, if◌then◌else◌, sum_of,
  not, arith, length,
}
use valle_web_backend.Booking.{BookingStatus}
use valle_web_backend.Payments.Service.{is_cancelled}
use valle_web_backend.Reports.{
  ReconciliationInput, ReconciliationTotals, is_arrived, is_confirmed, is_online, is_gate,
  guests_of, add_guests, add_gate, add_no_show, add_row, add_rows, no_totals, reconciliation_totals,
}

-- A figure to which each row adds its own share is the sum of the shares.
module _ (passed : Bool) (figure : ReconciliationTotals → ℕ) (share : ReconciliationInput → ℕ)
    (adds : (r : ReconciliationInput) (t : ReconciliationTotals)
      → figure (add_row passed r t) ≡ figure t + share r) where
  figure-add_rows :
      (rows : List ReconciliationInput) (t : ReconciliationTotals)
      → figure (add_rows passed rows t) ≡ figure t + sum_of share rows
  unfolding add_rows
  figure-add_rows [] t = omega arith
  figure-add_rows (r ∷ rows) t = omega (arith, figure-add_rows rows (add_row passed r t), adds r t)

-- A row's own rupees, guests and count, where a test holds.
abbrev pub rupees_if : (ReconciliationInput → Bool) → ReconciliationInput → ℕ
rupees_if p r = if p r then r.total else 0

abbrev pub guests_if : (ReconciliationInput → Bool) → ReconciliationInput → ℕ
guests_if p r = if p r then guests_of r else 0

abbrev pub one_if : (ReconciliationInput → Bool) → ReconciliationInput → ℕ
one_if p r = if p r then 1 else 0

abbrev pub is_postponed : BookingStatus → Bool
is_postponed BookingStatus.postponed = true
is_postponed _ = false

abbrev pub is_live : ReconciliationInput → Bool
is_live r = not (is_cancelled r.status)

abbrev pub IsPlanned : ReconciliationInput → Type 0
IsPlanned r = is_postponed r.status ≡ false

-- Shares that agree on the bookings that are not postponed have one sum, where no booking is.
same_sum :
    (f g : ReconciliationInput → ℕ)
    → ((r : ReconciliationInput) → IsPlanned r → f r ≡ g r)
    → (rows : List ReconciliationInput) → All IsPlanned rows
    → sum_of f rows ≡ sum_of g rows
same_sum f g same [] planned = refl
same_sum f g same (r ∷ rows) (here, planned) =
    omega (arith, same r here, same_sum f g same rows planned)

module _ (passed : Bool) (rows : List ReconciliationInput) where
  total_figure :
      (figure : ReconciliationTotals → ℕ) (share : ReconciliationInput → ℕ)
      → ((r : ReconciliationInput) (t : ReconciliationTotals)
          → figure (add_row passed r t) ≡ figure t + share r)
      → ((n : ℕ) → figure (no_totals n) ≡ 0)
      → figure (reconciliation_totals rows passed) ≡ sum_of share rows
  unfolding reconciliation_totals
  total_figure figure share adds empty = omega (
    arith,
    figure-add_rows passed figure share adds rows (no_totals (length rows)),
    empty (length rows),
  )

  -- On a day without postponed bookings every rupee of the bookings is counted once: as expected at the
  -- gate, as paid online or as cancelled. What is expected at the gate is what the confirmed and the arrived
  -- parties pay there; the arrived ones' is collected, the confirmed ones' is outstanding, and what is paid
  -- online is that of the bookings that are not cancelled.
  pub reconciliation_totals-rupees :
      All IsPlanned rows
      → let t = reconciliation_totals rows passed in
        (t.gate_expected + t.online_paid + t.cancelled_amount ≡ sum_of (λ r. r.total) rows)
        × (t.gate_expected
            ≡ sum_of
                (rupees_if
                  (λ r. is_gate r.pay_mode && (is_confirmed r.status || is_arrived r.status)))
                rows)
        × (t.gate_collected
            ≡ sum_of (rupees_if (λ r. is_gate r.pay_mode && is_arrived r.status)) rows)
        × (t.gate_outstanding
            ≡ sum_of (rupees_if (λ r. is_gate r.pay_mode && is_confirmed r.status)) rows)
        × (t.online_paid ≡ sum_of (rupees_if (λ r. is_live r && is_online r.pay_mode)) rows)
  unfolding add_row add_no_show add_gate add_guests
  reconciliation_totals-rupees planned = (
    total_figure (λ t. t.gate_expected + t.online_paid + t.cancelled_amount) (λ r. r.total)
        (λ r t. ground arith) (λ n. omega arith),
    total_figure (λ t. t.gate_expected) (rupees_if (λ r. is_live r && is_gate r.pay_mode))
          (λ r t. ground arith) (λ n. refl)
        ∙ same_sum _ _ (λ r p. ground (arith, p)) rows planned,
    total_figure (λ t. t.gate_collected)
        (rupees_if (λ r. is_gate r.pay_mode && is_arrived r.status)) (λ r t. ground arith)
        (λ n. refl),
    total_figure (λ t. t.gate_outstanding)
          (rupees_if (λ r. is_live r && is_gate r.pay_mode && not (is_arrived r.status)))
          (λ r t. ground arith) (λ n. refl)
        ∙ same_sum _ _ (λ r p. ground (arith, p)) rows planned,
    total_figure (λ t. t.online_paid) (rupees_if (λ r. is_live r && is_online r.pay_mode))
        (λ r t. ground arith) (λ n. refl),
  )

  -- The guests expected are those of every booking that is not cancelled, postponed ones included; those
  -- arrived are those of the bookings that arrived; and the bookings still confirmed, with their rupees,
  -- are no-shows once the day has passed and never before.
  pub reconciliation_totals-guests :
      let t = reconciliation_totals rows passed in
      (t.guests_expected ≡ sum_of (guests_if is_live) rows)
      × (t.guests_arrived ≡ sum_of (guests_if (λ r. is_arrived r.status)) rows)
      × (t.no_shows ≡ sum_of (one_if (λ r. passed && is_confirmed r.status)) rows)
      × (t.no_show_amount ≡ sum_of (rupees_if (λ r. passed && is_confirmed r.status)) rows)
  unfolding add_row add_no_show add_gate add_guests
  reconciliation_totals-guests = (
    total_figure (λ t. t.guests_expected) (guests_if is_live) (λ r t. ground arith) (λ n. refl),
    total_figure (λ t. t.guests_arrived) (guests_if (λ r. is_arrived r.status))
        (λ r t. ground arith) (λ n. refl),
    total_figure (λ t. t.no_shows) (one_if (λ r. passed && is_confirmed r.status))
        (λ r t. ground arith) (λ n. refl),
    total_figure (λ t. t.no_show_amount) (rupees_if (λ r. passed && is_confirmed r.status))
        (λ r t. ground arith) (λ n. refl),
  )
