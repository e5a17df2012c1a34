-- ===== src/Payments/Sound.antt =====
-- payments/payments.service.ts: what holds of the payment tables between transactions.
use valle_web_backend.Prelude.{
  ℕ, ◌-◌, ◌≤◌, ◌≡◌, ap, sym, ◌∙◌, String, Option, none, some, List, [], ◌∷◌, true, if◌then◌else◌,
  str_eq, sum_of, All, arith, Bool-cases, inl, inr, eq_iff, ◌⊎◌,
}
use valle_web_backend.Prelude.Rows.{row, IsKeyed}
use valle_web_backend.Booking.{Booking}
use valle_web_backend.Payments.{PaymentStatus, Payment, AuditRow, Money}
use valle_web_backend.Payments.Service.{booking_row, is_paid}
use valle_web_backend.Payments.Refunds.{last_paid, later_of}

-- Nothing is refunded before the money came, never more than came, and all of it where the payment
-- reads refunded.
abbrev pub IsPayment : Payment → Type 0
IsPayment p = elim p.status [
  | PaymentStatus.paid ↦ p.refunded_amount ≤ p.amount
  | PaymentStatus.refunded ↦ p.refunded_amount ≡ p.amount
  | _ ↦ p.refunded_amount ≡ 0
]

-- What a payment brought in and was not given back.
abbrev pub net : Payment → ℕ
net p = elim p.status [
  | PaymentStatus.paid ↦ p.amount - p.refunded_amount
  | PaymentStatus.refunded ↦ p.amount - p.refunded_amount
  | _ ↦ 0
]

abbrev pub net_for : String → Payment → ℕ
net_for id p = if str_eq p.booking_id id then net p else 0

abbrev pub net_of : String → List Payment → ℕ
net_of id ps = sum_of (net_for id) ps

pub record IsSound (m : Money) : Type 0 where
  pub booking_ids : IsKeyed (λ (b : Booking). b.id) m.bookings
  pub payment_ids : IsKeyed (λ (p : Payment). p.id) m.payments
  pub payments : All IsPayment m.payments
  pub covered :
      (id : String) (b : Booking) → booking_row m id ≡ some b → net_of id m.payments ≤ b.paid_amount
  pub known : All (λ (r : AuditRow). (b : Booking) × (booking_row m r.booking_id ≡ some b)) m.trail

-- One of the payments is no more than all of the booking's.
pub net-le :
    (ps : List Payment) (p : Payment)
    → row (λ (q : Payment). q.id) ps p.id ≡ some p
    → net p ≤ net_of p.booking_id ps
unfolding row
net-le [] p h = cc
net-le (q ∷ ps) p h = elim (Bool-cases (str_eq q.id p.id)) [
  | inl this ↦
      let same : q ≡ p = ground arith in
      rw same ((ground (arith, eq_iff p.booking_id p.booking_id)))
  | inr other ↦ omega (arith, net-le ps p (ground arith))
]

later_of-cases :
    (p : Payment) (o : Option Payment) (q : Payment)
    → later_of p o ≡ some q
    → (p ≡ q) ⊎ (o ≡ some q)
later_of-cases p none q h = ground arith
later_of-cases p (some r) q h = ground arith

last_paid-cons :
    (id : String) (q p : Payment) (ps : List Payment)
    → last_paid id (q ∷ ps) ≡ some p
    → ((q ≡ p) × (q.booking_id ≡ id) × (is_paid q.status ≡ true)) ⊎ (last_paid id ps ≡ some p)
unfolding last_paid
last_paid-cons id q p ps h = elim (Bool-cases (str_eq q.booking_id id)) [
  | inr other ↦ inr (ground arith)
  | inl mine ↦ elim (Bool-cases (is_paid q.status)) [
    | inr unpaid ↦ inr (ground arith)
    | inl live ↦ elim (later_of-cases q (last_paid id ps) p (ground arith)) [
      | inl same ↦ inl (same, ground (arith, eq_iff q.booking_id id), live)
      | inr rest ↦ inr rest
    ]
  ]
]

pub last_paid_lem :
    (id : String) (ps : List Payment) (p : Payment)
    → IsKeyed (λ (q : Payment). q.id) ps
    → last_paid id ps ≡ some p
    → (row (λ (q : Payment). q.id) ps p.id ≡ some p)
      × (p.booking_id ≡ id)
      × (is_paid p.status ≡ true)
unfolding row last_paid
last_paid_lem id [] p t h = cc
last_paid_lem id (q ∷ ps) p (fresh, t) h = elim (last_paid-cons id q p ps h) [
  | inl (same, mine, live) ↦ (
    ground (arith, eq_iff q.id p.id),
    ap (λ (x : Payment). x.booking_id) (sym same) ∙ mine,
    ap (λ (x : Payment). is_paid x.status) (sym same) ∙ live,
  )
  | inr rest ↦
      let (found, mine, live) = last_paid_lem id ps p t rest in
      (ground (arith, eq_iff q.id p.id), mine, live)
]
