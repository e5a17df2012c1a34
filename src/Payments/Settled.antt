-- ===== src/Payments/Settled.antt =====
-- payments/payments.service.ts: an event settled once, and the sound tables that it leaves.
use mathlib.Core.Path.{subst}
use mathlib.Core.Path.{subst}
use valle_web_backend.Prelude.{
  ◌≤◌, ◌≡◌, refl, ap, sym, ◌∙◌, ◌⊎◌, String, some, Bool, true, false, str_eq, ◌&&◌, arith,
  Bool-cases, inl, inr,
}
use valle_web_backend.Prelude.Text.{is_filled, or_empty}
use valle_web_backend.Prelude.Http.{ok, not_found, or_throw, returned, or_throw-eq-ok}
use valle_web_backend.Prelude.Rows.{row-find, key-row, row-save_same, All-row}
use valle_web_backend.Booking.{Time, Booking}
use valle_web_backend.Payments.{Outcome, WebhookEvent, Payment, Money}
use valle_web_backend.Payments.Service.{
  booking_row, payment_row, save_booking, save_payment, write_audit, is_pending,
}
use valle_web_backend.Payments.Settle.{
  with_outcome, lock_payment, credited, credit_row, credit_booking, apply_outcome, settle,
}
use valle_web_backend.Payments.Sound.{IsPayment, IsSound, net}
use valle_web_backend.Payments.Keep.{IsSound-save_booking, IsSound-save_payment}

some_inj : {b c : Booking} → some b ≡ some c → b ≡ c
some_inj h = cc h

net-le-amount : (p : Payment) → net p ≤ p.amount
net-le-amount p = ground arith

module _ (provider : String) (now : Time) (e : WebhookEvent) (m : Money) where
  pub lock_payment-row :
      (p : Payment) → IsSound m → lock_payment provider e m ≡ some p → payment_row m p.id ≡ some p
  unfolding lock_payment
  lock_payment-row p s h = elim (Bool-cases (is_filled (or_empty e.payment_id))) [
    | inl by_id ↦
        let found : payment_row m (or_empty e.payment_id) ≡ some p = ground arith in
        ap (payment_row m)
          (key-row (λ (x : Payment). x.id) m.payments (or_empty e.payment_id) p found)
        ∙ found
    | inr by_ref ↦
        row-find (λ (x : Payment). x.id)
          (λ (x : Payment). str_eq x.provider_ref e.provider_ref && str_eq x.provider provider)
          m.payments p s.payment_ids (ground arith)
  ]

  -- What a successful call did.
  pub settle-ok :
      (applied : Bool) (m' : Money)
      → settle provider now e m ≡ ok (applied, m')
      → (p : Payment) × (lock_payment provider e m ≡ some p)
        × (((is_pending p.status ≡ false) × (applied ≡ false) × (m ≡ m'))
            ⊎ ((is_pending p.status ≡ true) × (apply_outcome e now p m ≡ ok (applied, m'))))
  unfolding settle
  settle-ok applied m' h =
      let (p, found, h') =
        returned (or_throw (lock_payment provider e m) (not_found "No such payment")) _ h in
      elim (Bool-cases (is_pending p.status)) [
        | inl waits ↦
            (p, or_throw-eq-ok (lock_payment provider e m) _ found, inr (waits, ground arith))
        | inr closed ↦ (
          p,
          or_throw-eq-ok (lock_payment provider e m) _ found,
          inl (closed, ground arith, ground arith),
        )
      ]

  -- The row that an outcome leaves.
  outcome-IsPayment :
      (p : Payment) → IsPayment p → is_pending p.status ≡ true → IsPayment (with_outcome e now p)
  unfolding with_outcome
  outcome-IsPayment p good waits = ground arith

  pub net-pending : (p : Payment) → is_pending p.status ≡ true → net p ≡ 0
  net-pending p waits = ground arith

  credit_booking-ok :
      (p : Payment) (m' : Money)
      → credit_booking p now m ≡ ok m'
      → (b : Booking) × (booking_row m p.booking_id ≡ some b)
        × (write_audit (credit_row p now b) (save_booking (credited p now b) m) ≡ m')
  unfolding credit_booking
  credit_booking-ok p m' h = ground arith

  -- What an applied outcome did: the payment's row, and for money its booking's.
  pub apply_outcome-ok :
      (p : Payment) (applied : Bool) (m' : Money)
      → apply_outcome e now p m ≡ ok (applied, m')
      → (applied ≡ true)
        × (((e.status ≡ Outcome.paid)
              × ((b : Booking) × (booking_row m p.booking_id ≡ some b)
                  × (write_audit (credit_row (with_outcome e now p) now b) (
                        save_booking
                          (credited (with_outcome e now p) now b)
                          (save_payment (with_outcome e now p) m))
                      ≡ m')))
            ⊎ ((net (with_outcome e now p) ≡ 0) × (save_payment (with_outcome e now p) m ≡ m')))
  unfolding apply_outcome credit_booking with_outcome
  apply_outcome-ok p applied m' h = ground arith

  module _ (p : Payment) (here : payment_row m p.id ≡ some p) (waits : is_pending p.status ≡ true)
      (s : IsSound m) where
    outcome_good : IsPayment (with_outcome e now p)
    outcome_good =
        outcome-IsPayment p
          (All-row (λ (x : Payment). x.id) IsPayment m.payments p.id p s.payments here) waits

    credited-IsSound :
        (b : Booking)
        → booking_row m p.booking_id ≡ some b
        → let q = with_outcome e now p in
          IsSound
            (write_audit (credit_row q now b) (save_booking (credited q now b) (save_payment q m)))
    unfolding with_outcome credited credit_row
    credited-IsSound b found =
        let q = with_outcome e now p in
        let b' = credited q now b in
        let mine : b.id ≡ p.booking_id =
          key-row (λ (x : Booking). x.id) m.bookings p.booking_id b found in
        let at_id : booking_row m b.id ≡ some b = ap (booking_row m) mine ∙ found in
        let paid_first =
          IsSound-save_booking m b b' (credit_row q now b) s at_id refl
            (omega (arith, s.covered b.id b at_id)) in
        IsSound-save_payment (write_audit (credit_row q now b) (save_booking b' m)) p q paid_first
          here refl outcome_good
          (λ c h.
            let now_there =
              row-save_same (λ (x : Booking). x.id) b' b m.bookings p.booking_id found mine in
            let same : b' ≡ c = some_inj (sym now_there ∙ h) in
            omega (
              arith,
              ap (λ (x : Booking). x.paid_amount) same,
              s.covered p.booking_id b found,
              net-le-amount q,
            ))

    applied-IsSound :
        (applied : Bool) (m' : Money) → apply_outcome e now p m ≡ ok (applied, m') → IsSound m'
    unfolding with_outcome
    applied-IsSound applied m' h =
        let (_, what) = apply_outcome-ok p applied m' h in
        elim what [
          | inl (_, (b, found, same)) ↦ subst IsSound same (credited-IsSound b found)
          | inr (nothing, same) ↦ subst IsSound same (
              IsSound-save_payment m p (with_outcome e now p) s here refl outcome_good
                (λ c h'. omega (arith, nothing, s.covered p.booking_id c h')))
        ]

  -- An event that is settled leaves sound tables.
  pub settle-IsSound :
      (applied : Bool) (m' : Money)
      → IsSound m
      → settle provider now e m ≡ ok (applied, m')
      → IsSound m'
  settle-IsSound applied m' s h =
      let (p, found, what) = settle-ok applied m' h in
      elim what [
        | inl (_, _, same) ↦ subst IsSound same s
        | inr (waits, done) ↦ applied-IsSound p (lock_payment-row p s found) waits s applied m' done
      ]
