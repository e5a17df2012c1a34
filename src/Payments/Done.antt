-- ===== src/Payments/Done.antt =====
-- payments/payments.service.ts: a payment that has its outcome, and rows saved
-- beside it.
use valle_web_backend.Prelude.{
  ℕ, ◌≡◌, String, some, ◌∷◌, true, false, str_eq, arith, Bool-cases, inl, inr, eq_iff,
}
use valle_web_backend.Prelude.Rows.{row, row-save, row-save_same}
use valle_web_backend.Booking.{Time}
use valle_web_backend.Payments.{WebhookEvent, Payment, Money}
use valle_web_backend.Payments.Service.{payment_row, save_payment, is_pending, is_paid}
use valle_web_backend.Payments.Settle.{with_outcome}
use valle_web_backend.Payments.Refunds.{with_refund}

pub some_inj : {p q : Payment} → some p ≡ some q → p ≡ q
some_inj h = cc h

-- The payment has its outcome.
pub record IsSettled (id : String) (m : Money) : Type 0 where
  pub payment : Payment
  pub found : payment_row m id ≡ some payment
  pub done : is_pending payment.status ≡ false

-- Another payment's row, or this one's with an outcome, may be written.
pub IsSettled-save :
    (id : String) (m : Money) (p : Payment)
    → IsSettled id m
    → is_pending p.status ≡ false
    → IsSettled id (save_payment p m)
IsSettled-save id m p s done = elim (Bool-cases (str_eq p.id id)) [
  | inl this ↦ record {
    payment = p;
    found =
        row-save_same (λ (x : Payment). x.id) p s.payment m.payments id s.found
          (ground (arith, eq_iff p.id id));
    done = done;
  }
  | inr other ↦ record {
    payment = s.payment;
    found = ground (arith, row-save (λ (x : Payment). x.id) p m.payments id, s.found);
    done = s.done;
  }
]

pub outcome-settled :
    (e : WebhookEvent) (now : Time) (p : Payment) → is_pending (with_outcome e now p).status ≡ false
unfolding with_outcome
outcome-settled e now p = ground arith

pub refund-settled :
    (amount : ℕ) (p : Payment)
    → is_paid p.status ≡ true
    → is_pending (with_refund amount p).status ≡ false
unfolding with_refund
refund-settled amount p live = ground arith

pub IsSettled-save_new :
    (id : String) (m : Money) (p : Payment)
    → IsSettled id m
    → str_eq p.id id ≡ false
    → IsSettled id (save_payment p m)
IsSettled-save_new id m p s other = record {
  payment = s.payment;
  found = ground (arith, row-save (λ (x : Payment). x.id) p m.payments id, s.found);
  done = s.done;
}

pub IsSettled-insert :
    (id : String) (m : Money) (p : Payment)
    → IsSettled id m
    → str_eq p.id id ≡ false
    → IsSettled id (record m { payments = p ∷ m.payments })
IsSettled-insert id m p s other = record {
  payment = s.payment;
  found = unfold row in rw other s.found;
  done = s.done;
}
