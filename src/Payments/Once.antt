-- ===== src/Payments/Once.antt =====
-- payments/payments.service.ts: an event is applied once.
use mathlib.Core.Path.{subst}
use valle_web_backend.Prelude.{
  ℕ, ◌≡◌, refl, ap, sym, ◌∙◌, String, none, some, ◌∷◌, Bool, false, str_eq, arith, Bool-cases, inl,
  inr, eq_iff,
}
use valle_web_backend.Prelude.Http.{ok, Result-cases}
use valle_web_backend.Prelude.Rows.{row-save_same}
use valle_web_backend.Booking.{Time, Booking}
use valle_web_backend.Payments.{WebhookEvent, PaymentProvider, Payment, Money}
use valle_web_backend.Payments.Service.{
  PaymentsService, payment_row, is_pending, new_payment, checkout_request, checkout_due,
  open_checkout, start_checkout,
}
use valle_web_backend.Payments.Settle.{with_outcome, lock_payment, settle}
use valle_web_backend.Payments.Refunds.{with_refund}
use valle_web_backend.Payments.Steps.{Step, Reach, checkout, settled, refunded, cashed, here, next}
use valle_web_backend.Payments.Sound.{IsSound, last_paid_lem}
use valle_web_backend.Payments.Settled.{
  settle-IsSound, settle-ok, lock_payment-row, apply_outcome-ok,
}
use valle_web_backend.Payments.Desk.{refund_booking-Refunded, record_payment-ok}
use valle_web_backend.Payments.Open.{Reach-IsSound}
use valle_web_backend.Payments.Done.{
  some_inj, IsSettled, IsSettled-save, IsSettled-save_new, IsSettled-insert, outcome-settled,
  refund-settled,
}

open_checkout-IsSettled :
    (s : PaymentsService) (id k : String) (now : Time) (b : Booking) (p : PaymentProvider) (due : ℕ)
    (m : Money)
    → str_eq k id ≡ false
    → IsSettled id m
    → IsSettled id (open_checkout s k now b p due m).0
unfolding open_checkout new_payment
open_checkout-IsSettled s id k now b p due m other t =
    let payment = new_payment p b k now due in
    let opened = IsSettled-insert id m payment t other in
    elim (Result-cases (p.create_checkout (checkout_request s p b k due))) [
      | inr (e, failed) ↦ rw (open_checkout, failed) opened
      | inl (session, done) ↦
          rw (open_checkout, done)
            (IsSettled-save_new id (record m { payments = payment ∷ m.payments })
              (record payment { provider_ref = session.provider_ref }) opened other)
    ]

start_checkout-IsSettled :
    (s : PaymentsService) (id k : String) (now : Time) (b : Booking) (m : Money)
    → payment_row m k ≡ none
    → IsSettled id m
    → IsSettled id (start_checkout s k now b m).0
unfolding start_checkout
start_checkout-IsSettled s id k now b m fresh t =
    let other : str_eq k id ≡ false = elim (Bool-cases (str_eq k id)) [
      | inr other ↦ other
      | inl this ↦
          let same : k ≡ id = ground (arith, eq_iff k id) in
          let gone : payment_row m id ≡ none = ap (payment_row m) (sym same) ∙ fresh in
          cc (sym gone ∙ t.found)
    ] in
    elim (Result-cases (checkout_due s b)) [
      | inr (e, refused) ↦ rw (start_checkout, refused) t
      | inl ((p, due), ready) ↦
          rw (start_checkout, ready) (open_checkout-IsSettled s id k now b p due m other t)
    ]

settle-IsSettled :
    (provider : String) (id : String) (now : Time) (e : WebhookEvent) (m m' : Money)
    (applied : Bool)
    → settle provider now e m ≡ ok (applied, m')
    → IsSettled id m
    → IsSettled id m'
settle-IsSettled provider id now e m m' applied h t =
    let (p, found, what) = settle-ok provider now e m applied m' h in
    elim what [
      | inl (_, _, same) ↦ subst (IsSettled id) same t
      | inr (waits, done) ↦
          let kept = IsSettled-save id m (with_outcome e now p) t (outcome-settled e now p) in
          let (_, how) = apply_outcome-ok provider now e m p applied m' done in
          elim how [
            | inl (_, (b, _, same)) ↦
                subst (IsSettled id) same
                  (record { payment = kept.payment; found = kept.found; done = kept.done })
            | inr (_, same) ↦ subst (IsSettled id) same kept
          ]
    ]

Step-IsSettled :
    (s : PaymentsService) (id : String) {m m' : Money}
    → Step s m m'
    → IsSound m
    → IsSettled id m
    → IsSettled id m'
unfolding with_refund
Step-IsSettled s id (checkout k now b fresh) sound t =
    start_checkout-IsSettled s id k now b _ fresh t
Step-IsSettled s id {m} {m'} (settled provider now e {applied} h) sound t =
    settle-IsSettled provider id now e m m' applied h t
Step-IsSettled s id {m} {m'} (refunded ref amount reason staff h) sound t =
    let (b, locked, r) = refund_booking-Refunded s ref amount reason staff m m' h in
    let (_, _, live) = last_paid_lem b.id m.payments r.payment sound.payment_ids r.found in
    let kept =
      IsSettled-save id m (with_refund amount r.payment) t (refund-settled amount r.payment live) in
    subst (IsSettled id) r.tables
      (record { payment = kept.payment; found = kept.found; done = kept.done })
Step-IsSettled s id {m} {m'} (cashed ref amount method receipt now staff h) sound t =
    let (b, _, _, same) = record_payment-ok ref amount method receipt now staff m m' h in
    subst (IsSettled id) same (record { payment = t.payment; found = t.found; done = t.done })

Reach-IsSettled :
    (s : PaymentsService) (id : String) {m m' : Money}
    → IsSound m
    → Reach s m m'
    → IsSettled id m
    → IsSettled id m'
Reach-IsSettled s id sound here t = t
Reach-IsSettled s id {m} sound (next {t = u} r step) t =
    Step-IsSettled s id step (Reach-IsSound s m u sound r) (Reach-IsSettled s id sound r t)

settle-closed :
    (provider : String) (now : Time) (e : WebhookEvent) (m : Money) (p : Payment)
    → lock_payment provider e m ≡ some p
    → is_pending p.status ≡ false
    → settle provider now e m ≡ ok (false, m)
unfolding settle
settle-closed provider now e m p about closed = rw about (ground arith)

-- The payment that an event is about has its outcome afterwards.
lock_payment-IsSettled :
    (provider : String) (now : Time) (e : WebhookEvent) (m m' : Money) (applied : Bool)
    (p : Payment)
    → IsSound m
    → lock_payment provider e m ≡ some p
    → settle provider now e m ≡ ok (applied, m')
    → IsSettled p.id m'
unfolding with_outcome
lock_payment-IsSettled provider now e m m' applied p sound about h =
    let (q, found, what) = settle-ok provider now e m applied m' h in
    let same : q ≡ p = some_inj (sym found ∙ about) in
    let at_id = lock_payment-row provider now e m q sound found in
    subst (λ (x : Payment). IsSettled x.id m') same
      (elim what [
        | inl (closed, _, kept) ↦
            subst (IsSettled q.id) kept (record { payment = q; found = at_id; done = closed })
        | inr (waits, done) ↦
            let q' = with_outcome e now q in
            let there = row-save_same (λ (x : Payment). x.id) q' q m.payments q.id at_id refl in
            let over = outcome-settled e now q in
            let (_, how) = apply_outcome-ok provider now e m q applied m' done in
            elim how [
              | inl (_, (b, _, kept)) ↦
                  subst (IsSettled q.id) kept (record { payment = q'; found = there; done = over })
              | inr (_, kept) ↦
                  subst (IsSettled q.id) kept (record { payment = q'; found = there; done = over })
            ]
      ])

-- Once an event about a payment was settled, whatever calls follow, an event about the same payment,
-- from any provider, by key or by reference, changes nothing and answers that it was not applied.
pub settle-once :
    (s : PaymentsService) (provider : String) (now : Time) (e : WebhookEvent) (m m' t : Money)
    (applied : Bool)
    → IsSound m
    → settle provider now e m ≡ ok (applied, m')
    → Reach s m' t
    → (provider' : String) (now' : Time) (e' : WebhookEvent) (p q : Payment)
    → lock_payment provider e m ≡ some p
    → lock_payment provider' e' t ≡ some q
    → q.id ≡ p.id
    → settle provider' now' e' t ≡ ok (false, t)
settle-once s provider now e m m' t applied sound h later provider' now' e' p q about about' same =
    let sound' = Reach-IsSound s m' t (settle-IsSound provider now e m applied m' sound h) later in
    let first = lock_payment-IsSettled provider now e m m' applied p sound about h in
    let still =
      Reach-IsSettled s p.id (settle-IsSound provider now e m applied m' sound h) later first in
    let at_q = lock_payment-row provider' now' e' t q sound' about' in
    let row_is : still.payment ≡ q =
      some_inj (sym still.found ∙ ap (payment_row t) (sym same) ∙ at_q) in
    let closed : is_pending q.status ≡ false =
      ap (λ (x : Payment). is_pending x.status) (sym row_is) ∙ still.done in
    settle-closed provider' now' e' t q about' closed
