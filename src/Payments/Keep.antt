-- ===== src/Payments/Keep.antt =====
-- payments/payments.service.ts: a row saved into sound tables.
use valle_web_backend.Prelude.{
  ◌+◌, ◌≤◌, ◌≡◌, refl, String, some, str_eq, All-mono, arith, Bool-cases, inl, inr, eq_iff,
}
use valle_web_backend.Prelude.Rows.{row-save, row-save-some, IsKeyed-save, sum-save, All-save}
use valle_web_backend.Booking.{Booking}
use valle_web_backend.Payments.{Payment, AuditRow, Money}
use valle_web_backend.Payments.Service.{
  booking_row, save_booking, save_payment, write_audit, payment_row,
}
use valle_web_backend.Payments.Sound.{IsPayment, IsSound, net, net_for, net_of}

-- A booking whose paid amount still covers what came in online, with its row of the trail.
pub IsSound-save_booking :
    (m : Money) (b b' : Booking) (r : AuditRow)
    → IsSound m
    → booking_row m b'.id ≡ some b
    → r.booking_id ≡ b'.id
    → net_of b'.id m.payments ≤ b'.paid_amount
    → IsSound (write_audit r (save_booking b' m))
IsSound-save_booking m b b' r s found mine enough =
    let key = λ (x : Booking). x.id in
    let saved = row-save key b' m.bookings in
    record {
      booking_ids = IsKeyed-save key b' m.bookings s.booking_ids;
      payment_ids = s.payment_ids;
      payments = s.payments;
      covered = λ id c h. elim (Bool-cases (str_eq b'.id id)) [
        | inl this ↦ ground (arith, eq_iff b'.id id, saved id)
        | inr other ↦ s.covered id c (ground (arith, saved id))
      ];
      known = (
        (b', rw mine (ground (arith, saved b'.id, eq_iff b'.id b'.id))),
        All-mono _ _ (λ x (c, h). row-save-some key b' c m.bookings x.booking_id h) m.trail s.known,
      );
    }

pub net_of-save_payment :
    (m : Money) (p p' : Payment)
    → IsSound m
    → payment_row m p'.id ≡ some p
    → p'.booking_id ≡ p.booking_id
    → net_of p.booking_id (save_payment p' m).payments + net p
      ≡ net_of p.booking_id m.payments + net p'
net_of-save_payment m p p' s found mine =
    let before : net_for p.booking_id p ≡ net p =
      ground (arith, eq_iff p.booking_id p.booking_id) in
    let after : net_for p.booking_id p' ≡ net p' =
      ground (arith, eq_iff p'.booking_id p.booking_id) in
    omega (
      arith,
      before,
      after,
      sum-save (λ (x : Payment). x.id) (net_for p.booking_id) p' p m.payments s.payment_ids found,
    )

-- A payment of the same booking, which still covers what its payments brought in.
pub IsSound-save_payment :
    (m : Money) (p p' : Payment)
    → IsSound m
    → payment_row m p'.id ≡ some p
    → p'.booking_id ≡ p.booking_id
    → IsPayment p'
    → ((b : Booking)
        → booking_row m p.booking_id ≡ some b
        → net_of p.booking_id m.payments + net p' ≤ b.paid_amount + net p)
    → IsSound (save_payment p' m)
IsSound-save_payment m p p' s found mine good enough =
    let key = λ (x : Payment). x.id in
    let total = λ (id : String). sum-save key (net_for id) p' p m.payments s.payment_ids found in
    record {
      booking_ids = s.booking_ids;
      payment_ids = IsKeyed-save key p' m.payments s.payment_ids;
      payments = All-save key IsPayment p' m.payments good s.payments;
      covered = λ id c h. elim (Bool-cases (str_eq p.booking_id id)) [
        | inl this ↦
            let same : p.booking_id ≡ id = ground (arith, eq_iff p.booking_id id) in
            let before : net_for id p ≡ net p = rw this refl in
            let after : net_for id p' ≡ net p' = rw (mine, this) refl in
            let room : net_of id m.payments + net p' ≤ c.paid_amount + net p =
              rw (← same) (enough c (rw same h)) in
            omega (arith, total id, before, after, room)
        | inr other ↦
            let before : net_for id p ≡ 0 = rw other refl in
            let after : net_for id p' ≡ 0 = rw (mine, other) refl in
            omega (arith, total id, before, after, s.covered id c h)
      ];
      known = s.known;
    }
