-- ===== src/Payments/Swept.antt =====
-- payments/payments.service.ts (releaseAbandoned): what a sweep of abandoned checkouts leaves.
use valle_web_backend.Prelude.{
  Option-cases, suc, if◌then◌else◌, ◌≡◌, refl, sym, ap, ◌∙◌, String, Option, none, some, List, [],
  ◌∷◌, ◌++◌, Bool, true, false, length, str_eq, eq_iff, All, arith, Bool-cases, inl, inr,
}
use valle_web_backend.Prelude.Text.{is_filled}
use valle_web_backend.Prelude.Http.{Result, ok}
use valle_web_backend.Prelude.Rows.{
  key-row, instead, row, row-save, row-save_same, row-head, IsKeyed,
}
use valle_web_backend.Booking.{Time, Booking}
use valle_web_backend.Payments.{PaymentStatus, Payment, Money}
use valle_web_backend.Payments.Service.{
  PaymentsService, booking_row, save_booking, payment_row, save_payment,
}
use valle_web_backend.Payments.Settle.{settle, lock_payment, apply_outcome, with_outcome}
use valle_web_backend.Payments.Listed.{payment_id, IsListed, row-later, IsStale, stale-IsStale}
use valle_web_backend.Payments.Sweep.{
  stale, abandoned, is_due, send_ticket, send_if_due, Released, release, release_abandoned,
}

-- A payment whose checkout was abandoned.
abbrev pub given_up : Time → Payment → Payment
given_up now p = record p {
  status = PaymentStatus.cancelled;
  settled_at = some now;
  failure_reason = "abandoned";
}

-- A booking's row but for the time of its ticket.
abbrev pub but_ticket : Option Booking → Option Booking
but_ticket none = none
but_ticket (some b) = some (record b { ticket_sent_at = none })

abbrev pub given_up_or : Time → Option Payment → Option Payment → Option Payment
given_up_or now none old = old
given_up_or now (some p) old = some (given_up now p)

-- The row of a key after a sweep of the payments `ps`: that of the swept payment, else the one before.
abbrev pub row_after : Time → List Payment → Money → String → Option Payment
row_after now ps m id = given_up_or now (row payment_id ps id) (payment_row m id)

-- What a sweep of payments does: all are given up, and of the rest only the times of tickets change.
pub record IsSwept (s : PaymentsService) (now : Time) (ps : List Payment) (m : Money) (m' : Money)
    : Type 0 where
  pub bookings : (id : String) → but_ticket (booking_row m' id) ≡ but_ticket (booking_row m id)
  pub trail : m'.trail ≡ m.trail
  pub rows : (id : String) → payment_row m' id ≡ row_after now ps m id

given_up_lem : (now : Time) (p : Payment) → with_outcome (abandoned p) now p ≡ given_up now p
unfolding with_outcome abandoned
given_up_lem now p = elim (Bool-cases (is_filled p.provider_ref)) [
  | inl filled ↦ rw filled refl
  | inr blank ↦ rw blank refl
]

settle-IsListed :
    (s : PaymentsService) (provider : String) (now : Time) (m : Money) (p : Payment)
    → IsListed s now m p
    → settle provider now (abandoned p) m ≡ ok (true, save_payment (given_up now p) m)
unfolding settle lock_payment apply_outcome abandoned
settle-IsListed s provider now m p l =
    let outcome : Bool → Result (Bool × Money) =
      λ w. elim w [ false ↦ ok (false, m) | true ↦ apply_outcome (abandoned p) now p m ] in
    rw (l.filled, l.there)
      (ap outcome l.pending ∙ ap (λ q. ok (true, save_payment q m)) (given_up_lem now p))

-- The other payments of the sweep are as they were listed.
IsListed-rest :
    (s : PaymentsService) (now : Time) (m : Money) (p : Payment) (ps : List Payment)
    → row payment_id ps p.id ≡ none
    → All (IsListed s now m) ps
    → All (IsListed s now (save_payment (given_up now p) m)) ps
unfolding row
IsListed-rest s now m p [] absent t = tt
IsListed-rest s now m p (q ∷ ps) absent (l, t) = elim (Bool-cases (str_eq q.id p.id)) [
  | inl this ↦ cc (rw this at absent)
  | inr other ↦ (
    record {
      filled = l.filled;
      pending = l.pending;
      overdue = l.overdue;
      there = ground (
        arith,
        row-save payment_id (given_up now p) m.payments q.id,
        l.there,
        eq_iff p.id q.id,
        eq_iff q.id p.id,
      );
    },
    IsListed-rest s now m p ps (rw other at absent) t,
  )
]

row_after-next :
    (now : Time) (m : Money) (p : Payment) (ps : List Payment) (id : String)
    → payment_row m p.id ≡ some p
    → row payment_id ps p.id ≡ none
    → row_after now ps (save_payment (given_up now p) m) id ≡ row_after now (p ∷ ps) m id
row_after-next now m p ps id there absent =
    let m' = save_payment (given_up now p) m in
    elim (Bool-cases (str_eq p.id id)) [
      | inl this ↦
          let same : p.id ≡ id = (eq_iff p.id id).0 this in
          let none_left : row payment_id ps id ≡ none =
            ap (row payment_id ps) (sym same) ∙ absent in
          let saved : payment_row m' id ≡ some (given_up now p) =
            row-save_same payment_id (given_up now p) p m.payments id
              (ap (payment_row m) (sym same) ∙ there) same in
          let first : row payment_id (p ∷ ps) id ≡ some p =
            ap (row payment_id (p ∷ ps)) (sym same) ∙ row-head payment_id p ps in
          ap (λ r. given_up_or now r (payment_row m' id)) none_left
          ∙ saved
          ∙ sym (ap (λ r. given_up_or now r (payment_row m id)) first)
      | inr other ↦
          let kept : payment_row m' id ≡ payment_row m id =
            ground (arith, row-save payment_id (given_up now p) m.payments id, other) in
          let later : row payment_id (p ∷ ps) id ≡ row payment_id ps id = row-later p ps id other in
          ap (given_up_or now (row payment_id ps id)) kept
          ∙ sym (ap (λ r. given_up_or now r (payment_row m id)) later)
    ]

abbrev booking_id : Booking → String
booking_id b = b.id

sent-row :
    (now : Time) (m : Money) (b : Booking) (k id : String)
    → b.id ≡ k
    → booking_row m k ≡ some b
    → but_ticket (booking_row (save_booking (record b { ticket_sent_at = some now }) m) id)
      ≡ but_ticket (booking_row m id)
sent-row now m b k id key there =
    let b' = record b { ticket_sent_at = some now } in
    let saved = row-save booking_id b' m.bookings id in
    elim (Bool-cases (str_eq b.id id)) [
      | inl this ↦
          let here : booking_row m id ≡ some b =
            ap (booking_row m) (sym ((eq_iff b.id id).0 this) ∙ key) ∙ there in
          let new : booking_row (save_booking b' m) id ≡ some b' =
            row-save_same booking_id b' b m.bookings id here ((eq_iff b.id id).0 this) in
          ap but_ticket new ∙ sym (ap but_ticket here)
      | inr other ↦
          let kept : booking_row (save_booking b' m) id ≡ booking_row m id =
            saved ∙ ap (λ t. if t then instead b' (booking_row m id) else booking_row m id) other in
          ap but_ticket kept
    ]

-- What the ticket leaves as it was.
send_if_due-keeps :
    (s : PaymentsService) (now : Time) (k : String) (m : Money)
    → let m' = (send_if_due s now (booking_row m k) m).0 in
      (m'.payments ≡ m.payments)
      × (m'.trail ≡ m.trail)
      × ((id : String) → but_ticket (booking_row m' id) ≡ but_ticket (booking_row m id))
unfolding send_if_due send_ticket
send_if_due-keeps s now k m = elim (Option-cases (booking_row m k)) [
  | inl nobody ↦ rw nobody (refl, refl, λ id. refl)
  | inr (b, there) ↦ elim (Bool-cases (is_due s b)) [
    | inr settled ↦ rw (there, settled) (refl, refl, λ id. refl)
    | inl due ↦ elim (Bool-cases (s.reaches b)) [
      | inr lost ↦ rw (there, due, lost) (refl, refl, λ id. refl)
      | inl reached ↦
          let key = key-row booking_id m.bookings k b there in
          rw (there, due, reached) (refl, refl, λ id. sent-row now m b k id key there)
    ]
  ]
]

-- Another table of bookings: the payments of the sweep are as they were listed.
moved-IsListed :
    (s : PaymentsService) (now : Time) (m m' : Money) (ps : List Payment)
    → m'.payments ≡ m.payments
    → All (IsListed s now m) ps
    → All (IsListed s now m') ps
moved-IsListed s now m m' [] same t = tt
moved-IsListed s now m m' (p ∷ ps) same (l, t) = (
  record {
    filled = l.filled;
    pending = l.pending;
    overdue = l.overdue;
    there = ap (λ rows. row payment_id rows p.id) same ∙ l.there;
  },
  moved-IsListed s now m m' ps same t,
)

-- A sweep of listed payments, to its end.
release-IsListed :
    (s : PaymentsService) (provider : String) (now : Time) (ps : List Payment) (m : Money)
    → IsKeyed payment_id ps
    → All (IsListed s now m) ps
    → let (m', r) = release s provider now ps m in
      ((done : Released) × (r ≡ ok done) × (done.count ≡ length ps)) × IsSwept s now ps m m'
unfolding release row
release-IsListed s provider now [] m keyed listed = (
  (record { count = 0; tickets = [] }, refl, refl),
  record { bookings = λ id. refl; trail = refl; rows = λ id. refl },
)
release-IsListed s provider now (p ∷ ps) m (absent, keyed) (l, listed) =
    let m₁ = save_payment (given_up now p) m in
    let sending = send_if_due s now (booking_row m₁ p.booking_id) m₁ in
    let m₂ = sending.0 in
    let (same, trail, bookings) = send_if_due-keeps s now p.booking_id m₁ in
    let settles = settle-IsListed s provider now m p l in
    let ((done, told, counted), swept) =
      release-IsListed s provider now ps m₂ keyed
        (moved-IsListed s now m₁ m₂ ps same (IsListed-rest s now m p ps absent listed)) in
    rw (release, settles)
      (
        (
          record { count = suc done.count; tickets = sending.1 ++ done.tickets },
          rw told refl,
          ap suc counted,
        ),
        record {
          bookings = λ id. swept.bookings id ∙ bookings id;
          trail = swept.trail ∙ trail;
          rows = λ id.
              swept.rows id
              ∙ ap (λ rows. given_up_or now (row payment_id ps id) (row payment_id rows id)) same
              ∙ row_after-next now m p ps id l.there absent;
        },
      )

-- A sweep comes to its end. It takes payments that are pending and whose grace period is over, fifty at
-- most, and all of them where they are fewer; each of these is given up (cancelled at that time, as
-- abandoned) and counted once. The row of every other payment and the trail stay as they were, and so does
-- every booking but for the time of its ticket. The keys of payments are distinct and not empty.
pub release_abandoned_lem :
    (s : PaymentsService) (provider : String) (now : Time) (m : Money)
    → IsKeyed payment_id m.payments
    → All (λ (p : Payment). is_filled p.id ≡ true) m.payments
    → let ps = stale s now m in
      let (m', r) = release_abandoned s provider now m in
      ((done : Released) × (r ≡ ok done) × (done.count ≡ length ps))
      × IsStale s now m ps
      × IsSwept s now ps m m'
unfolding release_abandoned
release_abandoned_lem s provider now m keyed filled =
    let (distinct, found) = stale-IsStale s now m keyed filled in
    let (told, swept) = release-IsListed s provider now (stale s now m) m distinct found.listed in
    (told, found, swept)
