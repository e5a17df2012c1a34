-- ===== src/Payments/Listed.antt =====
-- payments/payments.service.ts (releaseAbandoned): the payments that a sweep finds.
use valle_web_backend.Prelude.{
  ℕ, zero, suc, ◌+◌, length, ◌≤◌, ◌<◌, ◌↔◌, ◌≡◌, refl, sym, ap, ◌∙◌, String, none, some, List, [],
  ◌∷◌, Bool, true, false, ◌&&◌, ltb, filter, str_eq, eq_iff, All, arith, Bool-cases, inl, inr,
}
use valle_web_backend.Prelude.Text.{is_filled}
use valle_web_backend.Prelude.Rows.{row, row-head, IsKeyed}
use valle_web_backend.Booking.{Time}
use valle_web_backend.Payments.{Payment, Money}
use valle_web_backend.Payments.Service.{PaymentsService, payment_row, is_pending}
use valle_web_backend.Payments.Sweep.{take_first, stale}

abbrev pub payment_id : Payment → String
payment_id p = p.id

-- A payment as the sweep finds it: pending, overdue, with a key, and as its row.
pub record IsListed (s : PaymentsService) (now : Time) (m : Money) (p : Payment) : Type 0 where
  pub filled : is_filled p.id ≡ true
  pub pending : is_pending p.status ≡ true
  pub overdue : p.created_at + s.grace_ms < now
  pub there : payment_row m p.id ≡ some p

-- The payments that a sweep must take: overdue ones, fifty at most, and all where they are fewer.
pub record IsStale (s : PaymentsService) (now : Time) (m : Money) (ps : List Payment) : Type 0 where
  pub listed : All (IsListed s now m) ps
  pub few : length ps ≤ 50
  pub all :
      (id : String) (p : Payment)
      → length ps < 50
      → payment_row m id ≡ some p
      → is_pending p.status ≡ true
      → p.created_at + s.grace_ms < now
      → row payment_id ps id ≡ some p

pub row-later :
    (p : Payment) (ps : List Payment) (id : String)
    → str_eq p.id id ≡ false
    → row payment_id (p ∷ ps) id ≡ row payment_id ps id
unfolding row
row-later p ps id other = rw other refl

-- Pending, and its grace period is over.
abbrev waits : PaymentsService → Time → Payment → Bool
waits s now p = is_pending p.status && ltb (p.created_at + s.grace_ms) now

waits_iff :
    (s : PaymentsService) (now : Time) (p : Payment)
    → (waits s now p ≡ true) ↔ ((is_pending p.status ≡ true) × (p.created_at + s.grace_ms < now))
waits_iff s now p = ground arith

-- What the sweep looks for, in a table whose keys are distinct and filled.
filter-IsListed :
    (s : PaymentsService) (now : Time) (m : Money) (ps : List Payment)
    → All (λ (p : Payment). is_filled p.id ≡ true) ps
    → All (λ (p : Payment). payment_row m p.id ≡ some p) ps
    → All (IsListed s now m) (filter (waits s now) ps)
filter-IsListed s now m [] f t = tt
filter-IsListed s now m (p ∷ ps) (f, fs) (t, ts) =
    let rest = filter-IsListed s now m ps fs ts in
    elim (Bool-cases (waits s now p)) [
      | inl holds ↦
          let (pending, overdue) = (waits_iff s now p).0 holds in
          rw holds (record { filled = f; pending = pending; overdue = overdue; there = t }, rest)
      | inr fails ↦ rw fails rest
    ]

row-filter :
    (keep : Payment → Bool) (ps : List Payment) (id : String) (p : Payment)
    → row payment_id ps id ≡ some p
    → keep p ≡ true
    → row payment_id (filter keep ps) id ≡ some p
unfolding row
row-filter keep [] id p h kept = cc h
row-filter keep (q ∷ ps) id p h kept = ground (arith, row-filter keep ps id p)

length-take_first : (n : ℕ) (ps : List Payment) → length (take_first n ps) ≤ n
length-take_first zero ps = omega arith
length-take_first (suc n) [] = omega arith
length-take_first (suc n) (p ∷ ps) = omega (arith, length-take_first n ps)

take_first_all : (n : ℕ) (ps : List Payment) → length (take_first n ps) < n → take_first n ps ≡ ps
take_first_all zero ps h = ground (arith, h)
take_first_all (suc n) [] h = refl
take_first_all (suc n) (p ∷ ps) h = ap (λ r. p ∷ r) (take_first_all n ps (omega (arith, h)))

filter_absent :
    (waits : Payment → Bool) (ps : List Payment) (k : String)
    → row payment_id ps k ≡ none
    → row payment_id (filter waits ps) k ≡ none
unfolding row
filter_absent waits [] k h = refl
filter_absent waits (p ∷ ps) k h = ground (arith, filter_absent waits ps k)

filter-IsKeyed :
    (waits : Payment → Bool) (ps : List Payment)
    → IsKeyed payment_id ps
    → IsKeyed payment_id (filter waits ps)
filter-IsKeyed waits [] t = tt
filter-IsKeyed waits (p ∷ ps) (absent, t) = elim (Bool-cases (waits p)) [
  | inl holds ↦ rw holds (filter_absent waits ps p.id absent, filter-IsKeyed waits ps t)
  | inr fails ↦ rw fails (filter-IsKeyed waits ps t)
]

take_absent :
    (n : ℕ) (ps : List Payment) (k : String)
    → row payment_id ps k ≡ none
    → row payment_id (take_first n ps) k ≡ none
unfolding row
take_absent zero ps k h = refl
take_absent (suc n) [] k h = refl
take_absent (suc n) (p ∷ ps) k h = ground (arith, take_absent n ps k)

take-IsKeyed :
    (n : ℕ) (ps : List Payment) → IsKeyed payment_id ps → IsKeyed payment_id (take_first n ps)
take-IsKeyed zero ps t = tt
take-IsKeyed (suc n) [] t = tt
take-IsKeyed (suc n) (p ∷ ps) (absent, t) = (take_absent n ps p.id absent, take-IsKeyed n ps t)

take-All : (P : Payment → Type 0) (n : ℕ) (ps : List Payment) → All P ps → All P (take_first n ps)
take-All P zero ps t = tt
take-All P (suc n) [] t = tt
take-All P (suc n) (p ∷ ps) (l, t) = (l, take-All P n ps t)

-- In a keyed table every payment is its own row.
own_rows :
    (all ps : List Payment)
    → IsKeyed payment_id ps
    → ((q : Payment) → row payment_id ps q.id ≡ some q → row payment_id all q.id ≡ some q)
    → All (λ (p : Payment). row payment_id all p.id ≡ some p) ps
own_rows all [] t up = tt
own_rows all (p ∷ ps) (absent, t) up = (
  up p (row-head payment_id p ps),
  own_rows all ps t (λ q h. elim (Bool-cases (str_eq p.id q.id)) [
    | inl this ↦ cc (sym absent ∙ ap (row payment_id ps) ((eq_iff p.id q.id).0 this) ∙ h)
    | inr other ↦ up q (row-later p ps q.id other ∙ h)
  ]),
)

pub stale-IsStale :
    (s : PaymentsService) (now : Time) (m : Money)
    → IsKeyed payment_id m.payments
    → All (λ (p : Payment). is_filled p.id ≡ true) m.payments
    → IsKeyed payment_id (stale s now m) × IsStale s now m (stale s now m)
unfolding stale
stale-IsStale s now m keyed filled =
    let found = filter (waits s now) m.payments in
    (
      take-IsKeyed 50 found (filter-IsKeyed (waits s now) m.payments keyed),
      record {
        listed = take-All (IsListed s now m) 50 found (
            filter-IsListed s now m m.payments filled
              (own_rows m.payments m.payments keyed (λ q h. h)));
        few = length-take_first 50 found;
        all = λ id p fewer there pending overdue.
            ap (λ ps. row payment_id ps id) (take_first_all 50 found fewer)
            ∙ row-filter (waits s now) m.payments id p there
                ((waits_iff s now p).1 (pending, overdue));
      },
    )
