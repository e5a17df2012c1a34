-- ===== src/Edits/Balanced.antt =====
-- staff/bookings/staff-bookings.service.ts: the figures of every booking after edits.
use mathlib.Core.Path.{subst}
use valle_web_backend.Prelude.{
  ℕ, ◌+◌, ◌≤◌, ◌≡◌, refl, sym, ap, ◌∙◌, String, Option, none, some, List, [], ◌∷◌, true, false, not,
  filter, sum_of, sum_of-append, if◌then◌else◌, str_eq, eq_iff, arith, Bool-cases, Option-cases,
  inl, inr,
}
use valle_web_backend.Prelude.Http.{ok, returned}
use valle_web_backend.Prelude.Rows.{row, save, IsKeyed, key-row, row-save, IsKeyed-save}
use valle_web_backend.Day.{Day}
use valle_web_backend.Booking.{Booking, BookingLine}
use valle_web_backend.Pricing.Types.{PricedLine, PricedBooking}
use valle_web_backend.Pricing.Compute.{compute_booking}
use valle_web_backend.Pricing.Adjust.{adjustment_amount}
use valle_web_backend.Pricing.Sums.{compute_booking-sums}
use valle_web_backend.Pricing.Discounts.{adjustment_amount-le-total}
use valle_web_backend.Coupons.{Coupon}
use valle_web_backend.Intake.{records_from, line_records}
use valle_web_backend.Patch.{BookingPatch}
use valle_web_backend.Edits.{Desk, Catalogue}
use valle_web_backend.Edits.Fitting.{of_booking}
use valle_web_backend.Edits.Money.{
  with_offer, without_code, apply_code, with_manual, with_total, apply_adjustment, reprice_input,
  with_figures, rewrite_lines, reprice,
}
use valle_web_backend.Edits.Update.{booking_id, put_booking}

-- The rupees on the lines of a booking.
abbrev pub lines_total : String → List BookingLine → ℕ
lines_total id lines = sum_of (λ (l : BookingLine). if of_booking id l then l.amount else 0) lines

-- The figures add up, and are those of the lines.
abbrev pub IsBalanced : List BookingLine → Booking → Type 0
IsBalanced lines b =
    (b.total + b.adjustment_amount + b.discount ≡ b.subtotal)
    × (lines_total b.id lines ≡ b.subtotal)

abbrev pub AreBalanced : Desk → Type 0
AreBalanced d =
    IsKeyed booking_id d.places.bookings
    × ((id : String) (b : Booking)
        → row booking_id d.places.bookings id ≡ some b
        → IsBalanced d.places.lines b)

pub records-total :
    (id : String) (i : ℕ) (lines : List PricedLine)
    → lines_total id (records_from id i lines) ≡ sum_of (λ (l : PricedLine). l.amount) lines
records-total id i [] = refl
records-total id i (l ∷ lines) = ground (arith, eq_iff id id, records-total id (i + 1) lines)

pub records-total_other :
    (id other : String) (i : ℕ) (lines : List PricedLine)
    → str_eq id other ≡ false
    → lines_total other (records_from id i lines) ≡ 0
records-total_other id other i [] h = refl
records-total_other id other i (l ∷ lines) h =
    ground (arith, records-total_other id other (i + 1) lines h)

kept-total_own :
    (id : String) (lines : List BookingLine)
    → lines_total id (filter (λ l. not (of_booking id l)) lines) ≡ 0
kept-total_own id [] = refl
kept-total_own id (l ∷ lines) = ground (arith, kept-total_own id lines)

kept-total_other :
    (id other : String) (lines : List BookingLine)
    → str_eq id other ≡ false
    → lines_total other (filter (λ l. not (of_booking id l)) lines) ≡ lines_total other lines
kept-total_other id other [] h = refl
kept-total_other id other (l ∷ lines) h = ground (
  arith,
  eq_iff l.booking_id id,
  eq_iff l.booking_id other,
  eq_iff id other,
  kept-total_other id other lines h,
)

-- The rewritten lines of a booking are the priced ones, and those of the others stay.
rewrite_lines-own :
    (id : String) (priced : PricedBooking) (lines : List BookingLine)
    → lines_total id (rewrite_lines id priced lines)
      ≡ sum_of (λ (l : PricedLine). l.amount) priced.lines
unfolding rewrite_lines line_records
rewrite_lines-own id priced lines = omega (
  arith,
  sum_of-append (λ (l : BookingLine). if of_booking id l then l.amount else 0)
      (filter (λ l. not (of_booking id l)) lines) (records_from id 0 priced.lines),
  kept-total_own id lines,
  records-total id 0 priced.lines,
)

rewrite_lines-other :
    (id other : String) (priced : PricedBooking) (lines : List BookingLine)
    → str_eq id other ≡ false
    → lines_total other (rewrite_lines id priced lines) ≡ lines_total other lines
unfolding rewrite_lines line_records
rewrite_lines-other id other priced lines h = omega (
  arith,
  sum_of-append (λ (l : BookingLine). if of_booking other l then l.amount else 0)
      (filter (λ l. not (of_booking id l)) lines) (records_from id 0 priced.lines),
  kept-total_other id other lines h,
  records-total_other id other 0 priced.lines h,
)

-- The code leaves the key and the figures that the lines make.
abbrev SameFigures : Booking → Booking → Type 0
SameFigures b b' = (b'.id ≡ b.id) × (b'.subtotal ≡ b.subtotal) × (b'.discount ≡ b.discount)

apply_code-same :
    (today : Day) (code : Option String) (b b' : Booking) (coupons left : List Coupon)
    → apply_code today code b coupons ≡ ok (b', left)
    → SameFigures b b'
unfolding apply_code with_offer without_code
apply_code-same today none b b' coupons left h = ground arith
apply_code-same today (some code) b b' coupons left h = ground arith

apply_adjustment-IsBalanced :
    (today : Day) (b b' : Booking) (patch : BookingPatch) (priced : PricedBooking)
    (coupons left : List Coupon)
    → ((b'' : Booking)
        → adjustment_amount b''.adjustment_kind b''.adjustment_value priced ≤ priced.total)
    → apply_adjustment today b patch priced coupons ≡ ok (b', left)
    → SameFigures b b' × (b'.total + b'.adjustment_amount ≡ priced.total)
unfolding apply_adjustment with_manual with_total
apply_adjustment-IsBalanced today b b' patch priced coupons left held h =
    let ((b1, cs), c, h1) = returned (apply_code today patch.coupon_code b coupons) _ h in
    let same = apply_code-same today patch.coupon_code b b1 coupons cs c in
    let wrote : with_total priced (with_manual patch b1) ≡ b' = cc h1 in
    let enough = held (with_manual patch b1) in
    let field = λ (f : Booking → ℕ). ap f (sym wrote) in
    (
      (
        ap (λ (x : Booking). x.id) (sym wrote) ∙ same.0,
        field (λ x. x.subtotal) ∙ same.1,
        field (λ x. x.discount) ∙ same.2,
      ),
      omega (arith, enough, field (λ x. x.total), field (λ x. x.adjustment_amount)),
    )

pub reprice-IsBalanced :
    (cat : Catalogue) (today : Day) (b b' : Booking) (patch : BookingPatch) (d d' : Desk)
    → reprice cat today b patch d ≡ ok (b', d')
    → (b'.id ≡ b.id)
      × IsBalanced d'.places.lines b'
      × (d'.places.bookings ≡ d.places.bookings)
      × ((other : String)
          → str_eq b.id other ≡ false
          → lines_total other d'.places.lines ≡ lines_total other d.places.lines)
unfolding reprice with_figures
reprice-IsBalanced cat today b b' patch d d' h =
    let input = reprice_input b patch d.places.lines in
    let (priced, p, h1) =
      returned (compute_booking cat.experiences cat.settings input cat.price_rows cat.products) _
        h in
    let (_, whole, printed, _) =
      compute_booking-sums cat.experiences cat.settings input cat.price_rows cat.products priced
        p in
    let ((b1, cs), a, h2) =
      returned (apply_adjustment today (with_figures priced b) patch priced d.coupons) _ h1 in
    let held = λ (x : Booking).
      (adjustment_amount-le-total cat.experiences cat.settings input cat.price_rows cat.products
        x.adjustment_kind x.adjustment_value priced p).0 in
    let ((same_id, sub, disc), paid) =
      apply_adjustment-IsBalanced today (with_figures priced b) b1 patch priced d.coupons cs held
        a in
    let is_b : b1 ≡ b' = cc h2 in
    let is_d : record d {
      places = record d.places { lines = rewrite_lines b.id priced d.places.lines };
      coupons = cs;
    }
        ≡ d' =
      cc h2 in
    let lines' = ap (λ (x : Desk). x.places.lines) (sym is_d) in
    let of_b = λ (f : Booking → ℕ). ap f (sym is_b) in
    let id' = ap (λ (x : Booking). x.id) (sym is_b) ∙ same_id in
    (
      id',
      (
        omega (
          arith,
          whole,
          paid,
          sub,
          disc,
          of_b (λ x. x.total),
          of_b (λ x. x.adjustment_amount),
          of_b (λ x. x.discount),
          of_b (λ x. x.subtotal),
        ),
        (λ i. lines_total (id' i) (lines' i))
            ∙ rewrite_lines-own b.id priced d.places.lines
            ∙ printed
            ∙ sym (of_b (λ x. x.subtotal) ∙ sub),
      ),
      ap (λ (x : Desk). x.places.bookings) (sym is_d),
      λ other ne.
          ap (lines_total other) lines' ∙ rewrite_lines-other b.id other priced d.places.lines ne,
    )

saved_own :
    (b' x : Booking) (rows : List Booking) (id : String)
    → str_eq b'.id id ≡ true
    → row booking_id (save booking_id b' rows) id ≡ some x
    → b' ≡ x
saved_own b' x rows id this h = elim (Option-cases (row booking_id rows id)) [
  | inl gone ↦ absurd (ground (arith, row-save booking_id b' rows id))
  | inr (old, there) ↦ ground (arith, row-save booking_id b' rows id)
]

saved_other :
    (b' x : Booking) (rows : List Booking) (id : String)
    → str_eq b'.id id ≡ false
    → row booking_id (save booking_id b' rows) id ≡ some x
    → row booking_id rows id ≡ some x
saved_other b' x rows id other h = ground (arith, row-save booking_id b' rows id)

pub put-AreBalanced :
    (d d' : Desk) (b b' : Booking)
    → AreBalanced d
    → d'.places.bookings ≡ d.places.bookings
    → b'.id ≡ b.id
    → IsBalanced d'.places.lines b'
    → ((other : String)
        → str_eq b.id other ≡ false
        → lines_total other d'.places.lines ≡ lines_total other d.places.lines)
    → AreBalanced (put_booking b' d')
unfolding put_booking
put-AreBalanced d d' b b' (keyed, all) same same_id fine others = (
  IsKeyed-save booking_id b' d'.places.bookings (subst (IsKeyed booking_id) (sym same) keyed),
  λ id x h. elim (Bool-cases (str_eq b'.id id)) [
    | inl this ↦
        let is_x : b' ≡ x = saved_own b' x d'.places.bookings id this h in
        subst (IsBalanced d'.places.lines) is_x fine
    | inr other ↦
        let there : row booking_id d.places.bookings id ≡ some x =
          ap (λ rows. row booking_id rows id) (sym same)
          ∙ saved_other b' x d'.places.bookings id other h in
        let (sums, lines) = all id x there in
        let key = key-row booking_id d.places.bookings id x there in
        (
          sums,
          others x.id (ap (λ k. str_eq k x.id) (sym same_id) ∙ ap (str_eq b'.id) key ∙ other)
              ∙ lines,
        )
  ],
)
