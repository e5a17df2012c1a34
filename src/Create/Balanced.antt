-- ===== src/Create/Balanced.antt =====
-- bookings/bookings.service.ts (create): the figures of a new booking.
use mathlib.Core.Path.{subst}
use valle_web_backend.Prelude.{
  ◌+◌, ◌≤◌, ◌≡◌, refl, sym, ap, ◌∙◌, String, Option, none, some, List, [], ◌∷◌, false, ◌⊎◌, inl,
  inr, All, sum_of, sum_of-append, if◌then◌else◌, str_eq, arith, Bool-cases,
}
use valle_web_backend.Prelude.Text.{is_filled, or_empty}
use valle_web_backend.Prelude.Http.{ok, ◌>>=◌, returned, eq_of_ok}
use valle_web_backend.Prelude.Rows.{row, IsKeyed, key-row}
use valle_web_backend.Day.{Day}
use valle_web_backend.Booking.{Time, Booking, BookingLine}
use valle_web_backend.Pricing.Types.{PricedLine, PricingInput, PricedBooking}
use valle_web_backend.Pricing.Compute.{compute_booking}
use valle_web_backend.Pricing.Sums.{compute_booking-sums}
use valle_web_backend.Pricing.Discounts.{adjustment_amount-le-total}
use valle_web_backend.Coupons.{Coupon, resolve}
use valle_web_backend.Capacity.Reserve.{delete_hold}
use valle_web_backend.Intake.{
  BookingAdjustment, amount_of, validate_request, records_from, line_records, new_booking_record,
}
use valle_web_backend.Intake.Figures.{adjustment_of}
use valle_web_backend.Edits.{Desk, Catalogue}
use valle_web_backend.Edits.Fitting.{of_booking, lines_of}
use valle_web_backend.Edits.Update.{booking_id}
use valle_web_backend.Edits.Balanced.{
  lines_total, IsBalanced, AreBalanced, records-total, records-total_other,
}
use valle_web_backend.Create.{BookingRequest, LineInfo, BookingsService, BookingResponse}
use valle_web_backend.Create.Party.{check_party}
use valle_web_backend.Create.Attempts.{AttemptOutcome, booking_row-id, attempt-cases}
use valle_web_backend.Create.Retry.{lines-delete_hold}
use valle_web_backend.Create.Landed.{bookings-inserted}
use valle_web_backend.Create.Write.{
  PreparedBooking, ref_max_tries, pricing_input, adjustment_for, booking_row, inserted,
  find_by_idempotency_key, response_for, attempt, prepare, create_booking,
}

-- The figures that were worked out before the write.
abbrev IsPriced : PreparedBooking → Type 0
IsPriced p =
    (amount_of p.adjustment ≤ p.priced.total)
    × (p.priced.total + p.priced.discount ≡ p.priced.subtotal)
    × (sum_of (λ (l : PricedLine). l.amount) p.priced.lines ≡ p.priced.subtotal)

-- An adjustment takes off at most what the booking costs.
adjustment_for-le :
    (cat : Catalogue) (r : BookingRequest) (coupons : List Coupon) (today : Day)
    (input : PricingInput) (code : Option String) (priced : PricedBooking)
    (adjustment : Option BookingAdjustment)
    → compute_booking cat.experiences cat.settings input cat.price_rows cat.products ≡ ok priced
    → adjustment_for coupons today code priced ≡ ok adjustment
    → amount_of adjustment ≤ priced.total
unfolding adjustment_for adjustment_of
adjustment_for-le cat r coupons today input code priced none runs h = omega arith
adjustment_for-le cat r coupons today input code priced (some a) runs h =
    elim (Bool-cases (is_filled (or_empty code))) [
      | inl filled ↦
          let next = resolve coupons today (or_empty code) >>= λ offer.
          ok (some (adjustment_of offer priced)) in
          let h0 : next ≡ ok (some a) = ap (λ t. if t then next else ok none) (sym filled) ∙ h in
          let (offer, found, h1) = returned (resolve coupons today (or_empty code)) _ h0 in
          let same = ap amount_of (eq_of_ok _ _ h1) in
          omega (
            arith,
            same,
            (adjustment_amount-le-total cat.experiences cat.settings input cat.price_rows
                cat.products offer.kind offer.value priced runs).0,
          )
      | inr blank ↦ ground arith
    ]

prepare-IsPriced :
    (cat : Catalogue) (info : String → Option LineInfo) (today : Day) (r : BookingRequest)
    (d : Desk) (p : PreparedBooking)
    → prepare cat info today r d ≡ ok p
    → IsPriced p
unfolding prepare
prepare-IsPriced cat info today r d p h =
    let (contact, valid, h1) = returned (validate_request r.form today) _ h in
    let (u, fits, h2) = returned (check_party _ _ info) _ h1 in
    let input = pricing_input r contact in
    let (priced, runs, h3) =
      returned (compute_booking cat.experiences cat.settings input cat.price_rows cat.products) _
        h2 in
    let (adjustment, offered, h4) =
      returned (adjustment_for d.coupons today r.coupon_code priced) _ h3 in
    let (_, whole, printed, _) =
      compute_booking-sums cat.experiences cat.settings input cat.price_rows cat.products priced
        runs in
    subst IsPriced (eq_of_ok _ _ h4) (
      adjustment_for-le cat r d.coupons today input r.coupon_code priced adjustment runs offered,
      whole,
      printed,
    )

booking_row-IsBalanced :
    (service : BookingsService) (id ref_code : String) (p : PreparedBooking)
    (lines : List BookingLine)
    → IsPriced p
    → lines_total id lines ≡ p.priced.subtotal
    → IsBalanced lines (booking_row service id ref_code p)
unfolding booking_row new_booking_record
booking_row-IsBalanced service id ref_code p lines (held, whole, printed) total =
    ground (arith, held, whole, printed, total)

absent_lines :
    (id : String) (lines : List BookingLine) → lines_of id lines ≡ [] → lines_total id lines ≡ 0
unfolding lines_of
absent_lines id [] h = refl
absent_lines id (l ∷ lines) h = ground (arith, absent_lines id lines)

-- A key that no booking and no line has.
abbrev pub IsUnused : Desk → String → Type 0
IsUnused d id = (row booking_id d.places.bookings id ≡ none) × (lines_of id d.places.lines ≡ [])

-- A booking in front of the others.
row_added :
    (b x : Booking) (rows : List Booking) (id : String)
    → row booking_id (b ∷ rows) id ≡ some x
    → (b ≡ x) ⊎ ((row booking_id rows id ≡ some x) × (str_eq b.id id ≡ false))
unfolding row
row_added b x rows id h = elim (Bool-cases (str_eq b.id id)) [
  | inl this ↦ inl (ground arith)
  | inr other ↦ inr (ground arith, other)
]

added-AreBalanced :
    (d d' : Desk) (b : Booking)
    → AreBalanced d
    → row booking_id d.places.bookings b.id ≡ none
    → d'.places.bookings ≡ b ∷ d.places.bookings
    → IsBalanced d'.places.lines b
    → ((other : String)
        → str_eq b.id other ≡ false
        → lines_total other d'.places.lines ≡ lines_total other d.places.lines)
    → AreBalanced d'
added-AreBalanced d d' b (keyed, all) no_row added fine others = (
  subst (IsKeyed booking_id) (sym added) (no_row, keyed),
  λ id x h.
      elim (row_added b x d.places.bookings id
        (ap (λ rows. row booking_id rows id) (sym added) ∙ h)) [
          | inl same ↦ subst (IsBalanced d'.places.lines) same fine
          | inr (there, other) ↦
              let (sums, lines) = all id x there in
              let key = key-row booking_id d.places.bookings id x there in
              (sums, others x.id (ap (str_eq b.id) key ∙ other) ∙ lines)
        ],
)

module _ (b : Booking) (p : PreparedBooking) (coupons : List Coupon) (d : Desk) where
  inserted_total :
      (other : String)
      → lines_total other (inserted b p coupons d).places.lines
        ≡ lines_total other (records_from b.id 0 p.priced.lines) + lines_total other d.places.lines
  unfolding line_records
  inserted_total other = omega (
    arith,
    sum_of-append (λ (l : BookingLine). if of_booking other l then l.amount else 0)
        (records_from b.id 0 p.priced.lines) (delete_hold p.request.hold_id d.places).lines,
    ap (lines_total other) (lines-delete_hold p.request.hold_id d.places),
  )

module _ (service : BookingsService) (id ref_code : String) (p : PreparedBooking)
    (coupons : List Coupon) (d : Desk) where
  -- A prepared booking goes into a balanced table.
  inserted-AreBalanced :
      AreBalanced d
      → IsUnused d id
      → IsPriced p
      → AreBalanced (inserted (booking_row service id ref_code p) p coupons d)
  inserted-AreBalanced fine (no_row, no_line) (held, whole, printed) =
      let b = booking_row service id ref_code p in
      let d' = inserted b p coupons d in
      let (same_id, _, _) = booking_row-id service id ref_code p in
      let total = inserted_total b p coupons d in
      let own : lines_total id d'.places.lines ≡ p.priced.subtotal = omega (
        arith,
        total id,
        absent_lines id d.places.lines no_line,
        printed,
        ap (λ k. lines_total id (records_from k 0 p.priced.lines)) same_id,
        records-total id 0 p.priced.lines,
      ) in
      added-AreBalanced d d' b fine (ap (row booking_id d.places.bookings) same_id ∙ no_row)
        (bookings-inserted b p coupons d)
        (booking_row-IsBalanced service id ref_code p d'.places.lines (held, whole, printed) own)
        (λ other ne. omega (arith, total other, records-total_other b.id other 0 p.priced.lines ne))

AttemptOutcome-AreBalanced :
    (service : BookingsService) (p : PreparedBooking) (d : Desk) (answer : BookingResponse × Desk)
    → AreBalanced d
    → IsPriced p
    → AttemptOutcome service p (IsUnused d) d answer
    → AreBalanced answer.1
AttemptOutcome-AreBalanced service p d answer fine priced (inl (b, found, told)) =
    subst (λ (x : BookingResponse × Desk). AreBalanced x.1) told fine
AttemptOutcome-AreBalanced service p d answer fine priced
      (inr (id, ref_code, coupons, unused, told)) =
    subst (λ (x : BookingResponse × Desk). AreBalanced x.1) told
      (inserted-AreBalanced service id ref_code p coupons d fine unused priced)

pub create_booking-AreBalanced :
    (cat : Catalogue) (info : String → Option LineInfo) (service : BookingsService) (today : Day)
    (now : Time) (draws : List (String × String)) (r : BookingRequest) (before d : Desk)
    (answer : BookingResponse × Desk)
    → AreBalanced d
    → All (λ (x : String × String). IsUnused d x.0) draws
    → create_booking cat info service today now draws r before d ≡ ok answer
    → AreBalanced answer.1
unfolding create_booking
create_booking-AreBalanced cat info service today now draws r before d answer fine unused h =
    found-AreBalanced (find_by_idempotency_key r.form.idempotency_key before) h
  where
    found-AreBalanced :
        (done : Option Booking)
        → elim done [
          | some b ↦ ok (response_for service b before, d)
          | none ↦ prepare cat info today r before >>= λ p.
              attempt cat service now p ref_max_tries draws d
        ]
          ≡ ok answer
        → AreBalanced answer.1
    found-AreBalanced (some b) h =
        subst (λ (x : BookingResponse × Desk). AreBalanced x.1) (eq_of_ok _ _ h) fine
    found-AreBalanced none h =
        let (p, prepared, h1) = returned (prepare cat info today r before) _ h in
        AttemptOutcome-AreBalanced service p d answer fine
          (prepare-IsPriced cat info today r before p prepared)
          (attempt-cases service p (IsUnused d) d cat now ref_max_tries draws answer unused h1)
