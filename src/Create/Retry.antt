-- ===== src/Create/Retry.antt =====
-- bookings/bookings.service.ts (create): a request that is sent again with its key.
use mathlib.Core.Option
use mathlib.Core.Path.{subst}
use valle_web_backend.Prelude.{
  ℕ, ◌==◌, Bool-cases, ◌+◌, ◌≡◌, All, refl, sym, ap, ◌∙◌, String, Option, none, some, List, [], ◌∷◌,
  ◌++◌, true, inl, inr, map, eq_iff, arith,
}
use valle_web_backend.Prelude.Text.{is_filled}
use valle_web_backend.Prelude.Http.{ok, ◌>>=◌, returned, eq_of_ok}
use valle_web_backend.Day.{Day}
use valle_web_backend.Booking.{Time, Booking, BookingLine}
use valle_web_backend.Pricing.Types.{PricedLine}
use valle_web_backend.Capacity.{Places}
use valle_web_backend.Capacity.Reserve.{delete_hold}
use valle_web_backend.Coupons.{Coupon}
use valle_web_backend.Pricing.Compute.{compute_booking}
use valle_web_backend.Create.Party.{check_party}
use valle_web_backend.Intake.{validate_request, line_records, records_from}
use valle_web_backend.Edits.{Desk, Catalogue}
use valle_web_backend.Edits.Fitting.{lines_of}
use valle_web_backend.Payments.Service.{Checkout}
use valle_web_backend.Create.{
  TicketLinks, BookingRequest, LineInfo, BookingsService, BookingResponse,
}
use valle_web_backend.Create.Attempts.{AttemptOutcome, booking_row-id, attempt-cases}
use valle_web_backend.Create.Write.{
  PreparedBooking, pricing_input, adjustment_for, ref_max_tries, printed, printed_row, booking_row,
  answer_for, response_for, deposit_of, open_checkout_or_send_ticket, booking_response,
  find_by_idempotency_key, inserted, attempt, prepare, create_booking,
}

lines_of-records_from :
    (id : String) (i : ℕ) (lines : List PricedLine) (rest : List BookingLine)
    → lines_of id rest ≡ []
    → map printed_row (lines_of id (records_from id i lines ++ rest)) ≡ map printed lines
unfolding lines_of
lines_of-records_from id i [] rest none_yet = ap (map printed_row) none_yet
lines_of-records_from id i (l ∷ lines) rest none_yet =
    ground (arith, lines_of-records_from id (i + 1) lines rest none_yet, eq_iff id id)

pub lines-delete_hold : (hold : Option String) (p : Places) → (delete_hold hold p).lines ≡ p.lines
lines-delete_hold none p = refl
lines-delete_hold (some id) p = refl

find_by_idempotency_key-first :
    (key : String) (b : Booking) (p : PreparedBooking) (coupons : List Coupon) (d : Desk)
    → is_filled key ≡ true
    → b.idempotency_key ≡ some key
    → find_by_idempotency_key (some key) (inserted b p coupons d) ≡ some b
unfolding find_by_idempotency_key
find_by_idempotency_key-first key b p coupons d filled has = ground (arith, eq_iff key key)

-- An answer without its checkout, and with the bank details of another time.
abbrev pub told_again : String → BookingResponse → BookingResponse
told_again bank answer = record answer {
  checkout = none;
  deposit = Option.map (λ (due : ℕ × String). (due.0, bank)) answer.deposit;
}

deposit_again :
    (b : Booking) (old bank : String)
    → deposit_of b bank ≡ Option.map (λ (due : ℕ × String). (due.0, bank)) (deposit_of b old)
deposit_again b old bank = elim (Bool-cases (b.deposit_amount == 0)) [
  | inl zero ↦ rw zero refl
  | inr more ↦ rw more refl
]

-- What an answer with a key promises: the booking is found by it, and told again by any service with the
-- same tickets.
unfoldable IsKept : Option TicketLinks → String → BookingResponse × Desk → Type 0
IsKept tickets key (answer, d) =
    (b : Booking) × (find_by_idempotency_key (some key) d ≡ some b)
    × ((later : BookingsService)
        → later.tickets ≡ tickets
        → response_for later b d ≡ told_again later.bank_details_again answer)

retold :
    (b : Booking) (lines : List (String × ℕ)) (tickets : Option TicketLinks)
    (checkout : Option Checkout) (old bank : String)
    → booking_response b lines tickets none bank
      ≡ told_again bank (booking_response b lines tickets checkout old)
retold b lines tickets checkout old bank =
    ap (λ x. record (booking_response b lines tickets none bank) { deposit = x })
      (deposit_again b old bank)

response_for-twin :
    (service later : BookingsService) (b : Booking) (d : Desk)
    → later.tickets ≡ service.tickets
    → response_for later b d ≡ told_again later.bank_details_again (response_for service b d)
unfolding response_for
response_for-twin service later b d same =
    let lines = map printed_row (lines_of b.id d.places.lines) in
    let bank = later.bank_details_again in
    ap (λ t. booking_response b lines t none bank) same
    ∙ retold b lines service.tickets none service.bank_details_again bank

response_for-inserted :
    (service later : BookingsService) (b : Booking) (p : PreparedBooking) (coupons : List Coupon)
    (d : Desk)
    → lines_of b.id d.places.lines ≡ []
    → later.tickets ≡ service.tickets
    → response_for later b (inserted b p coupons d)
      ≡ told_again later.bank_details_again (answer_for service p b)
unfolding response_for answer_for line_records
response_for-inserted service later b p coupons d none_yet same =
    let kept = delete_hold p.request.hold_id d.places in
    let absent = ap (lines_of b.id) (lines-delete_hold p.request.hold_id d.places) ∙ none_yet in
    let bank = later.bank_details_again in
    let lines = lines_of-records_from b.id 0 p.priced.lines kept.lines absent in
    ap (λ ls. booking_response b ls later.tickets none bank) lines
    ∙ ap (λ t. booking_response b (map printed p.priced.lines) t none bank) same
    ∙ retold b (map printed p.priced.lines) service.tickets
        (open_checkout_or_send_ticket service p.request b) service.bank_details bank

abbrev pub AreFresh : Desk → List (String × String) → Type 0
AreFresh d draws = All (λ (x : String × String). lines_of x.0 d.places.lines ≡ []) draws

AttemptOutcome-IsKept :
    (service : BookingsService) (p : PreparedBooking) (d : Desk) (key : String)
    (answer : BookingResponse × Desk)
    → is_filled key ≡ true
    → p.request.form.idempotency_key ≡ some key
    → AttemptOutcome service p (λ id. lines_of id d.places.lines ≡ []) d answer
    → IsKept service.tickets key answer
unfolding IsKept
AttemptOutcome-IsKept service p d key answer filled has (inl (b, found, told)) =
    subst (IsKept service.tickets key) told (
      b,
      ap (λ k. find_by_idempotency_key k d) (sym has) ∙ found,
      λ later same. response_for-twin service later b d same,
    )
AttemptOutcome-IsKept service p d key answer filled has
      (inr (id, ref_code, coupons, none_yet, told)) =
    let b = booking_row service id ref_code p in
    let (same_id, same_key, _) = booking_row-id service id ref_code p in
    subst (IsKept service.tickets key) told (
      b,
      find_by_idempotency_key-first key b p coupons d filled (same_key ∙ has),
      λ later same.
          response_for-inserted service later b p coupons d
            (ap (λ x. lines_of x d.places.lines) same_id ∙ none_yet) same,
    )

pub prepare-request :
    (cat : Catalogue) (info : String → Option LineInfo) (today : Day) (r : BookingRequest)
    (d : Desk) (p : PreparedBooking)
    → prepare cat info today r d ≡ ok p
    → p.request ≡ r
unfolding prepare
prepare-request cat info today r d p h =
    let (contact, valid, h1) = returned (validate_request r.form today) _ h in
    let (u, fits, h2) = returned (check_party _ _ info) _ h1 in
    let (priced, runs, h3) =
      returned
        (compute_booking cat.experiences cat.settings (pricing_input r contact) cat.price_rows
          cat.products)
        _ h2 in
    let (adjustment, offered, h4) =
      returned (adjustment_for d.coupons today r.coupon_code priced) _ h3 in
    ap (λ (x : PreparedBooking). x.request) (sym (eq_of_ok _ _ h4))

-- A request with a key that is answered, and whose key no booking had before, may be sent again at any
-- later time, whatever else it holds and whatever catalogue, settings, gateway and references it meets:
-- where it finds the tables as the answer left them, and the tickets' addresses are the same, it is
-- answered as the first time but for two things, and writes nothing. There is no checkout in the answer,
-- and the bank details of a deposit are those that the settings hold by then. The keys that the database
-- draws for a booking have no lines before.
pub create_booking-retry :
    (cat : Catalogue) (info : String → Option LineInfo) (service : BookingsService) (today : Day)
    (now : Time) (draws : List (String × String)) (r : BookingRequest) (before d : Desk)
    (key : String) (answer : BookingResponse) (after : Desk)
    → is_filled key ≡ true
    → r.form.idempotency_key ≡ some key
    → find_by_idempotency_key (some key) before ≡ none
    → AreFresh d draws
    → create_booking cat info service today now draws r before d ≡ ok (answer, after)
    → (cat' : Catalogue) (info' : String → Option LineInfo) (service' : BookingsService)
      (today' : Day) (now' : Time) (draws' : List (String × String)) (again : BookingRequest)
      (d' : Desk)
    → again.form.idempotency_key ≡ some key
    → service'.tickets ≡ service.tickets
    → create_booking cat' info' service' today' now' draws' again after d'
      ≡ ok (told_again service'.bank_details_again answer, d')
unfolding create_booking IsKept
create_booking-retry cat info service today now draws r before d key answer after filled has new
      fresh h cat' info' service' today' now' draws' again d' has' links =
    let nothing = ap (λ k. find_by_idempotency_key k before) has ∙ new in
    let next = λ (p : PreparedBooking). attempt cat service now p ref_max_tries draws d in
    let call = prepare cat info today r before >>= next in
    let h0 : call ≡ ok (answer, after) =
      ap (λ o. elim o [ some done ↦ ok (response_for service done before, d) | none ↦ call ])
        (sym nothing)
      ∙ h in
    let (p, prepared, h1) = returned (prepare cat info today r before) next h0 in
    let same =
      ap (λ (x : BookingRequest). x.form.idempotency_key)
        (prepare-request cat info today r before p prepared) in
    let (b, found, told) =
      AttemptOutcome-IsKept service p d key (answer, after) filled (same ∙ has)
        (attempt-cases service p (λ id. lines_of id d.places.lines ≡ []) d cat now ref_max_tries
          draws (answer, after) fresh h1) in
    let twin = ap (λ k. find_by_idempotency_key k after) has' ∙ found in
    let call' = prepare cat' info' today' again after >>= λ p.
    attempt cat' service' now' p ref_max_tries draws' d' in
    ap (λ o. elim o [ some done ↦ ok (response_for service' done after, d') | none ↦ call' ]) twin
    ∙ ap (λ a. ok (a, d')) (told service' links)
