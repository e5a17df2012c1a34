-- ===== src/Edits/Codes.antt =====
-- staff/bookings/staff-bookings.service.ts: the codes that an edit uses.
use valle_web_backend.Prelude.{
  ◌≡◌, sym, ap, ◌∙◌, String, Option, none, some, List, [], ◌∷◌, Bool, true, false, not,
  if◌then◌else◌, str_eq, arith,
}
use valle_web_backend.Prelude.Text.{is_filled}
use valle_web_backend.Prelude.Http.{Result, ok, ◌>>=◌, returned, eq_of_ok, throw_if}
use valle_web_backend.Day.{Day}
use valle_web_backend.Booking.{Time, Booking, BookingLine}
use valle_web_backend.Pricing.Compute.{compute_booking}
use valle_web_backend.Coupons.{Coupon, CouponOffer, resolve, consume, find_code}
use valle_web_backend.Coupons.Table.{IsTable, bump, on_row}
use valle_web_backend.Coupons.Offer.{resolve-consume}
use valle_web_backend.Payments.{Actor}
use valle_web_backend.Patch.{BookingPatch, FieldChange, touches_money, audited_changes}
use valle_web_backend.Edits.{
  Desk, Catalogue, UpdateBooking, ArrivalCheck, normalize_patch, has_fields,
}
use valle_web_backend.Edits.Fitting.{fit_lines, fit_own_lines, ensure_room}
use valle_web_backend.Edits.Money.{
  apply_code, with_offer, apply_adjustment, reprice_input, with_figures, reprice,
}
use valle_web_backend.Edits.Update.{
  find_ref, put_booking, repriced, write_edit, write_changes, edit_booking, update, said_of,
  is_unreachable,
}

fit_lines-code :
    (lines : List BookingLine) (b : Booking) (patch : BookingPatch)
    → (fit_lines lines b patch).0.coupon_code ≡ patch.coupon_code
unfolding fit_lines fit_own_lines
fit_lines-code lines b patch = ground arith

used_branch :
    (t : Bool) (x y : Result (Booking × List Coupon)) {z : Result (Booking × List Coupon)}
    → t ≡ true
    → (if t then x else y) ≡ z
    → x ≡ z
used_branch true x y e h = h
used_branch false x y e h = cc e

-- A code that was sent was looked up, and used.
apply_code-used :
    (today : Day) (code : String) (sent : Option String) (b b' : Booking)
    (coupons left : List Coupon)
    → sent ≡ some code
    → is_filled code ≡ true
    → apply_code today sent b coupons ≡ ok (b', left)
    → (o : CouponOffer) × (resolve coupons today code ≡ ok o) × (consume o.code coupons ≡ ok left)
unfolding apply_code
apply_code-used today code none b b' coupons left is_sent filled h = cc
apply_code-used today code (some c) b b' coupons left is_sent filled h =
    let same : c ≡ code = cc is_sent in
    let yes = ap is_filled same ∙ filled in
    let next = λ (offer : CouponOffer).
      consume offer.code coupons >>= λ left. ok (with_offer offer b, left) in
    let called : (resolve coupons today c >>= next) ≡ ok (b', left) =
      used_branch (is_filled c) _ _ yes h in
    let (o, r, h1) = returned (resolve coupons today c) next called in
    let (cs, used, h2) = returned (consume o.code coupons) _ h1 in
    (
      o,
      ap (resolve coupons today) (sym same) ∙ r,
      used ∙ ap ok (ap (λ (p : Booking × List Coupon). p.1) (eq_of_ok _ _ h2)),
    )

reprice-used :
    (cat : Catalogue) (today : Day) (code : String) (b b' : Booking) (patch : BookingPatch)
    (d d' : Desk)
    → patch.coupon_code ≡ some code
    → is_filled code ≡ true
    → reprice cat today b patch d ≡ ok (b', d')
    → (o : CouponOffer) × (resolve d.coupons today code ≡ ok o)
      × (consume o.code d.coupons ≡ ok d'.coupons)
unfolding reprice apply_adjustment
reprice-used cat today code b b' patch d d' sent filled h =
    let input = reprice_input b patch d.places.lines in
    let (priced, p, h1) =
      returned (compute_booking cat.experiences cat.settings input cat.price_rows cat.products) _
        h in
    let ((b1, left), a, h2) =
      returned (apply_adjustment today (with_figures priced b) patch priced d.coupons) _ h1 in
    let ((b2, cs), c, h3) =
      returned (apply_code today patch.coupon_code (with_figures priced b) d.coupons) _ a in
    let (o, r, used) =
      apply_code-used today code patch.coupon_code (with_figures priced b) b2 d.coupons cs sent
        filled c in
    let stored = ap (λ (p : Booking × List Coupon). p.1) (eq_of_ok _ _ h3) in
    let kept = ap (λ (p : Booking × Desk). p.1.coupons) (eq_of_ok _ _ h2) in
    (o, r, used ∙ ap ok (stored ∙ kept))

module _ (cat : Catalogue) (today : Day) (now : Time) where
  repriced-used :
      (code : String) (b b' : Booking) (patch : BookingPatch) (changes : List FieldChange)
      (d d' : Desk)
      → touches_money changes ≡ true
      → patch.coupon_code ≡ some code
      → is_filled code ≡ true
      → repriced cat today now b patch changes d ≡ ok (b', d')
      → (o : CouponOffer) × (resolve d.coupons today code ≡ ok o)
        × (consume o.code d.coupons ≡ ok d'.coupons)
  unfolding repriced
  repriced-used code b b' patch changes d d' money sent filled h =
      reprice-used cat today code b b' patch d d' sent filled
        (ap (λ t. if t then reprice cat today b patch d else ok (b, d)) (sym money) ∙ h)

  write_changes-used :
      (check : Option ArrivalCheck) (dto : UpdateBooking) (by : Actor) (b : Booking)
      (patch : BookingPatch) (note code : String) (changes : List FieldChange) (d d' : Desk)
      → touches_money changes ≡ true
      → patch.coupon_code ≡ some code
      → is_filled code ≡ true
      → write_changes cat today now check dto by b patch note changes d ≡ ok d'
      → (o : CouponOffer) × (resolve d.coupons today code ≡ ok o)
        × (consume o.code d.coupons ≡ ok d'.coupons)
  unfolding write_changes write_edit touches_money put_booking
  write_changes-used check dto by b patch note code [] d d' money sent filled h = cc money
  write_changes-used check dto by b patch note code (c ∷ more) d d' money sent filled h =
      let (said, s, h1) = returned (said_of check dto patch (c ∷ more)) _ h in
      let ((b1, d1), r, h2) = returned (repriced cat today now b patch (c ∷ more) d) _ h1 in
      let (done, room, h3) = returned (ensure_room cat now b1 patch (c ∷ more) d1.places) _ h2 in
      let (o, looked_up, used) =
        repriced-used code b b1 patch (c ∷ more) d d1 money sent filled r in
      (o, looked_up, used ∙ ap ok (ap (λ (x : Desk). x.coupons) (eq_of_ok _ _ h3)))

  -- An edit that goes through, sends a code and touches the money uses that code once more, whether or
  -- not the booking has it already: the row of the code that the lookup offers has one use more, every
  -- other row is as it was.
  pub update-uses_code :
      (ref code : String) (dto : UpdateBooking) (stale : Bool) (check : Option ArrivalCheck)
      (by : Actor) (b : Booking) (d d' : Desk)
      → IsTable d.coupons
      → update cat today now ref dto stale check by d ≡ ok d'
      → find_ref ref d ≡ ok b
      → (normalize_patch dto.sent).coupon_code ≡ some code
      → is_filled code ≡ true
      → touches_money (audited_changes b (fit_lines d.places.lines b (normalize_patch dto.sent)).0)
        ≡ true
      → (o : CouponOffer) × (resolve d.coupons today code ≡ ok o)
        × ((j : String)
            → find_code d'.coupons j ≡ (
                if str_eq o.code j
                then on_row bump (find_code d.coupons j)
                else find_code d.coupons j))
  unfolding update edit_booking
  update-uses_code ref code dto stale check by b d d' table h found sent filled money =
      let patch = normalize_patch dto.sent in
      let (u, some_field, h1) = returned (throw_if (not (has_fields patch)) _) _ h in
      let (b1, found1, h2) = returned (find_ref ref d) _ h1 in
      let (v, fresh, h3) = returned (throw_if stale _) _ h2 in
      let (w, reachable, h4) = returned (throw_if (is_unreachable b1 patch) _) _ h3 in
      let same : b ≡ b1 = eq_of_ok b b1 (sym found ∙ found1) in
      let (fitted, note) = fit_lines d.places.lines b1 patch in
      let money1 =
        ap (λ (x : Booking). touches_money (audited_changes x (fit_lines d.places.lines x patch).0))
          (sym same)
        ∙ money in
      let (o, looked_up, used) =
        write_changes-used check dto by b1 fitted note code (audited_changes b1 fitted) d d' money1
          (fit_lines-code d.places.lines b1 patch ∙ sent) filled h4 in
      let (t, used1, rows) = resolve-consume d.coupons today code o table looked_up in
      let left : t ≡ d'.coupons = eq_of_ok t d'.coupons (sym used1 ∙ used) in
      (o, looked_up, λ j. ap (λ cs. find_code cs j) (sym left) ∙ rows j)
