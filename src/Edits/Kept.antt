-- ===== src/Edits/Kept.antt =====
-- staff/bookings/staff-bookings.service.ts: every edit keeps the figures of every booking in balance.
use mathlib.Core.Path.{subst}
use valle_web_backend.Prelude.{
  ◌≡◌, refl, sym, ap, ◌∙◌, String, Option, some, List, [], ◌∷◌, Bool, false, not, find, length, ltb,
  if◌then◌else◌, str_eq, Bool-cases, inl, inr,
}
use valle_web_backend.Prelude.Text.{trim, codes}
use valle_web_backend.Prelude.Http.{Result, ok, returned, or_throw-eq-ok, throw_if}
use valle_web_backend.Prelude.Rows.{row, row-find, IsKeyed}
use valle_web_backend.Day.{Day}
use valle_web_backend.Booking.{Time, Booking}
use valle_web_backend.Payments.{Actor}
use valle_web_backend.Payments.Service.{is_cancelled}
use valle_web_backend.Patch.{BookingPatch, FieldChange, apply_patch, touches_money, audited_changes}
use valle_web_backend.Edits.{
  Desk, Catalogue, UpdateBooking, ArrivalCheck, normalize_patch, has_fields,
}
use valle_web_backend.Edits.Fitting.{fit_lines, ensure_room}
use valle_web_backend.Edits.Money.{reprice}
use valle_web_backend.Edits.Update.{
  booking_id, find_ref, put_booking, repriced, write_edit, write_changes, edit_booking, update,
  postpone, postponed_booking, said_of, is_unreachable,
}
use valle_web_backend.Edits.Balanced.{
  lines_total, IsBalanced, AreBalanced, reprice-IsBalanced, put-AreBalanced,
}

pub find_ref-row :
    (ref : String) (d : Desk) (b : Booking)
    → IsKeyed booking_id d.places.bookings
    → find_ref ref d ≡ ok b
    → row booking_id d.places.bookings b.id ≡ some b
unfolding find_ref
find_ref-row ref d b keyed h =
    row-find booking_id (λ (x : Booking). str_eq x.ref_code ref) d.places.bookings b keyed
      (or_throw-eq-ok (find (λ (x : Booking). str_eq x.ref_code ref) d.places.bookings) _ h)

ok-AreBalanced :
    (d d' : Desk) → ◌≡◌ {A = Result Desk} (ok d) (ok d') → AreBalanced d → AreBalanced d'
ok-AreBalanced d d' e fine = subst AreBalanced {x = d} {y = d'} (cc) fine

module _ (cat : Catalogue) (today : Day) (now : Time) where
  repriced-IsBalanced :
      (b b' : Booking) (patch : BookingPatch) (changes : List FieldChange) (d d' : Desk)
      → IsBalanced d.places.lines b
      → repriced cat today now b patch changes d ≡ ok (b', d')
      → (b'.id ≡ b.id)
        × IsBalanced d'.places.lines b'
        × (d'.places.bookings ≡ d.places.bookings)
        × ((other : String)
            → str_eq b.id other ≡ false
            → lines_total other d'.places.lines ≡ lines_total other d.places.lines)
  unfolding repriced
  repriced-IsBalanced b b' patch changes d d' fine h = elim (Bool-cases (touches_money changes)) [
    | inl money ↦
        reprice-IsBalanced cat today b b' patch d d'
          (ap (λ t. if t then reprice cat today b patch d else ok (b, d)) (sym money) ∙ h)
    | inr free ↦
        let same : ok (b, d) ≡ ok (b', d') =
          ap (λ t. if t then reprice cat today b patch d else ok (b, d)) (sym free) ∙ h in
        let is_b : b ≡ b' = cc same in
        let is_d : d ≡ d' = cc same in
        (
          ap (λ (x : Booking). x.id) (sym is_b),
          subst (λ (x : Booking × Desk). IsBalanced x.1.places.lines x.0) (λ i. (is_b i, is_d i))
              fine,
          ap (λ (x : Desk). x.places.bookings) (sym is_d),
          λ other ne. ap (λ (x : Desk). lines_total other x.places.lines) (sym is_d),
        )
  ]

  write_edit-AreBalanced :
      (check : Option ArrivalCheck) (dto : UpdateBooking) (by : Actor) (b : Booking)
      (patch : BookingPatch) (note : String) (changes : List FieldChange) (d d' : Desk)
      → AreBalanced d
      → row booking_id d.places.bookings b.id ≡ some b
      → write_edit cat today now check dto by b patch note changes d ≡ ok d'
      → AreBalanced d'
  unfolding write_edit apply_patch put_booking
  write_edit-AreBalanced check dto by b patch note changes d d' fine there h =
      let (said, s, h1) = returned (said_of check dto patch changes) _ h in
      let ((b1, d1), r, h2) = returned (repriced cat today now b patch changes d) _ h1 in
      let (done, room, h3) = returned (ensure_room cat now b1 patch changes d1.places) _ h2 in
      let (same_id, balanced, same, others) =
        repriced-IsBalanced b b1 patch changes d d1 (fine.1 b.id b there) r in
      let put = put-AreBalanced d d1 b (apply_patch b1 patch) fine same same_id balanced others in
      ok-AreBalanced _ d' h3 put

  write_changes-AreBalanced :
      (check : Option ArrivalCheck) (dto : UpdateBooking) (by : Actor) (b : Booking)
      (patch : BookingPatch) (note : String) (changes : List FieldChange) (d d' : Desk)
      → AreBalanced d
      → row booking_id d.places.bookings b.id ≡ some b
      → write_changes cat today now check dto by b patch note changes d ≡ ok d'
      → AreBalanced d'
  unfolding write_changes
  write_changes-AreBalanced check dto by b patch note [] d d' fine there h =
      ok-AreBalanced d d' h fine
  write_changes-AreBalanced check dto by b patch note (c ∷ more) d d' fine there h =
      write_edit-AreBalanced check dto by b patch note (c ∷ more) d d' fine there h

  -- An edit that goes through leaves every booking in balance.
  pub update-AreBalanced :
      (ref : String) (dto : UpdateBooking) (stale : Bool) (check : Option ArrivalCheck) (by : Actor)
      (d d' : Desk)
      → AreBalanced d
      → update cat today now ref dto stale check by d ≡ ok d'
      → AreBalanced d'
  unfolding update edit_booking
  update-AreBalanced ref dto stale check by d d' fine h =
      let patch = normalize_patch dto.sent in
      let (u, some_field, h1) = returned (throw_if (not (has_fields patch)) _) _ h in
      let (b, found, h2) = returned (find_ref ref d) _ h1 in
      let (v, fresh, h3) = returned (throw_if stale _) _ h2 in
      let (w, reachable, h4) = returned (throw_if (is_unreachable b patch) _) _ h3 in
      let (fitted, note) = fit_lines d.places.lines b patch in
      write_changes-AreBalanced check dto by b fitted note (audited_changes b fitted) d d' fine
        (find_ref-row ref d b fine.0 found) h4

pub postpone-AreBalanced :
    (ref reason : String) (by : Actor) (d d' : Desk)
    → AreBalanced d
    → postpone ref reason by d ≡ ok d'
    → AreBalanced d'
unfolding postpone
postpone-AreBalanced ref reason by d d' fine h =
    let (u, long, h1) = returned (throw_if (ltb (length (codes (trim reason))) 3) _) _ h in
    let (b, found, h2) = returned (find_ref ref d) _ h1 in
    let (v, live, h3) = returned (throw_if (is_cancelled b.status) _) _ h2 in
    let there = find_ref-row ref d b fine.0 found in
    let put =
      put-AreBalanced d d b (postponed_booking b) fine refl refl (fine.1 b.id b there)
        (λ other ne. refl) in
    ok-AreBalanced _ d' h3 put
