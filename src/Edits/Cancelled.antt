-- ===== src/Edits/Cancelled.antt =====
-- staff/bookings/staff-bookings.service.ts (guestCancel): what a cancellation writes.
use valle_web_backend.Prelude.{
  ◌≡◌, ◌≢◌, refl, ap, ◌∙◌, String, none, some, List, [], ◌∷◌, true, false, ◌||◌, ◌++◌, arith,
  ==_iff, if◌then◌else◌, Bool-cases, inl, inr, find, str_eq,
}
use valle_web_backend.Prelude.Text.{is_filled, trim}
use valle_web_backend.Prelude.Http.{
  ok, ◌>>=◌, ◌>>◌, throw_if, bad_request, not_found, or_throw, or_throw-eq-ok,
}
use valle_web_backend.Day.{Day}
use valle_web_backend.Booking.{Time, BookingStatus, Booking, BookingLine}
use valle_web_backend.Capacity.{Places}
use valle_web_backend.Edits.Money.{reprice}
use valle_web_backend.Patch.{
  BookingPatch, FieldChange, PatchField, text, status_value, field_change, audited_changes,
  apply_patch, touches_money, touches_places,
}
use valle_web_backend.Edits.{EditRow, audit_action, Desk, Catalogue, normalize_patch, has_fields}
use valle_web_backend.Edits.Fitting.{fit_lines, ensure_room}
use valle_web_backend.Edits.Update.{
  reach_message, find_ref, put_booking, write_row, repriced, write_edit, write_changes,
  edit_booking, update, said_of, is_unreachable,
}
use valle_web_backend.Edits.Guest.{
  nothing_sent, sends, note_after, require_booking, guest_can_change, guest_cancel, guest,
}

abbrev pub cancelled_by_guest : Booking → String → Booking
cancelled_by_guest b reason = record b {
  status = BookingStatus.cancelled;
  staff_note = trim (note_after b reason);
}

-- The edit that a cancellation amounts to, its text trimmed.
abbrev cancels : String → BookingPatch
cancels note = record nothing_sent { status = some BookingStatus.cancelled; staff_note = some note }

fit_lines-kept :
    (lines : List BookingLine) (b : Booking) (note : String)
    → fit_lines lines b (cancels note) ≡ (cancels note, "")
unfolding fit_lines
fit_lines-kept lines b note = ground (arith, ==_iff b.adults b.adults, ==_iff b.kids b.kids)

status_change : BookingStatus → FieldChange
status_change from = record {
  field = PatchField.status;
  from = status_value from;
  to = status_value BookingStatus.cancelled;
}

abbrev note_change : Booking → String → List FieldChange
note_change b note =
    field_change PatchField.staff_note (text b.staff_note) text (some note)
    ++ []
    ++ []
    ++ []
    ++ []
    ++ []

status_moves :
    (from : BookingStatus)
    → from ≢ BookingStatus.cancelled
    → field_change PatchField.status (status_value from) status_value (some BookingStatus.cancelled)
      ≡ status_change from ∷ []
unfolding status_change
status_moves BookingStatus.confirmed live = refl
status_moves BookingStatus.arrived live = refl
status_moves BookingStatus.postponed live = refl
status_moves BookingStatus.cancelled live = absurd (live refl)

cancel_changes :
    (b : Booking) (note : String)
    → b.status ≢ BookingStatus.cancelled
    → audited_changes b (cancels note) ≡ status_change b.status ∷ note_change b note
unfolding audited_changes
cancel_changes b note live =
    ap
      (λ cs.
        cs
        ++ field_change PatchField.staff_note (text b.staff_note) text (some note)
        ++ []
        ++ []
        ++ []
        ++ []
        ++ [])
      (status_moves b.status live)

cancel_money :
    (b : Booking) (note : String)
    → touches_money (status_change b.status ∷ note_change b note) ≡ false
unfolding touches_money status_change
cancel_money b note = ground arith

cancel_room :
    (cat : Catalogue) (now : Time) (b : Booking) (note : String) (changes : List FieldChange)
    (places : Places)
    → ensure_room cat now b (cancels note) changes places ≡ ok tt
unfolding ensure_room
cancel_room cat now b note changes places = elim (Bool-cases (touches_places changes)) [
  | inl moves ↦ ground arith
  | inr stays ↦ ground arith
]

module _ (cat : Catalogue) (today : Day) (now : Time) where
  cancel_write :
      (b : Booking) (note sent : String) (d : Desk)
      → (r : EditRow) × (write_edit cat today now none
            (sends (cancels sent))
            guest
            b
            (cancels note)
            ""
            (status_change b.status ∷ note_change b note)
            d
          ≡ ok (
              write_row r
                (put_booking (record b { status = BookingStatus.cancelled; staff_note = note }) d)))
  unfolding write_edit said_of repriced apply_patch trim
  cancel_write b note sent d =
      let changes = status_change b.status ∷ note_change b note in
      let money =
        ap (λ t. if t then reprice cat today b (cancels note) d else ok (b, d))
          (cancel_money b note) in
      let room = cancel_room cat now b note changes d.places in
      let r : EditRow = record {
        booking_id = b.id;
        by = guest;
        action = audit_action changes;
        changes = changes;
        lines_note = "";
        said = [];
      } in
      let written = ok (
        write_row r
          (put_booking (record b { status = BookingStatus.cancelled; staff_note = note }) d)) in
      let rest = λ (after : Booking × Desk).
        ensure_room cat now after.0 (cancels note) changes after.1.places
        >> ok (write_row r (put_booking (apply_patch after.0 (cancels note)) after.1)) in
      (r, ap (λ call. call >>= rest) money ∙ ap (λ done. done >> written) room)

  is_live : (b : Booking) → guest_can_change today b ≡ ok tt → b.status ≢ BookingStatus.cancelled
  unfolding guest_can_change
  is_live b may gone = ground arith

  require-find :
      (ref : String) (b : Booking) (d : Desk)
      → find_ref ref d ≡ ok b
      → require_booking true ref d ≡ ok b
  unfolding require_booking find_ref
  require-find ref b d found =
      ap (λ o. or_throw o (not_found "No such booking"))
        (or_throw-eq-ok (find (λ (b : Booking). str_eq b.ref_code ref) d.places.bookings) _ found)

  cancel_update :
      (ref note : String) (b : Booking) (d : Desk)
      → find_ref ref d ≡ ok b
      → b.status ≢ BookingStatus.cancelled
      → is_filled b.email || is_filled b.phone ≡ true
      → (r : EditRow) × (update cat today now ref (sends (cancels note)) false none guest d
          ≡ ok (
              write_row r (
                put_booking
                  (record b { status = BookingStatus.cancelled; staff_note = trim note })
                  d)))
  unfolding update edit_booking normalize_patch has_fields is_unreachable write_changes
  cancel_update ref note b d found live reachable =
      let dto = sends (cancels note) in
      let patch = cancels (trim note) in
      let (r, writes) = cancel_write b (trim note) note d in
      let write = λ (f : BookingPatch × String) (cs : List FieldChange).
        write_changes cat today now none dto guest b f.0 f.1 cs d in
      let reached : is_unreachable b patch ≡ false = ground arith in
      let kept = fit_lines-kept d.places.lines b (trim note) in
      (
        r,
        ap
              (λ call. call >>= λ (x : Booking).
                throw_if (is_unreachable x patch) (bad_request reach_message)
                >> edit_booking cat today now none dto guest x patch d)
              found
            ∙ ap
                (λ t.
                  throw_if t (bad_request reach_message)
                  >> edit_booking cat today now none dto guest b patch d)
                reached
            ∙ ap (λ f. write f (audited_changes b f.0)) kept
            ∙ ap (write (patch, "")) (cancel_changes b (trim note) live)
            ∙ writes,
      )

  -- A guest whose link is valid cancels a booking that may still be changed and has an address or a
  -- telephone number, whatever the calendar and the catalogue are by then: the booking is cancelled, the
  -- reason goes into its note, and beside its row of the trail nothing else moves, no money, no line and
  -- no code.
  pub guest_cancel_lem :
      (ref reason : String) (b : Booking) (d : Desk)
      → find_ref ref d ≡ ok b
      → guest_can_change today b ≡ ok tt
      → is_filled b.email || is_filled b.phone ≡ true
      → (r : EditRow) × (guest_cancel cat today now true ref reason d
          ≡ ok (write_row r (put_booking (cancelled_by_guest b reason) d)))
  unfolding guest_cancel
  guest_cancel_lem ref reason b d found may reachable =
      let (r, writes) =
        cancel_update ref (note_after b reason) b d found (is_live b may) reachable in
      let there = require-find ref b d found in
      let next = λ (x : Booking).
        update cat today now ref (sends (cancels (note_after x reason))) false none guest d in
      (
        r,
        ap (λ call. call >>= λ (x : Booking). guest_can_change today x >> next x) there
            ∙ ap (λ done. done >> next b) may
            ∙ writes,
      )
