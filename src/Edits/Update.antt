-- ===== src/Edits/Update.antt =====
-- staff/bookings/staff-bookings.service.ts (update, arrivalRule, postpone).
use valle_web_backend.Prelude.{
  String, Option, none, some, List, [], ◌∷◌, Bool, true, false, ◌&&◌, not, find, any, length,
  or_default, if◌then◌else◌, str_eq, ltb,
}
use valle_web_backend.Prelude.Text.{concat, is_filled, trim, or_empty, decimal, codes}
use valle_web_backend.Prelude.Http.{
  Result, ok, bad_request, not_found, conflict, ◌>>=◌, ◌>>◌, throw_if, or_throw,
}
use valle_web_backend.Prelude.Rows.{save}
use valle_web_backend.Day.{Day}
use valle_web_backend.Booking.{Time, BookingStatus, Booking}
use valle_web_backend.Payments.{Actor}
use valle_web_backend.Payments.Service.{is_cancelled}
use valle_web_backend.Patch.{
  BookingPatch, PatchField, FieldChange, audited_changes, apply_patch, touches_money, status_value,
}
use valle_web_backend.Edits.{
  UpdateBooking, BookingAuditAction, EditRow, Desk, Catalogue, ArrivalCheck, normalize_patch,
  has_fields, audit_action,
}
use valle_web_backend.Edits.Fitting.{fit_lines, ensure_room}
use valle_web_backend.Edits.Money.{reprice}

abbrev pub booking_id : Booking → String
booking_id b = b.id

unfoldable pub find_ref : String → Desk → Result Booking
find_ref ref d =
    or_throw (find (λ (b : Booking). str_eq b.ref_code ref) d.places.bookings)
      (not_found (concat ("No booking " ∷ ref ∷ [])))

unfoldable pub put_booking : Booking → Desk → Desk
put_booking b d = record d {
  places = record d.places { bookings = save booking_id b d.places.bookings };
}

abbrev pub write_row : EditRow → Desk → Desk
write_row r d = record d { trail = r ∷ d.trail }

abbrev pub is_arrived : Option BookingStatus → Bool
is_arrived (some BookingStatus.arrived) = true
is_arrived _ = false

abbrev pub is_status : PatchField → Bool
is_status PatchField.status = true
is_status _ = false

abbrev pub changes_status : List FieldChange → Bool
changes_status changes = any (λ (c : FieldChange). is_status c.field) changes

abbrev pub signed_text : ArrivalCheck → String
signed_text c = concat (decimal c.signed_count ∷ "/" ∷ decimal c.required ∷ " signed" ∷ [])

-- Marked arrived with waivers missing: an override and a reason, both in the trail.
unfoldable pub arrival_rule : Option ArrivalCheck → UpdateBooking → Result (List (String × String))
arrival_rule none dto = ok []
arrival_rule (some check) dto =
    if not check.blocked
    then ok (("waivers", signed_text check) ∷ [])
    else throw_if (not dto.override) (conflict check.message)
      >> throw_if (ltb (length (codes (trim (or_empty dto.reason)))) 3)
          (bad_request "Give the reason for checking in without all the waivers")
      >> ok (("waivers", signed_text check) ∷ ("gateOverride", trim (or_empty dto.reason)) ∷ [])

unfoldable pub said_of :
    Option ArrivalCheck
    → UpdateBooking
    → BookingPatch
    → List FieldChange
    → Result (List (String × String))
said_of check dto patch changes =
    if is_arrived patch.status && changes_status changes
    then arrival_rule check dto
    else if is_filled (trim (or_empty dto.reason)) && changes_status changes
    then ok (("reason", trim (or_empty dto.reason)) ∷ [])
    else ok []

unfoldable pub is_unreachable : Booking → BookingPatch → Bool
is_unreachable b patch =
    not (is_filled (or_default patch.email b.email))
    && not (is_filled (or_default patch.phone b.phone))

abbrev pub reach_message : String
reach_message = "Keep at least an email address or a phone number on the booking"

module _ (cat : Catalogue) (today : Day) (now : Time) where
  -- The money, where the edit touches it.
  unfoldable pub repriced :
      Booking → BookingPatch → List FieldChange → Desk → Result (Booking × Desk)
  repriced b patch changes d =
      if touches_money changes then reprice cat today b patch d else ok (b, d)

  -- What follows once something moves.
  unfoldable pub write_edit :
      Option ArrivalCheck
      → UpdateBooking
      → Actor
      → Booking
      → BookingPatch
      → String
      → List FieldChange
      → Desk
      → Result Desk
  write_edit check dto by b patch lines_note changes d = said_of check dto patch changes >>= λ said.
      repriced b patch changes d >>= λ after.
      ensure_room cat now after.0 patch changes after.1.places
      >> ok (
          write_row
            (record {
              booking_id = b.id;
              by = by;
              action = audit_action changes;
              changes = changes;
              lines_note = lines_note;
              said = said;
            })
            (put_booking (apply_patch after.0 patch) after.1))

  -- Where nothing moves, nothing is written.
  unfoldable pub write_changes :
      Option ArrivalCheck
      → UpdateBooking
      → Actor
      → Booking
      → BookingPatch
      → String
      → List FieldChange
      → Desk
      → Result Desk
  write_changes check dto by b patch lines_note [] d = ok d
  write_changes check dto by b patch lines_note (c ∷ more) d =
      write_edit check dto by b patch lines_note (c ∷ more) d

  -- An edit with its lines fitted to the party.
  unfoldable pub edit_booking :
      Option ArrivalCheck → UpdateBooking → Actor → Booking → BookingPatch → Desk → Result Desk
  edit_booking check dto by b patch d =
      let (fitted, lines_note) = fit_lines d.places.lines b patch in
      write_changes check dto by b fitted lines_note (audited_changes b fitted) d

  -- An edit from the desk or the ticket page, under the booking's lock.
  unfoldable pub update :
      String → UpdateBooking → Bool → Option ArrivalCheck → Actor → Desk → Result Desk
  update ref dto stale check by d = do
    throw_if (not (has_fields (normalize_patch dto.sent)))
        (bad_request "Provide at least one field to update")
    b ← find_ref ref d
    throw_if stale (conflict "This booking was changed by someone else — reload")
    throw_if (is_unreachable b (normalize_patch dto.sent)) (bad_request reach_message)
    edit_booking check dto by b (normalize_patch dto.sent) d

abbrev pub postponed_booking : Booking → Booking
postponed_booking b = record b {
  postponed_from = some b.visit_date;
  status = BookingStatus.postponed;
}

-- A weather day: the visit is postponed, the money stays on the booking.
unfoldable pub postpone : String → String → Actor → Desk → Result Desk
postpone ref reason by d = do
  throw_if (ltb (length (codes (trim reason))) 3)
      (bad_request "Give a reason for the postponement (at least 3 characters)")
  b ← find_ref ref d
  throw_if (is_cancelled b.status) (bad_request "This booking is cancelled")
  ok (
      write_row
        (record {
          booking_id = b.id;
          by = by;
          action = BookingAuditAction.status;
          changes =
              record {
                field = PatchField.status;
                from = status_value b.status;
                to = status_value BookingStatus.postponed;
              }
              ∷ [];
          lines_note = "";
          said = ("reason", trim reason) ∷ [];
        })
        (put_booking (postponed_booking b) d))
