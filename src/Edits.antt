-- ===== src/Edits.antt =====
-- staff/bookings/staff-bookings.service.ts (update, postpone, guestChange, guestCancel) with normalizePatch,
-- lineCountChanges and auditAction of booking-patch.ts: an edit of a booking, in one transaction on the
-- bookings, their lines, the codes and the trail. The lines of a booking stand in the table in their
-- order. Left out with the times of edits is the comparison of assertNotStale: its verdict is an argument.
pub mod Fitting
pub mod Money
pub mod Update
pub mod Balanced
pub mod Kept
pub mod Codes
pub mod Moved
pub mod Room
pub mod Seats
pub mod Guest
pub mod Cancelled
pub mod Tests
use valle_web_backend.Prelude.{
  ℕ, String, Option, none, some, List, [], ◌∷◌, Bool, true, false, ◌&&◌, ◌||◌, not, map, or_zero,
  is_some, or_default, if◌then◌else◌, ltb, ◌==◌, find, str_eq,
}
use valle_web_backend.Prelude.Text.{trim, or_empty, is_filled, concat, decimal, join}
use valle_web_backend.Day.{Day}
use valle_web_backend.Booking.{SlotKey, PayMode, BookingStatus, BookingLine}
use valle_web_backend.Pricing.Types.{
  Rate, AdjustmentKind, PricingExperience, PricingSettings, PricingPriceRow, Product,
}
use valle_web_backend.Coupons.{Coupon, normalise}
use valle_web_backend.Capacity.{Calendar, ExperienceInfo, Places}
use valle_web_backend.Payments.{Actor}
use valle_web_backend.Patch.{BookingPatch, PatchItem, FieldChange, PatchField}
use valle_web_backend.Patch.Party.{some_text}

-- The request of an edit: the fields as they were sent.
pub record UpdateBooking : Type 0 where
  pub sent : BookingPatch
  pub reason : Option String
  pub override : Bool

pub data BookingAuditAction : Type 0 where
  edit status note : BookingAuditAction

-- A row of the trail: the fields that changed, the lines in words, and what else the row says.
pub record EditRow : Type 0 where
  pub booking_id : String
  pub by : Actor
  pub action : BookingAuditAction
  pub changes : List FieldChange
  pub lines_note : String
  pub said : List (String × String)

-- The tables that an edit reads and writes.
pub record Desk : Type 0 where
  pub places : Places
  pub coupons : List Coupon
  pub trail : List EditRow

-- What an edit reads and does not write: the catalogue, the settings and the calendar.
pub record Catalogue : Type 0 where
  pub experiences : List PricingExperience
  pub settings : PricingSettings
  pub price_rows : List PricingPriceRow
  pub products : List Product
  pub calendar : Calendar
  pub infos : String → Option ExperienceInfo

-- What the waivers say about an arrival.
pub record ArrivalCheck : Type 0 where
  pub blocked : Bool
  pub required : ℕ
  pub signed_count : ℕ
  pub message : String

abbrev pub trimmed : Option String → Option String
trimmed none = none
trimmed (some s) = some (trim s)

abbrev pub normalised_code : Option String → Option String
normalised_code none = none
normalised_code (some s) = some (normalise s)

-- `i.variant || undefined` and `i.adults || 0`
abbrev pub normalised_item : PatchItem → PatchItem
normalised_item i = record {
  id = i.id;
  variant = some_text (or_empty i.variant);
  adults = some (or_zero i.adults);
  kids = some (or_zero i.kids);
  units = some (or_zero i.units);
  time = some_text (or_empty i.time);
}

abbrev pub normalised_items : Option (List PatchItem) → Option (List PatchItem)
normalised_items none = none
normalised_items (some items) = some (map normalised_item items)

-- The fields that were sent, trimmed.
unfoldable pub normalize_patch : BookingPatch → BookingPatch
normalize_patch dto = record dto {
  guest_name = trimmed dto.guest_name;
  phone = trimmed dto.phone;
  email = trimmed dto.email;
  staff_note = trimmed dto.staff_note;
  items = normalised_items dto.items;
  adjustment_note = trimmed dto.adjustment_note;
  coupon_code = normalised_code dto.coupon_code;
}

-- patchFields(patch).length > 0
unfoldable pub has_fields : BookingPatch → Bool
has_fields p =
    is_some p.visit_date
    || is_some p.slot
    || is_some p.adults
    || is_some p.kids
    || is_some p.infants
    || is_some p.rate
    || is_some p.guest_name
    || is_some p.phone
    || is_some p.email
    || is_some p.pay_mode
    || is_some p.status
    || is_some p.staff_note
    || is_some p.items
    || is_some p.adjustment_kind
    || is_some p.adjustment_value
    || is_some p.adjustment_note
    || is_some p.coupon_code

-- `edit` unless nothing but the status or the note changed.
unfoldable pub audit_action : List FieldChange → BookingAuditAction
audit_action (c ∷ []) = elim c.field [
  | PatchField.status ↦ BookingAuditAction.status
  | PatchField.staff_note ↦ BookingAuditAction.note
  | _ ↦ BookingAuditAction.edit
]
audit_action _ = BookingAuditAction.edit

-- l.id + '::' + (l.variant ?? '')
abbrev pub line_text : PatchItem → String
line_text l = concat (l.id ∷ "::" ∷ or_empty l.variant ∷ [])

abbrev pub same_counts : PatchItem → PatchItem → Bool
same_counts a b = or_zero a.adults == or_zero b.adults && or_zero a.kids == or_zero b.kids

abbrev pub unchanged : Option PatchItem → PatchItem → Bool
unchanged none b = false
unchanged (some a) b = same_counts a b

abbrev pub count_text : Option PatchItem → String
count_text none = "removed"
count_text (some l) = concat (decimal (or_zero l.adults) ∷ "+" ∷ decimal (or_zero l.kids) ∷ [])

abbrev pub variant_text : Option String → String
variant_text variant =
    if is_filled (or_empty variant) then concat (" (" ∷ or_empty variant ∷ ")" ∷ []) else ""

abbrev pub change_text : PatchItem → Option PatchItem → String
change_text b a =
    concat (b.id ∷ variant_text b.variant ∷ " " ∷ count_text (some b) ∷ " → " ∷ count_text a ∷ [])

unfoldable pub changed_lines : List PatchItem → List PatchItem → List String
changed_lines [] after = []
changed_lines (b ∷ before) after =
    let a = find (λ (x : PatchItem). str_eq (line_text x) (line_text b)) after in
    let rest = changed_lines before after in if unchanged a b then rest else change_text b a ∷ rest

-- "zipline 2+2 → 3+1": the lines whose counts differ between two lists.
unfoldable pub line_count_changes : List PatchItem → List PatchItem → String
unfolding changed_lines
line_count_changes before after = join ", " (changed_lines before after)
