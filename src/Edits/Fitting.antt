-- ===== src/Edits/Fitting.antt =====
-- staff/bookings/staff-bookings.service.ts (fitLines, ensureRoom): the lines of an edit and its places.
use valle_web_backend.Prelude.{
  String, none, some, List, [], ◌∷◌, ◌++◌, Bool, true, false, ◌&&◌, ◌||◌, not, map, filter,
  or_default, is_some, if◌then◌else◌, ◌==◌, str_eq,
}
use valle_web_backend.Prelude.Text.{is_filled}
use valle_web_backend.Prelude.Http.{Result, ok}
use valle_web_backend.Booking.{Time, BookingStatus, Booking, BookingLine}
use valle_web_backend.Capacity.{PlacesItem, PlacesRequest, Places}
use valle_web_backend.Capacity.Reserve.{reserve_places}
use valle_web_backend.Patch.{BookingPatch, PatchItem, FieldChange, touches_places}
use valle_web_backend.Patch.Party.{Party, fit_lines_to_party, lines_as_items}
use valle_web_backend.Edits.{Catalogue, line_count_changes}

abbrev pub of_booking : String → BookingLine → Bool
of_booking id l = str_eq l.booking_id id

-- Every line of the booking.
unfoldable pub lines_of : String → List BookingLine → List BookingLine
lines_of id lines = filter (of_booking id) lines

-- Its paid lines: experiences and products; the row of the park entry has neither key.
unfoldable pub paid_lines : String → List BookingLine → List BookingLine
paid_lines id lines =
    filter (λ l. of_booking id l && (is_some l.experience_id || is_some l.product_key)) lines

abbrev pub party_of : Booking → Party
party_of b = record { adults = b.adults; kids = b.kids }

abbrev pub party_after : Booking → BookingPatch → Party
party_after b patch = record {
  adults = or_default patch.adults b.adults;
  kids = or_default patch.kids b.kids;
}

abbrev pub same_party : Party → Party → Bool
same_party p q = p.adults == q.adults && p.kids == q.kids

abbrev pub nobody : Party
nobody = record { adults = 0; kids = 0 }

-- The booking's own lines follow a new party; the patch carries them where they changed.
unfoldable pub fit_own_lines : List PatchItem → Party → Party → BookingPatch → BookingPatch × String
fit_own_lines existing from to patch =
    let fitted = fit_lines_to_party existing from to in
    let note = line_count_changes existing fitted in
    (if is_filled note then record patch { items = some fitted } else patch, note)

-- The patch whose lines fit the new party, and the change in words.
unfoldable pub fit_lines : List BookingLine → Booking → BookingPatch → BookingPatch × String
fit_lines lines b patch = elim patch.items [
  | some requested ↦
      let clamped = fit_lines_to_party requested nobody (party_after b patch) in
      (record patch { items = some clamped }, line_count_changes requested clamped)
  | none ↦
      if same_party (party_of b) (party_after b patch)
      then (patch, "")
      else fit_own_lines (lines_as_items (paid_lines b.id lines)) (party_of b) (party_after b patch)
          patch
]

abbrev pub places_item : PatchItem → PlacesItem
places_item i = record {
  id = i.id;
  adults = i.adults;
  kids = i.kids;
  units = i.units;
  time = i.time;
}

abbrev pub item_of_experience : BookingLine → List PlacesItem
item_of_experience l = elim l.experience_id [
  | none ↦ []
  | some id ↦
      if is_filled id
      then record {
        id = id;
        adults = some l.adults;
        kids = some l.kids;
        units = some l.units;
        time = l.session_time;
      }
        ∷ []
      else []
]

abbrev pub flat_map {ℓ κ} : {A : Type ℓ} {B : Type κ} → (A → List B) → List A → List B
flat_map f [] = []
flat_map f (x ∷ xs) = f x ++ flat_map f xs

-- What the check of places counts: the requested lines, or the booking's experience lines.
unfoldable pub places_items : BookingPatch → List BookingLine → List PlacesItem
places_items patch lines = elim patch.items [
  | some requested ↦ map places_item requested
  | none ↦ flat_map item_of_experience lines
]

abbrev pub needs_places : BookingStatus → Bool
needs_places BookingStatus.cancelled = false
needs_places BookingStatus.postponed = false
needs_places _ = true

-- The request of an edit; the booking's own guests do not count.
abbrev pub edit_request : Booking → BookingPatch → List BookingLine → PlacesRequest
edit_request b patch lines = record {
  visit_date = or_default patch.visit_date b.visit_date;
  slot = or_default patch.slot b.slot;
  adults = or_default patch.adults b.adults;
  kids = or_default patch.kids b.kids;
  infants = some (or_default patch.infants b.infants);
  items = places_items patch (lines_of b.id lines);
  hold_id = none;
  except_booking_id = some b.id;
}

-- Room for the booking where the edit puts it.
unfoldable pub ensure_room :
    Catalogue → Time → Booking → BookingPatch → List FieldChange → Places → Result (Unit {0})
ensure_room cat now b patch changes places =
    if not (touches_places changes) || not (needs_places (or_default patch.status b.status))
    then ok tt
    else reserve_places now places (edit_request b patch places.lines) cat.calendar cat.infos
