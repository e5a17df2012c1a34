-- ===== src/Patch/Tests.antt =====
-- staff/bookings/booking-patch.ts: runs on a small booking.
use valle_web_backend.Prelude.{◌≡◌, refl, String, Option, some, none, List, [], ◌∷◌}
use valle_web_backend.Prelude.Http.{ok}
use valle_web_backend.Booking.{BookingStatus}
use valle_web_backend.Payments.Tests.{a_booking}
use valle_web_backend.Patch.{
  PatchItem, BookingPatch, PatchField, number, text, audited_changes, apply_patch,
}
use valle_web_backend.Patch.Party.{
  assert_lines_fit_party, fit, fit_line, fit_lines_to_party, fit_lines_to_party-fit,
}
use valle_web_backend.Patch.Resent.{audited_changes-apply_patch}

abbrev pub a_patch : BookingPatch
a_patch = record {
  visit_date = none;
  slot = none;
  adults = some 3;
  kids = some 1;
  infants = none;
  rate = none;
  guest_name = none;
  phone = some "57000000";
  email = none;
  pay_mode = none;
  status = some BookingStatus.arrived;
  staff_note = none;
  items = none;
  adjustment_kind = none;
  adjustment_value = none;
  adjustment_note = none;
  coupon_code = none;
}

-- The children's count is what it was.
three_changes :
    audited_changes a_booking a_patch
    ≡ record { field = PatchField.adults; from = number 2; to = number 3 }
      ∷ record { field = PatchField.phone; from = text ""; to = text "57000000" }
      ∷ record { field = PatchField.status; from = text "confirmed"; to = text "arrived" }
      ∷ []
unfolding audited_changes
three_changes = refl

audited_changes-apply_patch_example : audited_changes (apply_patch a_booking a_patch) a_patch ≡ []
audited_changes-apply_patch_example =
    audited_changes-apply_patch a_booking a_patch refl refl refl refl refl

abbrev some_lines : List PatchItem
some_lines =
    record {
      id = "zipline";
      variant = none;
      adults = some 2;
      kids = some 2;
      units = some 0;
      time = none;
    }
    ∷ record {
      id = "pirate";
      variant = none;
      adults = some 0;
      kids = some 2;
      units = none;
      time = none;
    }
    ∷ []

-- 2 adults and 2 children become 3 and 1.
fitted :
    fit_lines_to_party some_lines
      (record { adults = 2; kids = 2 })
      (record { adults = 3; kids = 1 })
    ≡ record {
      id = "zipline";
      variant = none;
      adults = some 3;
      kids = some 1;
      units = some 0;
      time = none;
    }
      ∷ record {
        id = "pirate";
        variant = none;
        adults = some 0;
        kids = some 1;
        units = none;
        time = none;
      }
      ∷ []
unfolding fit_lines_to_party fit_line fit
fitted = refl

abbrev no_names : String → Option String
no_names id = none

fit_lines_to_party-fit_example :
    assert_lines_fit_party
      (fit_lines_to_party some_lines
        (record { adults = 2; kids = 2 })
        (record { adults = 3; kids = 1 }))
      (record { adults = 3; kids = 1; infants = none })
      no_names
    ≡ ok tt
fit_lines_to_party-fit_example =
    fit_lines_to_party-fit some_lines (record { adults = 2; kids = 2 })
      (record { adults = 3; kids = 1 }) none no_names
