-- ===== src/Waivers/Tests.antt =====
-- waivers/waiver-rules.ts: runs on a small party.
use valle_web_backend.Prelude.{
  ℕ, ◌+◌, ◌*◌, ◌≤◌, ◌<◌, ◌≡◌, ◌↔◌, refl, String, Option, some, none, List, [], ◌∷◌, true, false,
  or_zero, All, leb→le, map, arith,
}
use valle_web_backend.Prelude.Integers.{ℤ, pos}
use valle_web_backend.Prelude.Text.{decimal, trim}
use valle_web_backend.Waivers.{
  GateActivity, OnLine, partial_on, on_line, age_on, Level, activity_flags, flags_for, WaiverLine,
  WaiverParty, waiver_required_count,
}
use valle_web_backend.Payments.Tests.{a_booking}
use valle_web_backend.Waivers.Register.{
  SignCall, Waiver, collapsed, count_if, is_current, is_current_of, is_open, new_waiver_record,
  put_signature, run_signs, sign, signer_for, supersede,
}
use valle_web_backend.Waivers.Current.{AreSingle, AreBounded, most_required, run_signs-AreSingle}
use valle_web_backend.Waivers.Gate.{partial_on_iff, age_on_lem}
use valle_web_backend.Waivers.Signing.{Covers, waiver_required_count-Covers}
use valle_web_backend.Prelude.Upper.{lower}

abbrev zip_activity : GateActivity
zip_activity = record {
  id = "zipline";
  name = "Zipline";
  limits = record {
    min_age = some 8;
    max_age = none;
    drive_min_age = none;
    min_weight_kg = none;
    max_weight_kg = some 110;
    min_height_cm = none;
    max_height_cm = none;
  };
  people = some (record { adults = 1; kids = 1 });
}

abbrev zip_line : WaiverLine
zip_line = record { experience_id = some "zipline"; product_key = none; adults = 1; kids = 1 }

abbrev small_party : WaiverParty
small_party = record { adults = 2; kids = 1; infants = some 1; is_group = false }

abbrev no_products : String → Option (List String)
no_products key = none

partial_on_iff_example : (partial_on zip_activity (record { adults = 2; kids = 1 }) ≡ true) ↔ (
    (age : ℤ) × (on_line age (record { adults = 1; kids = 1 }) (record { adults = 2; kids = 1 })
      ≡ OnLine.unknown))
partial_on_iff_example =
    partial_on_iff zip_activity (record { adults = 1; kids = 1 }) (record { adults = 2; kids = 1 })
      refl

age_on_lem_example :
    (a : ℕ) × (age_on 2014_03_10 2026_02_09 ≡ pos a)
    × (2014_03_10 + a * 10_000 ≤ 2026_02_09)
    × (2026_02_09 < 2014_03_10 + (a + 1) * 10_000)
age_on_lem_example = age_on_lem 2014_03_10 2026_02_09 (leb→le 2014_03_10 2026_02_09 refl)

waiver_required_count-Covers_example :
    All
      (Covers
        ("zipline" ∷ [])
        small_party
        no_products
        (waiver_required_count (zip_line ∷ []) ("zipline" ∷ []) small_party no_products))
      (zip_line ∷ [])
    × (waiver_required_count (zip_line ∷ []) ("zipline" ∷ []) small_party no_products
        ≤ small_party.adults + small_party.kids + or_zero small_party.infants)
waiver_required_count-Covers_example =
    waiver_required_count-Covers ("zipline" ∷ []) small_party no_products (zip_line ∷ []) refl

-- Seven years old and 120 kilograms: two flags.
two_flags :
    flags_for
      (record { birth_date = 2018_03_10; height_cm = 140; weight_kg = 120 })
      2026_02_09
      (zip_activity ∷ [])
    ≡ record { level = Level.stop; activity = "Zipline"; message = "Age 7, minimum 8" }
      ∷ record { level = Level.stop; activity = "Zipline"; message = "120 kg, maximum 110 kg" }
      ∷ []
unfolding flags_for activity_flags age_on decimal
two_flags = refl

-- A signature for a booking that is on.
abbrev a_signature : SignCall
a_signature = record {
  id = "w1";
  now = 7;
  today = 2026_02_08;
  booking = a_booking;
  required = 3;
  dto = record {
    participant_name = " Ana  Peirce ";
    birth_date = 1990_04_12;
    height_cm = 165;
    weight_kg = 60;
    guardian_name = none;
  };
}

-- The same name again, in capitals: the first signature is superseded.
abbrev signed_again : SignCall
signed_again = record a_signature {
  id = "w2";
  now = 8;
  dto = record a_signature.dto { participant_name = "ANA PEIRCE" };
}

two_versions :
    map {B = ℕ × Option ℕ}
      (λ (w : Waiver). (w.version, w.superseded_at))
      (run_signs (a_signature ∷ signed_again ∷ []) [])
    ≡ (2, none) ∷ (1, some 8) ∷ []
unfolding run_signs sign is_open signer_for age_on trim collapsed put_signature is_current_of
    is_current count_if new_waiver_record supersede lower
two_versions = refl

none-AreSingle : AreSingle []
unfolding count_if
none-AreSingle = λ bk name. omega arith

run_signs-AreSingle_example :
    AreSingle (run_signs (a_signature ∷ signed_again ∷ []) [])
    × AreBounded
        (most_required (a_signature ∷ signed_again ∷ []))
        []
        (run_signs (a_signature ∷ signed_again ∷ []) [])
run_signs-AreSingle_example =
    run_signs-AreSingle (a_signature ∷ signed_again ∷ []) [] none-AreSingle
