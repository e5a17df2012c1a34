-- ===== src/Coupons/Tests.antt =====
-- coupons/coupons.service.ts: runs on a small table of codes.
use valle_web_backend.Prelude.{
  ◌-◌, ◌≡◌, refl, min, String, some, none, List, [], ◌∷◌, true, false, if◌then◌else◌, str_eq, arith,
  ◌↔◌,
}
use valle_web_backend.Prelude.Upper.{upper_solid, upper_char}
use valle_web_backend.Prelude.Text.{is_filled}
use valle_web_backend.Prelude.Http.{ok, err, not_found}
use valle_web_backend.Pricing.Types.{AdjustmentKind}
use valle_web_backend.Coupons.{
  Coupon, CouponOffer, NewCoupon, normalise, find_code, is_code, increment, offer_of, resolve,
  consume, create, new_row, Call, use_code, new_code, switch_code, switch, set_active, run_call,
  run_calls,
}
use valle_web_backend.Coupons.Table.{IsTable, bump, on_row}
use valle_web_backend.Coupons.Uses.{run_calls-IsTable}
use valle_web_backend.Coupons.Offer.{
  IsUsable, resolve_iff, uses_granted, uses_granted_lem, resolve-consume,
}

-- Ten percent, twice, of which one use is left.
abbrev pub summer : Coupon
summer = record {
  code = "SUMMER-10";
  kind = AdjustmentKind.percent;
  value = 10;
  note = "Summer";
  active = true;
  valid_from = some 2026_01_01;
  valid_to = some 2026_03_31;
  max_uses = some 2;
  uses = 1;
  created_by = "desk";
}

abbrev pub summer_table : List Coupon
summer_table = summer ∷ []

abbrev summer_offer : CouponOffer
summer_offer = record {
  code = "SUMMER-10";
  kind = AdjustmentKind.percent;
  value = 10;
  note = "Summer";
}

abbrev press_code : NewCoupon
press_code = record {
  code = " press 26";
  kind = AdjustmentKind.foc;
  value = none;
  note = none;
  valid_from = none;
  valid_to = none;
  max_uses = some 1;
}

abbrev some_calls : List Call
some_calls =
    use_code "summer-10"
    ∷ new_code press_code "desk"
    ∷ use_code "SUMMER-10"
    ∷ switch_code "press26" false
    ∷ use_code "PRESS26"
    ∷ []

pub summer-IsTable : IsTable summer_table
unfolding find_code normalise upper_solid upper_char
summer-IsTable = (record { within = λ m e. ground arith; normal = refl }, refl, tt)

found_summer : find_code summer_table (normalise "summer-10") ≡ some summer
unfolding find_code normalise upper_solid upper_char
found_summer = refl

resolved_summer : resolve summer_table 2026_02_09 " summer-10" ≡ ok summer_offer
unfolding resolve find_code normalise upper_solid upper_char offer_of
resolved_summer = refl

run_calls-IsTable_example : IsTable (run_calls some_calls summer_table)
run_calls-IsTable_example = run_calls-IsTable some_calls summer_table summer-IsTable

uses_granted_lem_example : uses_granted 3 "summer-10" summer_table ≡ min 3 (2 - 1)
uses_granted_lem_example =
    uses_granted_lem 3 summer_table "summer-10" summer 2 found_summer refl refl

resolve-consume_example :
    (t : List Coupon) × (consume "SUMMER-10" summer_table ≡ ok t)
    × ((j : String)
        → find_code t j ≡ (
            if str_eq "SUMMER-10" j
            then on_row bump (find_code summer_table j)
            else find_code summer_table j))
resolve-consume_example =
    resolve-consume summer_table 2026_02_09 " summer-10" summer_offer summer-IsTable resolved_summer

resolve_iff_example : (resolve summer_table 2026_02_09 " summer-10" ≡ ok summer_offer) ↔ (
    (c : Coupon) × (is_filled (normalise " summer-10") ≡ true)
    × (find_code summer_table (normalise " summer-10") ≡ some c)
    × IsUsable c 2026_02_09
    × (offer_of c ≡ summer_offer))
resolve_iff_example = resolve_iff summer_table 2026_02_09 " summer-10" summer_offer

late_summer : resolve summer_table 2026_04_01 "SUMMER-10" ≡ err (not_found "This code has expired")
unfolding resolve find_code normalise upper_solid upper_char
late_summer = refl

-- Of five calls, two use the summer code, of which one has a use left, and one uses the new code once
-- it is off.
uses_after :
    run_calls some_calls summer_table
    ≡ record (new_row press_code "desk") { active = false } ∷ record summer { uses = 2 } ∷ []
unfolding run_calls run_call create consume set_active switch increment new_row is_code find_code
    normalise upper_solid upper_char
uses_after = refl
