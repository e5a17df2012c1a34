-- ===== src/Create/Party.antt =====
-- bookings/party-rules.ts (assertAgeMinimums) and checkParty of bookings/bookings.service.ts.
use valle_web_backend.Prelude.{
  ℕ, String, Option, none, some, List, [], ◌∷◌, Bool, false, ◌&&◌, leb, ltb, or_zero, or_default,
}
use valle_web_backend.Prelude.Text.{concat, decimal}
use valle_web_backend.Prelude.Http.{Result, ok, bad_request, ◌>>◌, throw_if}
use valle_web_backend.Pricing.Types.{PricingItem}
use valle_web_backend.Patch.{PatchItem}
use valle_web_backend.Patch.Party.{PartyCounts, assert_lines_fit_party}
use valle_web_backend.Waivers.AgeLabel.{parse_age_label}
use valle_web_backend.Create.{LineInfo}

abbrev pub label_of : Option LineInfo → Option String
label_of none = none
label_of (some i) = i.age_label

abbrev pub name_of : Option LineInfo → Option String
name_of none = none
name_of (some i) = some i.name

-- A minimum of twelve or more.
abbrev pub is_hard : Option ℕ → Bool
is_hard none = false
is_hard (some min_age) = leb 12 min_age

abbrev pub age_message : String → Option ℕ → String
age_message name min_age =
    concat (name ∷ " is for ages " ∷ decimal (or_zero min_age) ∷ "+ only" ∷ [])

-- An experience for twelve and over takes no children.
unfoldable pub assert_age_minimums : List PatchItem → (String → Option LineInfo) → Result (Unit {0})
assert_age_minimums [] info = ok tt
assert_age_minimums (i ∷ items) info =
    let min_age = (parse_age_label (label_of (info i.id))).min_age in
    throw_if (ltb 0 (or_zero i.kids) && is_hard min_age)
      (bad_request (age_message (or_default (name_of (info i.id)) i.id) min_age))
    >> assert_age_minimums items info

abbrev pub party_item : PricingItem → PatchItem
party_item i = record {
  id = i.id;
  variant = i.variant;
  adults = i.adults;
  kids = i.kids;
  units = i.units;
  time = i.time;
}

-- The rules of the lines that every path applies.
unfoldable pub check_party :
    List PatchItem → PartyCounts → (String → Option LineInfo) → Result (Unit {0})
check_party items party info =
    assert_lines_fit_party items party (λ id. name_of (info id)) >> assert_age_minimums items info
