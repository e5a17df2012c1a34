-- ===== src/Pricing/Coverage.antt =====
-- bookings/pricing.ts: whose entrance a product line includes, the price of entry, and its line.
use valle_web_backend.Prelude.{
  ℕ, ◌+◌, ◌-◌, String, Option, none, some, List, [], ◌∷◌, ◌&&◌, find, min, max, ltb, ◌==◌, or_zero,
  or_default, if◌then◌else◌, str_eq,
}
use valle_web_backend.Prelude.Text.{concat, lower_includes}
use valle_web_backend.Pricing.Types.{
  Rate, PricingSettings, PricingItem, PricingPriceRow, PricingInput, PricedLine, Product,
}
use valle_web_backend.Pricing.Product.{entry_included, is_product_id, product_key_of}
use valle_web_backend.Pricing.Party.{party_label, rate_of}

pub record EntryPrices : Type 0 where
  pub adult : ℕ
  pub child : ℕ

-- The first admission row whose label holds the words.
abbrev admission : List PricingPriceRow → String → Option PricingPriceRow
admission rows needle =
    find (λ r. str_eq r.group_key "admission" && lower_includes r.label needle) rows

abbrev row_or : Option PricingPriceRow → Rate → ℕ → ℕ
row_or none rate price = price
row_or (some row) rate price = rate_of row rate

unfoldable pub entry_prices : Rate → List PricingPriceRow → PricingSettings → EntryPrices
entry_prices rate rows settings = record {
  adult = row_or (admission rows "12 years") rate settings.entry_adult;
  child = row_or (admission rows "6 to 11") rate settings.entry_child;
}

pub record EntryCoverage : Type 0 where
  pub adults : ℕ
  pub kids : ℕ
  pub family : Option String

abbrev family_name : Option Product → Option String
family_name none = none
family_name (some p) = some p.family

-- The family of the product that an item names.
unfoldable pub family_of : List Product → String → Option String
family_of products id =
    if is_product_id id
    then family_name (find (λ (p : Product). str_eq p.key (product_key_of id)) products)
    else none

-- The variables of the loop.
pub record Covered : Type 0 where
  pub sum_a : ℕ
  pub sum_k : ℕ
  pub max_a : ℕ
  pub max_k : ℕ
  pub family : Option String

abbrev pub not_covered : Covered
not_covered = record { sum_a = 0; sum_k = 0; max_a = 0; max_k = 0; family = none }

-- A covering line: pupils overlap, other guests add up.
abbrev pub cover_line : String → ℕ → ℕ → Covered → Covered
cover_line f a k c =
    if str_eq f "student"
    then record c {
      max_a = max c.max_a a;
      max_k = max c.max_k k;
      family = some (or_default c.family f);
    }
    else record c {
      sum_a = c.sum_a + a;
      sum_k = c.sum_k + k;
      family = some (or_default c.family f);
    }

abbrev pub cover_family : Option String → PricingItem → Covered → Covered
cover_family none item c = c
cover_family (some f) item c =
    if entry_included f then cover_line f (or_zero item.adults) (or_zero item.kids) c else c

unfoldable pub cover_items : List Product → List PricingItem → Covered → Covered
cover_items products [] c = c
cover_items products (item ∷ items) c =
    cover_items products items (cover_family (family_of products item.id) item c)

unfoldable pub entry_coverage : List PricingItem → List Product → ℕ → ℕ → EntryCoverage
entry_coverage items products adults kids =
    let c = cover_items products items not_covered in
    record {
      adults = min adults (c.sum_a + c.max_a);
      kids = min kids (c.sum_k + c.max_k);
      family = c.family;
    }

abbrev included_with : Option String → String
included_with none = "included"
included_with (some f) =
    if str_eq f "student"
    then "included with the student rate"
    else if str_eq f "expo"
    then "included with the expo deal"
    else if str_eq f "senior"
    then "included with the senior package"
    else "included"

unfoldable pub park_entry_line : PricingInput → ℕ → EntryCoverage → PricedLine
park_entry_line input amount cover =
    let pay_a = input.adults - cover.adults in
    let pay_k = input.kids - cover.kids in
    let what =
      if ltb 0 (cover.adults + cover.kids)
      then (if pay_a + pay_k == 0 then included_with cover.family else party_label pay_a pay_k 0)
      else party_label input.adults input.kids (or_zero input.infants) in
    record {
      experience_id = none;
      product_key = none;
      variant = "";
      label = concat ("Park entry · " ∷ what ∷ []);
      time = none;
      adults = input.adults;
      kids = input.kids;
      units = 0;
      amount = amount;
    }
