-- ===== src/Pricing/Lines.antt =====
-- bookings/pricing.ts: the priced line of an experience and of a product.
use valle_web_backend.Prelude.{
  ℕ, ◌+◌, ◌*◌, ◌/◌, String, Option, none, some, List, [], ◌∷◌, Bool, true, false, find, max,
  or_zero, if◌then◌else◌, str_eq,
}
use valle_web_backend.Prelude.Text.{concat, decimal, or_empty, is_filled, trim, without_slash}
use valle_web_backend.Prelude.Http.{Result, ok, err, bad_request}
use valle_web_backend.Pricing.Types.{
  Rate, PricingExperience, PricingItem, PricingPriceRow, PricedLine, Product, PriceMode,
  ProductMode,
}
use valle_web_backend.Pricing.Product.{product_amount}
use valle_web_backend.Pricing.Party.{party_label, price_for, rate_of}
use valle_web_backend.Pricing.Validate.{has_variant, is_option}

abbrev pub is_flat : PriceMode → Bool
is_flat PriceMode.flat = true
is_flat _ = false

-- Experiences that come with park entry.
abbrev pub is_included : PriceMode → Bool
is_included PriceMode.entry = true
is_included PriceMode.kiosk = true
is_included _ = false

abbrev option_row : PricingItem → PricingExperience → List PricingPriceRow → Option PricingPriceRow
option_row item exp rows =
    if has_variant item then find (is_option exp.id (or_empty item.variant)) rows else none

abbrev row_price : Option PricingPriceRow → PricingExperience → Rate → ℕ
row_price none exp rate = price_for exp rate
row_price (some row) exp rate = rate_of row rate

unfoldable pub unit_price : PricingExperience → PricingItem → Rate → List PricingPriceRow → ℕ
unit_price exp item rate rows = row_price (option_row item exp rows) exp rate

-- Children pay half, rounded per child: Math.round(price * 0.5).
unfoldable pub line_amount : PriceMode → ℕ → ℕ → ℕ → ℕ → ℕ
line_amount mode price a k u = if is_flat mode then price * u else price * a + (price + 1) / 2 * k

abbrev unit_word : Option String → String
unit_word label =
    if is_filled (or_empty label) then trim (without_slash (or_empty label)) else "unit"

-- " · text", or nothing.
abbrev dotted : String → String
dotted s = if is_filled s then concat (" · " ∷ s ∷ []) else ""

abbrev filled : Option String → Option String
filled s = if is_filled (or_empty s) then s else none

-- The line of an experience that is sold.
unfoldable pub sold_line :
    PricingExperience → PricingItem → Rate → List PricingPriceRow → PricedLine
sold_line exp item rate rows =
    let a = or_zero item.adults in
    let k = or_zero item.kids in
    let u = or_zero item.units in
    let q =
      if is_flat exp.price_mode
      then concat (decimal u ∷ " × " ∷ unit_word exp.flat_label ∷ [])
      else party_label a k 0 in
    record {
      experience_id = some exp.id;
      product_key = none;
      variant = or_empty item.variant;
      label = concat (
          exp.name ∷ dotted (or_empty item.variant) ∷ " · " ∷ q ∷ dotted (or_empty item.time) ∷ []);
      time = filled item.time;
      adults = a;
      kids = k;
      units = u;
      amount = line_amount exp.price_mode (unit_price exp item rate rows) a k u;
    }

unfoldable pub experience_line :
    PricingExperience → PricingItem → Rate → List PricingPriceRow → Result PricedLine
experience_line exp item rate rows =
    if is_included exp.price_mode
    then err (
        bad_request (
          concat (
            "Experience \"" ∷ item.id
            ∷ "\" is included with park entry and cannot be booked as a paid item" ∷ [])))
    else ok (sold_line exp item rate rows)

abbrev pub is_flat_product : ProductMode → Bool
is_flat_product ProductMode.flat = true
is_flat_product _ = false

unfoldable pub product_line : Product → PricingItem → Rate → PricedLine
product_line p item rate =
    let a = or_zero item.adults in
    let k = or_zero item.kids in
    let u : ℕ = if is_flat_product p.mode then max 1 (or_zero item.units) else 0 in
    let q =
      if is_flat_product p.mode
      then concat (decimal u ∷ " × " ∷ (if str_eq p.family "cine" then "film" else "unit") ∷ [])
      else party_label a k 0 in
    record {
      experience_id = none;
      product_key = some p.key;
      variant = "";
      label = concat (p.name ∷ " · " ∷ q ∷ []);
      time = none;
      adults = a;
      kids = k;
      units = u;
      amount = product_amount p rate a k u;
    }
