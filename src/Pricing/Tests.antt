-- ===== src/Pricing/Tests.antt =====
-- Runs of bookings/pricing.ts on small catalogs, and the theorems at them.
use valle_web_backend.Prelude.{
  ℕ, ◌≡◌, refl, String, Option, none, some, List, [], ◌∷◌, true, false, eq_iff, ◌≢◌, ◌+◌, ◌*◌, ◌≤◌,
  ◌<◌, sum_of, min, str_eq, ◌↔◌,
}
use valle_web_backend.Prelude.Http.{ok, traverse}
use valle_web_backend.Pricing.Types.{
  rr, PriceMode, ProductMode, AdjustmentKind, PricingExperience, PricingSettings, PricingItem,
  PricingInput, PricedLine, PricedBooking, Product,
}
use valle_web_backend.Pricing.Product.{
  is_product_id, product_key_of, product_valid_on, product_amount,
}
use valle_web_backend.Pricing.Party.{party_label, price_for, rate_of}
use valle_web_backend.Pricing.Coverage.{
  entry_prices, family_of, cover_items, entry_coverage, park_entry_line,
}
use valle_web_backend.Pricing.Validate.{
  book_product, booked_products, line_key, book_experience, book_experiences, booked_experiences,
}
use valle_web_backend.Pricing.Lines.{
  unit_price, line_amount, sold_line, experience_line, product_line,
}
use valle_web_backend.Pricing.Pass.{PricedExperience, distinct, explorer_pass}
use valle_web_backend.Pricing.Compute.{
  insert_by_order, by_order, price_experience, entry_amount, total_up, compute_booking,
}
use valle_web_backend.Pricing.Adjust.{adjustment_amount}
use valle_web_backend.Pricing.Charges.{item_charge}
use valle_web_backend.Pricing.Sums.{compute_booking-sums}
use valle_web_backend.Pricing.Accept.{IsBookable, compute_booking-IsBookable_iff}
use valle_web_backend.Pricing.Covered.{visitors, pupils, entry_coverage_lem}
use valle_web_backend.Pricing.Discounts.{adjustment_amount-le-total, explorer_pass-three}
use valle_web_backend.Prelude.Text.{decimal, trim, without_slash, lower_includes}

abbrev ride : String → ℕ → ℕ → PricingExperience
ride id price order = record {
  id = id;
  name = id;
  category_id = "adventure";
  base_price = price;
  price_mode = PriceMode.pp;
  flat_label = none;
  price_rr = none;
  price_nr = none;
  sort_order = order;
}

abbrev pub rides : List PricingExperience
rides = ride "zipline" 1000 2 ∷ ride "quad" 2000 1 ∷ ride "luge" 501 3 ∷ []

abbrev on_ride : String → ℕ → ℕ → PricingItem
on_ride id a k = record {
  id = id;
  variant = none;
  adults = some a;
  kids = some k;
  units = none;
  time = none;
}

abbrev pub senior_pack : Product
senior_pack = record {
  key = "pkg:senior:1";
  family = "senior";
  name = "Senior pack";
  mode = ProductMode.pair;
  price_rr = 700;
  price_nr = 900;
  dbl_rr = some 1200;
  dbl_nr = none;
  rate_only = none;
  active = true;
  valid_from = none;
  valid_to = some 2026_12_31;
}

abbrev pub park_settings : PricingSettings
park_settings = record { entry_adult = 500; entry_child = 250 }

abbrev pub family_of_three : PricingInput
family_of_three = record {
  adults = 2;
  kids = 1;
  infants = none;
  rate = rr;
  items =
      on_ride "zipline" 2 1
      ∷ on_ride "quad" 2 0
      ∷ on_ride "luge" 0 1
      ∷ on_ride "product:pkg:senior:1" 1 0
      ∷ [];
  visit_date = some 2026_11_30;
}

abbrev line : Option String → Option String → String → ℕ → ℕ → ℕ → PricedLine
line exp product label a k amount = record {
  experience_id = exp;
  product_key = product;
  variant = "";
  label = label;
  time = none;
  adults = a;
  kids = k;
  units = 0;
  amount = amount;
}

abbrev pub expected : PricedBooking
expected = record {
  lines =
      line none none "Park entry · 1 adult · 1 child" 2 1 750
      ∷ line (some "quad") none "quad · 2 adults" 2 0 4000
      ∷ line (some "zipline") none "zipline · 2 adults · 1 child" 2 1 2500
      ∷ line (some "luge") none "luge · 1 child" 0 1 251
      ∷ line none (some "pkg:senior:1") "Senior pack · 1 adult" 1 0 700
      ∷ [];
  entry = 750;
  subtotal = 8201;
  discount = 1013;
  total = 7188;
  adv_count = 3;
}

pub runs : compute_booking rides park_settings family_of_three [] (senior_pack ∷ []) ≡ ok expected
unfolding is_product_id product_key_of product_valid_on product_amount party_label price_for rate_of
    entry_prices family_of cover_items entry_coverage park_entry_line book_product booked_products
    line_key book_experience book_experiences booked_experiences unit_price line_amount sold_line
    experience_line product_line distinct explorer_pass insert_by_order by_order price_experience
    entry_amount total_up compute_booking traverse decimal trim without_slash lower_includes
runs = refl

compute_booking-sums_example :
    (expected.subtotal
      ≡ expected.entry + sum_of (item_charge rides [] (senior_pack ∷ []) rr) family_of_three.items)
    × (expected.total + expected.discount ≡ expected.subtotal)
    × (sum_of (λ (l : PricedLine). l.amount) expected.lines ≡ expected.subtotal)
    × (expected.entry
        ≡ entry_amount park_settings family_of_three []
            (entry_coverage family_of_three.items (senior_pack ∷ []) 2 1))
compute_booking-sums_example =
    compute_booking-sums rides park_settings family_of_three [] (senior_pack ∷ []) expected runs

compute_booking-IsBookable_iff_example :
    ((b : PricedBooking) × (compute_booking rides park_settings family_of_three []
          (senior_pack ∷ [])
        ≡ ok b))
    ↔ IsBookable rides park_settings family_of_three [] (senior_pack ∷ [])
compute_booking-IsBookable_iff_example =
    compute_booking-IsBookable_iff rides park_settings family_of_three [] (senior_pack ∷ [])

adjustment_amount-le-total_example :
    (adjustment_amount AdjustmentKind.percent 10 expected ≤ expected.total)
    × (adjustment_amount AdjustmentKind.foc 10 expected ≡ expected.total)
adjustment_amount-le-total_example =
    adjustment_amount-le-total rides park_settings family_of_three [] (senior_pack ∷ [])
      AdjustmentKind.percent 10 expected runs

abbrev priced_rides : List PricedExperience
priced_rides =
    record { exp = ride "quad" 2000 1; line = line (some "quad") none "quad · 2 adults" 2 0 4000 }
    ∷ record { exp = ride "zipline" 1000 2; line = line (some "zipline") none "zipline" 2 1 2500 }
    ∷ record { exp = ride "luge" 501 3; line = line (some "luge") none "luge · 1 child" 0 1 251 }
    ∷ []

ne_text : (s t : String) → str_eq s t ≡ false → s ≢ t
ne_text s t h e = cc ((eq_iff s t).1 e)

explorer_pass-three_example :
    ((explorer_pass priced_rides).discount * 100 ≤ 6751 * 15 + 50)
    × (6751 * 15 < (explorer_pass priced_rides).discount * 100 + 50)
explorer_pass-three_example = explorer_pass-three priced_rides (
  "quad",
  "zipline",
  "luge",
  refl,
  refl,
  refl,
  ne_text "quad" "zipline" refl,
  ne_text "zipline" "luge" refl,
  ne_text "quad" "luge" refl,
)

-- Two options of one experience, and another.
abbrev two_rides : List PricedExperience
two_rides =
    record { exp = ride "quad" 2000 1; line = line (some "quad") none "quad · short" 2 0 4000 }
    ∷ record { exp = ride "quad" 2000 1; line = line (some "quad") none "quad · long" 2 0 6000 }
    ∷ record { exp = ride "zipline" 1000 2; line = line (some "zipline") none "zipline" 2 1 2500 }
    ∷ []

two_rides_pass : (explorer_pass two_rides).discount ≡ 0
unfolding explorer_pass distinct
two_rides_pass = refl

entry_coverage_lem_example :
    let cover = entry_coverage family_of_three.items (senior_pack ∷ []) 2 1 in
    (cover.adults
      ≡ min 2 (
          visitors (senior_pack ∷ []) (λ i. i.adults) family_of_three.items
          + pupils (senior_pack ∷ []) (λ i. i.adults) family_of_three.items))
    × (cover.kids
        ≡ min 1 (
            visitors (senior_pack ∷ []) (λ i. i.kids) family_of_three.items
            + pupils (senior_pack ∷ []) (λ i. i.kids) family_of_three.items))
entry_coverage_lem_example = entry_coverage_lem family_of_three.items (senior_pack ∷ []) 2 1
