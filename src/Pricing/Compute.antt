-- ===== src/Pricing/Compute.antt =====
-- bookings/pricing.ts: computeBooking.
use valle_web_backend.Prelude.{
  ℕ, ◌+◌, ◌-◌, ◌*◌, List, [], ◌∷◌, ◌++◌, map, not, filter, sum_of, leb, if◌then◌else◌,
}
use valle_web_backend.Prelude.Http.{Result, ok, ◌>>=◌, traverse}
use valle_web_backend.Pricing.Types.{
  Rate, PricingExperience, PricingSettings, PricingItem, PricingPriceRow, PricingInput, PricedLine,
  PricedBooking, Product,
}
use valle_web_backend.Pricing.Product.{is_product_id}
use valle_web_backend.Pricing.Coverage.{
  entry_prices, entry_coverage, park_entry_line, EntryCoverage,
}
use valle_web_backend.Pricing.Validate.{
  BookedExperience, BookedProduct, booked_products, booked_experiences,
}
use valle_web_backend.Pricing.Lines.{experience_line, product_line}
use valle_web_backend.Pricing.Pass.{PricedExperience, explorer_pass}

-- The stable sort by catalog order: an item stands before the later ones of the same order.
unfoldable pub insert_by_order : BookedExperience → List BookedExperience → List BookedExperience
insert_by_order x [] = x ∷ []
insert_by_order x (y ∷ ys) =
    let later = y ∷ insert_by_order x ys in
    if leb x.exp.sort_order y.exp.sort_order then x ∷ y ∷ ys else later

unfoldable pub by_order : List BookedExperience → List BookedExperience
by_order [] = []
by_order (x ∷ xs) = insert_by_order x (by_order xs)

unfoldable pub price_experience :
    Rate → List PricingPriceRow → BookedExperience → Result PricedExperience
price_experience rate rows b = do
  line ← experience_line b.exp b.item rate rows
  ok (record { exp = b.exp; line = line })

-- The price of entry for the people whose lines do not include it.
unfoldable pub entry_amount :
    PricingSettings → PricingInput → List PricingPriceRow → EntryCoverage → ℕ
entry_amount settings input rows cover =
    let per_head = entry_prices input.rate rows settings in
    per_head.adult * (input.adults - cover.adults) + per_head.child * (input.kids - cover.kids)

-- The priced booking, from the park entry line, the priced experiences and the product lines.
unfoldable pub total_up : PricedLine → ℕ → List PricedExperience → List PricedLine → PricedBooking
total_up entry_line entry priced products =
    let lines = entry_line ∷ map (λ x. x.line) priced ++ products in
    let subtotal = sum_of (λ l. l.amount) lines in
    let pass = explorer_pass priced in
    record {
      lines = lines;
      entry = entry;
      subtotal = subtotal;
      discount = pass.discount;
      total = subtotal - pass.discount;
      adv_count = pass.adv_count;
    }

abbrev pub product_items : PricingInput → List PricingItem
product_items input = filter (λ i. is_product_id i.id) input.items

abbrev pub experience_items : PricingInput → List PricingItem
experience_items input = filter (λ i. not (is_product_id i.id)) input.items

unfoldable pub compute_booking :
    List PricingExperience
    → PricingSettings
    → PricingInput
    → List PricingPriceRow
    → List Product
    → Result PricedBooking
compute_booking experiences settings input rows products = do
  let cover = entry_coverage input.items products input.adults input.kids
  let entry = entry_amount settings input rows cover
  products_booked ← booked_products (product_items input) products input
  experiences_booked ← booked_experiences (experience_items input) experiences rows
  priced ← traverse (price_experience input.rate rows) (by_order experiences_booked)
  ok (
      total_up (park_entry_line input entry cover) entry priced
        (map (λ (b : BookedProduct). product_line b.product b.item input.rate) products_booked))
