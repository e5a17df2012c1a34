-- ===== src/Pricing/Sums.antt =====
-- bookings/pricing.ts: what the figures of a computed booking add up to.
use valle_web_backend.Prelude.{
  ℕ, ◌+◌, ◌≤◌, ◌≡◌, refl, List, [], ◌∷◌, ◌++◌, map, arith, sum_of, sum_of-append, sum_of-map,
  sum_of-filter-le, sum_of-split,
}
use valle_web_backend.Prelude.Http.{ok, returned}
use valle_web_backend.Prelude.Http.{traverse}
use valle_web_backend.Pricing.Types.{
  PricingExperience, PricingSettings, PricingItem, PricingPriceRow, PricingInput, PricedLine,
  PricedBooking, Product,
}
use valle_web_backend.Pricing.Product.{is_product_id}
use valle_web_backend.Pricing.Coverage.{entry_coverage, park_entry_line}
use valle_web_backend.Pricing.Validate.{
  BookedExperience, BookedProduct, booked_products, booked_experiences,
}
use valle_web_backend.Pricing.Lines.{product_line}
use valle_web_backend.Pricing.Pass.{
  PricedExperience, explorer_pass, adv_subtotal, counts_for_explorer_pass,
}
use valle_web_backend.Pricing.Charges.{
  item_charge, experience_charge, product_charge, booked_charge, sum-by_order, sum-priced,
  sum-book_experiences, sum-booked_products,
}
use valle_web_backend.Pricing.Compute.{
  by_order, price_experience, entry_amount, total_up, product_items, experience_items,
  compute_booking,
}

-- The parts that a successful computation puts together.
pub record Parts (experiences : List PricingExperience) (settings : PricingSettings)
    (input : PricingInput) (rows : List PricingPriceRow) (products : List Product)
    (b : PricedBooking) : Type 0 where
  pub ps : List BookedProduct
  pub es : List BookedExperience
  pub priced : List PricedExperience
  pub ps_ok : booked_products (product_items input) products input ≡ ok ps
  pub es_ok : booked_experiences (experience_items input) experiences rows ≡ ok es
  pub priced_ok : traverse (price_experience input.rate rows) (by_order es) ≡ ok priced
  pub total_ok :
      total_up
        (park_entry_line input
          (entry_amount settings input rows
            (entry_coverage input.items products input.adults input.kids))
          (entry_coverage input.items products input.adults input.kids))
        (entry_amount settings input rows
          (entry_coverage input.items products input.adults input.kids))
        priced
        (map (λ (p : BookedProduct). product_line p.product p.item input.rate) ps)
      ≡ b

module _ (experiences : List PricingExperience) (settings : PricingSettings) (input : PricingInput)
    (rows : List PricingPriceRow) (products : List Product) where
  pub compute-Parts :
      {b : PricedBooking}
      → compute_booking experiences settings input rows products ≡ ok b
      → Parts experiences settings input rows products b
  unfolding compute_booking
  compute-Parts h =
      let (ps, e₁, h₁) = returned (booked_products (product_items input) products input) _ h in
      let (es, e₂, h₂) =
        returned (booked_experiences (experience_items input) experiences rows) _ h₁ in
      let (priced, e₃, h₃) =
        returned (traverse (price_experience input.rate rows) (by_order es)) _ h₂ in
      record {
        ps = ps;
        es = es;
        priced = priced;
        ps_ok = e₁;
        es_ok = e₂;
        priced_ok = e₃;
        total_ok = cc h₃;
      }

-- The pass takes off no more than the adventures cost.
discount-le :
    (priced : List PricedExperience) → (explorer_pass priced).discount ≤ adv_subtotal priced
unfolding explorer_pass
discount-le priced = ground arith

module _ (entry_line : PricedLine) (entry : ℕ) (priced : List PricedExperience)
    (ls : List PricedLine) where
  lines-total_up :
      sum_of (λ l. l.amount) (entry_line ∷ map (λ x. x.line) priced ++ ls)
      ≡ entry_line.amount + sum_of (λ x. x.line.amount) priced + sum_of (λ l. l.amount) ls
  lines-total_up = omega (
    arith,
    sum_of-append (λ (l : PricedLine). l.amount) (map (λ x. x.line) priced) ls,
    sum_of-map (λ (l : PricedLine). l.amount) (λ (x : PricedExperience). x.line) priced,
  )

  pub total_up_lem :
      let b = total_up entry_line entry priced ls in
      (b.total + b.discount ≡ b.subtotal)
      × (b.subtotal
          ≡ entry_line.amount + sum_of (λ x. x.line.amount) priced + sum_of (λ l. l.amount) ls)
  unfolding total_up
  total_up_lem = omega (
    arith,
    lines-total_up,
    discount-le priced,
    sum_of-filter-le (λ (x : PricedExperience). x.line.amount) counts_for_explorer_pass priced,
  )

module _ (experiences : List PricingExperience) (settings : PricingSettings) (input : PricingInput)
    (rows : List PricingPriceRow) (products : List Product) where
  lines_of : List BookedProduct → List PricedLine
  lines_of ps = map (λ (p : BookedProduct). product_line p.product p.item input.rate) ps

  -- The items' own charges are those of the priced lines.
  charged :
      (b : PricedBooking) (p : Parts experiences settings input rows products b)
      → sum_of (item_charge experiences rows products input.rate) input.items
        ≡ sum_of (λ x. x.line.amount) p.priced + sum_of (λ l. l.amount) (lines_of p.ps)
  unfolding booked_experiences lines_of
  charged b p = omega (
    arith,
    sum_of-split (λ (i : PricingItem). is_product_id i.id) (product_charge products input.rate)
        (experience_charge experiences rows input.rate) input.items,
    sum-booked_products products input (product_items input) p.ps p.ps_ok,
    sum_of-map (λ (l : PricedLine). l.amount)
        (λ (q : BookedProduct). product_line q.product q.item input.rate) p.ps,
    sum-book_experiences experiences rows input.rate [] (experience_items input) p.es_ok,
    sum-by_order (booked_charge input.rate rows) p.es,
    sum-priced input.rate rows (by_order p.es) p.priced p.priced_ok,
  )

  -- When a booking is priced, its subtotal is the price of park entry and, for each requested item,
  -- what that item costs by itself (a product's price for its counts, or an experience's price, with
  -- its option, for its counts), whatever the order of the lines; total and discount add up to the
  -- subtotal, and the subtotal is the sum of the printed lines.
  pub compute_booking-sums :
      (b : PricedBooking)
      → compute_booking experiences settings input rows products ≡ ok b
      → (b.subtotal
          ≡ b.entry + sum_of (item_charge experiences rows products input.rate) input.items)
        × (b.total + b.discount ≡ b.subtotal)
        × (sum_of (λ l. l.amount) b.lines ≡ b.subtotal)
        × (b.entry
            ≡ entry_amount settings input rows
                (entry_coverage input.items products input.adults input.kids))
  unfolding park_entry_line lines_of total_up
  compute_booking-sums b h =
      let p = compute-Parts experiences settings input rows products h in
      let cover = entry_coverage input.items products input.adults input.kids in
      let entry = entry_amount settings input rows cover in
      let (totals, subtotals) =
        total_up_lem (park_entry_line input entry cover) entry p.priced (lines_of p.ps) in
      rw (← p.total_ok) (omega (arith, subtotals, charged b p), totals, refl, refl)
