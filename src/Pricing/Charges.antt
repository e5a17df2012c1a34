-- ===== src/Pricing/Charges.antt =====
-- bookings/pricing.ts: what each item costs by itself, and that the priced lines charge just that.
use valle_web_backend.Prelude.{
  ℕ, ◌+◌, ◌≡◌, refl, String, Option, none, some, List, [], ◌∷◌, arith, sum_of, max, or_zero,
  if◌then◌else◌,
}
use valle_web_backend.Prelude.Http.{ok, traverse}
use valle_web_backend.Prelude.Traverse.{traverse-sum}
use valle_web_backend.Pricing.Types.{
  Rate, PricingExperience, PricingItem, PricingPriceRow, PricingInput, Product,
}
use valle_web_backend.Pricing.Product.{is_product_id, product_key_of, product_amount}
use valle_web_backend.Pricing.Validate.{
  map_get, BookedProduct, BookedExperience, book_product, booked_products, line_key,
  book_experiences,
}
use valle_web_backend.Pricing.Checks.{book_experience-ok, book_experiences-cons, book_product-ok}
use valle_web_backend.Pricing.Lines.{
  unit_price, line_amount, experience_line, sold_line, is_flat_product, product_line,
}
use valle_web_backend.Pricing.Pass.{PricedExperience}
use valle_web_backend.Pricing.Compute.{insert_by_order, by_order, price_experience}

-- What a line of an experience costs.
abbrev pub booked_charge : Rate → List PricingPriceRow → BookedExperience → ℕ
booked_charge rate rows b =
    line_amount b.exp.price_mode (unit_price b.exp b.item rate rows) (or_zero b.item.adults)
      (or_zero b.item.kids) (or_zero b.item.units)

abbrev charge_of : Rate → List PricingPriceRow → PricingItem → Option PricingExperience → ℕ
charge_of rate rows item none = 0
charge_of rate rows item (some exp) = booked_charge rate rows (record { item = item; exp = exp })

abbrev pub experience_charge :
    List PricingExperience → List PricingPriceRow → Rate → PricingItem → ℕ
experience_charge experiences rows rate item =
    charge_of rate rows item (map_get (λ (e : PricingExperience). e.id) item.id experiences)

abbrev product_units : Product → PricingItem → ℕ
product_units p item = if is_flat_product p.mode then max 1 (or_zero item.units) else 0

abbrev product_charge_of : Rate → PricingItem → Option Product → ℕ
product_charge_of rate item none = 0
product_charge_of rate item (some p) =
    product_amount p rate (or_zero item.adults) (or_zero item.kids) (product_units p item)

abbrev pub product_charge : List Product → Rate → PricingItem → ℕ
product_charge products rate item =
    product_charge_of rate item (map_get (λ (p : Product). p.key) (product_key_of item.id) products)

-- What an item costs by itself: as a product, or as an experience.
abbrev pub item_charge :
    List PricingExperience → List PricingPriceRow → List Product → Rate → PricingItem → ℕ
item_charge experiences rows products rate item =
    if is_product_id item.id
    then product_charge products rate item
    else experience_charge experiences rows rate item

-- The sort keeps every sum.
module _ (f : BookedExperience → ℕ) where
  sum-insert_by_order :
      (x : BookedExperience) (ys : List BookedExperience)
      → sum_of f (insert_by_order x ys) ≡ f x + sum_of f ys
  unfolding insert_by_order
  sum-insert_by_order x [] = refl
  sum-insert_by_order x (y ∷ ys) = ground (arith, sum-insert_by_order x ys)

  pub sum-by_order : (xs : List BookedExperience) → sum_of f (by_order xs) ≡ sum_of f xs
  unfolding by_order
  sum-by_order [] = refl
  sum-by_order (x ∷ xs) = omega (arith, sum-insert_by_order x (by_order xs), sum-by_order xs)

amount-price_experience :
    (rate : Rate) (rows : List PricingPriceRow) (b : BookedExperience) (x : PricedExperience)
    → price_experience rate rows b ≡ ok x
    → x.line.amount ≡ booked_charge rate rows b
unfolding price_experience experience_line sold_line
amount-price_experience rate rows b x h = ground arith

pub sum-priced :
    (rate : Rate) (rows : List PricingPriceRow) (bs : List BookedExperience)
    (priced : List PricedExperience)
    → traverse (price_experience rate rows) bs ≡ ok priced
    → sum_of (λ x. x.line.amount) priced ≡ sum_of (booked_charge rate rows) bs
sum-priced rate rows bs priced h =
    traverse-sum (price_experience rate rows) (λ x. x.line.amount) (booked_charge rate rows)
      (amount-price_experience rate rows) bs priced h

module _ (experiences : List PricingExperience) (rows : List PricingPriceRow) (rate : Rate) where
  charge-booked :
      (item : PricingItem) (b : BookedExperience)
      → b.item ≡ item
      → map_get (λ (e : PricingExperience). e.id) item.id experiences ≡ some b.exp
      → booked_charge rate rows b ≡ experience_charge experiences rows rate item
  charge-booked item b same known = rw known (rw (← same) refl)

  pub sum-book_experiences :
      (seen : List String) (items : List PricingItem) {es : List BookedExperience}
      → book_experiences experiences rows seen items ≡ ok es
      → sum_of (booked_charge rate rows) es ≡ sum_of (experience_charge experiences rows rate) items
  sum-book_experiences seen [] h = rw (← nil_booked h) refl
    where
      nil_booked :
          {es : List BookedExperience} → book_experiences experiences rows seen [] ≡ ok es → [] ≡ es
      nil_booked e = unfold book_experiences in cc e
  sum-book_experiences seen (item ∷ items) h =
      let (b, rest, e, r, q) = book_experiences-cons experiences rows seen item items h in
      let (_, same, known, _) = book_experience-ok experiences rows seen item b e in
      rw (← q) (
        omega (
          arith,
          charge-booked item b same known,
          sum-book_experiences (line_key item ∷ seen) items r,
        ))

amount-product_line :
    (products : List Product) (input : PricingInput) (item : PricingItem) (b : BookedProduct)
    → book_product products input item ≡ ok b
    → (product_line b.product b.item input.rate).amount ≡ product_charge products input.rate item
unfolding product_line
amount-product_line products input item b h =
    let (same, known, _, _, _) = book_product-ok products input item b h in
    rw known (rw (← same) refl)

pub sum-booked_products :
    (products : List Product) (input : PricingInput) (items : List PricingItem)
    (ps : List BookedProduct)
    → booked_products items products input ≡ ok ps
    → sum_of (λ (b : BookedProduct). (product_line b.product b.item input.rate).amount) ps
      ≡ sum_of (product_charge products input.rate) items
unfolding booked_products
sum-booked_products products input items ps h =
    traverse-sum (book_product products input) _ (product_charge products input.rate)
      (amount-product_line products input) items ps h
