-- ===== src/Pricing/Accept.antt =====
-- bookings/pricing.ts: which requests computeBooking prices, and which it refuses.
use valle_web_backend.Prelude.{
  ◌≡◌, refl, String, some, List, [], ◌∷◌, map, true, false, arith, All, leb, ◌↔◌, if◌then◌else◌,
}
use valle_web_backend.Prelude.Http.{ok}
use valle_web_backend.Prelude.Traverse.{traverse-All, traverse-total}
use valle_web_backend.Pricing.Types.{
  Rate, PricingExperience, PricingSettings, PricingItem, PricingPriceRow, PricingInput,
  PricedBooking, Product,
}
use valle_web_backend.Pricing.Coverage.{entry_coverage, park_entry_line}
use valle_web_backend.Pricing.Validate.{
  map_get, BookedProduct, BookedExperience, book_experiences, booked_experiences, line_key,
}
use valle_web_backend.Pricing.Checks.{
  IsKnownLine, IsOpenProduct, HasFreshKeys, book_experience-ok, book_experiences-cons,
  book_experiences-accepts, book_experiences-total, booked_products-accepts, booked_products-total,
}
use valle_web_backend.Pricing.Lines.{is_included, experience_line, sold_line, product_line}
use valle_web_backend.Pricing.Pass.{PricedExperience}
use valle_web_backend.Pricing.Compute.{
  insert_by_order, by_order, price_experience, product_items, experience_items, compute_booking,
  entry_amount, total_up,
}
use valle_web_backend.Pricing.Sums.{compute-Parts}

-- A booked experience that is sold, and does not come with park entry.
abbrev IsSoldBooked : BookedExperience → Type 0
IsSoldBooked b = is_included b.exp.price_mode ≡ false

-- The experience that the item names is sold.
abbrev pub IsSold : List PricingExperience → PricingItem → Type 0
IsSold experiences item =
    (exp : PricingExperience)
    → map_get (λ (e : PricingExperience). e.id) item.id experiences ≡ some exp
    → is_included exp.price_mode ≡ false

module _ (P : BookedExperience → Type 0) where
  All-insert_by_order :
      (x : BookedExperience) (ys : List BookedExperience)
      → P x
      → All P ys
      → All P (insert_by_order x ys)
  unfolding insert_by_order
  All-insert_by_order x [] px _ = (px, tt)
  All-insert_by_order x (y ∷ ys) px (py, pys) =
      elim (leb x.exp.sort_order y.exp.sort_order)
        as (λ t. All P (if t then x ∷ y ∷ ys else y ∷ insert_by_order x ys)) [
          | true ↦ (px, (py, pys))
          | false ↦ (py, All-insert_by_order x ys px pys)
        ]

  of_insert_by_order :
      (x : BookedExperience) (ys : List BookedExperience)
      → All P (insert_by_order x ys)
      → P x × All P ys
  unfolding insert_by_order
  of_insert_by_order x [] h = h
  of_insert_by_order x (y ∷ ys) h =
      (elim (leb x.exp.sort_order y.exp.sort_order)
          as (λ t.
            All P (if t then x ∷ y ∷ ys else y ∷ insert_by_order x ys) → P x × All P (y ∷ ys)) [
              | true ↦ λ k. k
              | false ↦ λ k. let (px, pys) = of_insert_by_order x ys k.1 in (px, (k.0, pys))
            ])
        h

  All-by_order : (xs : List BookedExperience) → All P xs → All P (by_order xs)
  unfolding by_order
  All-by_order [] _ = tt
  All-by_order (x ∷ xs) (px, pxs) = All-insert_by_order x (by_order xs) px (All-by_order xs pxs)

  of_by_order : (xs : List BookedExperience) → All P (by_order xs) → All P xs
  unfolding by_order
  of_by_order [] _ = tt
  of_by_order (x ∷ xs) h =
      let (px, rest) = of_insert_by_order x (by_order xs) h in (px, of_by_order xs rest)

module _ (rate : Rate) (rows : List PricingPriceRow) where
  price_experience-sold :
      (b : BookedExperience) (x : PricedExperience)
      → price_experience rate rows b ≡ ok x
      → IsSoldBooked b
  unfolding price_experience experience_line
  price_experience-sold b x h = ground arith

  sold-price_experience :
      (b : BookedExperience)
      → IsSoldBooked b
      → (x : PricedExperience) × (price_experience rate rows b ≡ ok x)
  unfolding price_experience experience_line
  sold-price_experience b h =
      (record { exp = b.exp; line = sold_line b.exp b.item rate rows }, rw h refl)

  traverse-sold :
      (bs : List BookedExperience)
      → All (λ b. (x : PricedExperience) × (price_experience rate rows b ≡ ok x)) bs
      → All IsSoldBooked bs
  traverse-sold [] _ = tt
  traverse-sold (b ∷ bs) ((x, e), a) = (price_experience-sold b x e, traverse-sold bs a)

  sold-traverse :
      (bs : List BookedExperience)
      → All IsSoldBooked bs
      → All (λ b. (x : PricedExperience) × (price_experience rate rows b ≡ ok x)) bs
  sold-traverse [] _ = tt
  sold-traverse (b ∷ bs) (s, a) = (sold-price_experience b s, sold-traverse bs a)

module _ (experiences : List PricingExperience) (rows : List PricingPriceRow) where
  IsSold-items :
      (seen : List String) (items : List PricingItem) (es : List BookedExperience)
      → book_experiences experiences rows seen items ≡ ok es
      → All IsSoldBooked es ↔ All (IsSold experiences) items
  IsSold-items seen [] es h = (λ _. tt, λ _. rw (← nil_booked h) tt)
    where
      nil_booked :
          {bs : List BookedExperience} → book_experiences experiences rows seen [] ≡ ok bs → [] ≡ bs
      nil_booked e = unfold book_experiences in cc e
  IsSold-items seen (item ∷ items) es h =
      let (b, rest, e, r, q) = book_experiences-cons experiences rows seen item items h in
      let (_, _, known, _) = book_experience-ok experiences rows seen item b e in
      let (to_items, of_items) = IsSold-items (line_key item ∷ seen) items rest r in
      rw (← q) (
        (λ k. ((λ exp found. ground (arith, k.0)), to_items k.1)),
        (λ k. (k.0 b.exp known, of_items k.1)),
      )

module _ (experiences : List PricingExperience) (settings : PricingSettings) (input : PricingInput)
    (rows : List PricingPriceRow) (products : List Product) where
  -- What a request must meet to be priced.
  pub record IsBookable : Type 0 where
    pub open_products : All (IsOpenProduct products input) (product_items input)
    pub fresh_keys : HasFreshKeys [] (experience_items input)
    pub known_lines : All (IsKnownLine experiences rows) (experience_items input)
    pub sold_lines : All (IsSold experiences) (experience_items input)

  accepted-IsBookable :
      (b : PricedBooking)
      → compute_booking experiences settings input rows products ≡ ok b
      → IsBookable
  unfolding booked_experiences
  accepted-IsBookable b h =
      let p = compute-Parts experiences settings input rows products h in
      let (fresh, known) =
        book_experiences-accepts experiences rows [] (experience_items input) p.es_ok in
      let sold = of_by_order IsSoldBooked p.es (
        traverse-sold input.rate rows (by_order p.es)
          (traverse-All (price_experience input.rate rows) (by_order p.es) p.priced_ok)) in
      record {
        open_products = booked_products-accepts products input (product_items input) p.ps_ok;
        fresh_keys = fresh;
        known_lines = known;
        sold_lines =
            (IsSold-items experiences rows [] (experience_items input) p.es p.es_ok).0 sold;
      }

  IsBookable-accepted :
      IsBookable
      → (b : PricedBooking) × (compute_booking experiences settings input rows products ≡ ok b)
  unfolding booked_experiences compute_booking
  IsBookable-accepted k =
      let (ps, ps_ok) =
        booked_products-total products input (product_items input) k.open_products in
      let (es, es_ok) =
        book_experiences-total experiences rows [] (experience_items input) k.fresh_keys
          k.known_lines in
      let sold =
        (IsSold-items experiences rows [] (experience_items input) es es_ok).1 k.sold_lines in
      let (priced, priced_ok) =
        traverse-total (price_experience input.rate rows) (by_order es)
          (sold-traverse input.rate rows (by_order es) (All-by_order IsSoldBooked es sold)) in
      let cover = entry_coverage input.items products input.adults input.kids in
      let entry = entry_amount settings input rows cover in
      (
        total_up (park_entry_line input entry cover) entry priced
            (map (λ (p : BookedProduct). product_line p.product p.item input.rate) ps),
        rw (ps_ok, es_ok, priced_ok) refl,
      )

  -- A request is priced exactly when each product line names an active product of the rate and date,
  -- each experience line names a known experience and option that is not included with entry, and no
  -- two experience lines have the same experience and option. Otherwise it is refused.
  pub compute_booking-IsBookable_iff :
      ((b : PricedBooking) × (compute_booking experiences settings input rows products ≡ ok b))
      ↔ IsBookable
  compute_booking-IsBookable_iff = (λ (b, h). accepted-IsBookable b h, IsBookable-accepted)
