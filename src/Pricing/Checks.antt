-- ===== src/Pricing/Checks.antt =====
-- bookings/pricing.ts: what the checks of the lines accept, exactly.
use valle_web_backend.Prelude.{
  ◌≡◌, refl, String, some, List, [], ◌∷◌, true, false, ◌&&◌, not, any, arith, All,
}
use valle_web_backend.Prelude.Text.{or_empty}
use valle_web_backend.Prelude.Http.{ok, returned}
use valle_web_backend.Prelude.Traverse.{traverse-All, traverse-total}
use valle_web_backend.Pricing.Types.{
  PricingExperience, PricingItem, PricingPriceRow, PricingInput, Product,
}
use valle_web_backend.Pricing.Product.{product_key_of}
use valle_web_backend.Pricing.Validate.{
  map_get, other_rate, outside_window, BookedProduct, BookedExperience, book_product,
  booked_products, line_key, contains, has_variant, is_option, book_experience, book_experiences,
}

-- An experience line names a known experience and, if it has one, a known option of it.
abbrev pub IsKnownLine : List PricingExperience → List PricingPriceRow → PricingItem → Type 0
IsKnownLine experiences rows item =
    (exp : PricingExperience) × (map_get (λ (e : PricingExperience). e.id) item.id experiences
      ≡ some exp)
    × ((has_variant item && not (any (is_option item.id (or_empty item.variant)) rows)) ≡ false)

-- A product line names an active product, of this rate, on the visit date.
abbrev pub IsOpenProduct : List Product → PricingInput → PricingItem → Type 0
IsOpenProduct products input item =
    (p : Product) × (map_get (λ (q : Product). q.key) (product_key_of item.id) products ≡ some p)
    × (p.active ≡ true)
    × (other_rate p.rate_only input.rate ≡ false)
    × (outside_window input.visit_date p ≡ false)

-- No two lines have one experience and option, nor one of the keys given.
abbrev pub HasFreshKeys : List String → List PricingItem → Type 0
HasFreshKeys seen [] = Unit
HasFreshKeys seen (item ∷ items) =
    (contains seen (line_key item) ≡ false) × HasFreshKeys (line_key item ∷ seen) items

module _ (experiences : List PricingExperience) (rows : List PricingPriceRow) where
  pub book_experience-ok :
      (seen : List String) (item : PricingItem) (b : BookedExperience)
      → book_experience experiences rows seen item ≡ ok b
      → (contains seen (line_key item) ≡ false)
        × (b.item ≡ item)
        × (map_get (λ (e : PricingExperience). e.id) item.id experiences ≡ some b.exp)
        × ((has_variant item && not (any (is_option item.id (or_empty item.variant)) rows)) ≡ false)
  unfolding book_experience
  book_experience-ok seen item b h = ground arith

  pub book_experience-total :
      (seen : List String) (item : PricingItem)
      → contains seen (line_key item) ≡ false
      → (k : IsKnownLine experiences rows item)
      → book_experience experiences rows seen item ≡ ok (record { item = item; exp = k.0 })
  unfolding book_experience
  book_experience-total seen item fresh (exp, known, option) = rw (fresh, known, option) refl

  pub book_experiences-cons :
      (seen : List String) (item : PricingItem) (items : List PricingItem)
      {es : List BookedExperience}
      → book_experiences experiences rows seen (item ∷ items) ≡ ok es
      → (b : BookedExperience) × (rest : List BookedExperience) × (book_experience experiences rows
            seen item
          ≡ ok b)
        × (book_experiences experiences rows (line_key item ∷ seen) items ≡ ok rest)
        × (b ∷ rest ≡ es)
  unfolding book_experiences
  book_experiences-cons seen item items h =
      let (b, e, h') = returned (book_experience experiences rows seen item) _ h in
      let (rest, r, h'') =
        returned (book_experiences experiences rows (line_key item ∷ seen) items) _ h' in
      (b, rest, e, r, cc h'')

  pub book_experiences-accepts :
      (seen : List String) (items : List PricingItem) {es : List BookedExperience}
      → book_experiences experiences rows seen items ≡ ok es
      → HasFreshKeys seen items × All (IsKnownLine experiences rows) items
  book_experiences-accepts seen [] h = (tt, tt)
  book_experiences-accepts seen (item ∷ items) h =
      let (b, rest, e, r, _) = book_experiences-cons seen item items h in
      let (fresh, _, known, option) = book_experience-ok seen item b e in
      let (more_fresh, more_known) = book_experiences-accepts (line_key item ∷ seen) items r in
      ((fresh, more_fresh), ((b.exp, known, option), more_known))

  pub book_experiences-total :
      (seen : List String) (items : List PricingItem)
      → HasFreshKeys seen items
      → All (IsKnownLine experiences rows) items
      → (es : List BookedExperience) × (book_experiences experiences rows seen items ≡ ok es)
  unfolding book_experiences
  book_experiences-total seen [] f k = ([], refl)
  book_experiences-total seen (item ∷ items) (fresh, f) (known, k) =
      let (es, r) = book_experiences-total (line_key item ∷ seen) items f k in
      (
        record { item = item; exp = known.0 } ∷ es,
        rw (book_experience-total seen item fresh known, r) refl,
      )

module _ (products : List Product) (input : PricingInput) where
  pub book_product-ok :
      (item : PricingItem) (b : BookedProduct)
      → book_product products input item ≡ ok b
      → (b.item ≡ item)
        × (map_get (λ (q : Product). q.key) (product_key_of item.id) products ≡ some b.product)
        × (b.product.active ≡ true)
        × (other_rate b.product.rate_only input.rate ≡ false)
        × (outside_window input.visit_date b.product ≡ false)
  unfolding book_product
  book_product-ok item b h = ground arith

  pub book_product-total :
      (item : PricingItem) (k : IsOpenProduct products input item)
      → book_product products input item ≡ ok (record { item = item; product = k.0 })
  unfolding book_product
  book_product-total item (p, known, active, rate, window) = rw (known, rate, window) (ground arith)

  pub booked_products-accepts :
      (items : List PricingItem) {ps : List BookedProduct}
      → booked_products items products input ≡ ok ps
      → All (IsOpenProduct products input) items
  unfolding booked_products
  booked_products-accepts items h =
      accepted items (traverse-All (book_product products input) items h)
    where
      accepted :
          (xs : List PricingItem)
          → All (λ x. (b : BookedProduct) × (book_product products input x ≡ ok b)) xs
          → All (IsOpenProduct products input) xs
      accepted [] _ = tt
      accepted (x ∷ xs) ((b, e), a) =
          let (_, known, active, rate, window) = book_product-ok x b e in
          ((b.product, known, active, rate, window), accepted xs a)

  pub booked_products-total :
      (items : List PricingItem)
      → All (IsOpenProduct products input) items
      → (ps : List BookedProduct) × (booked_products items products input ≡ ok ps)
  unfolding booked_products
  booked_products-total items a =
      traverse-total (book_product products input) items (results items a)
    where
      results :
          (xs : List PricingItem)
          → All (IsOpenProduct products input) xs
          → All (λ x. (b : BookedProduct) × (book_product products input x ≡ ok b)) xs
      results [] _ = tt
      results (x ∷ xs) (k, a') =
          ((record { item = x; product = k.0 }, book_product-total x k), results xs a')
