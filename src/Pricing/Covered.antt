-- ===== src/Pricing/Covered.antt =====
-- bookings/pricing.ts: who is covered by lines that include the entrance, without the loop.
use valle_web_backend.Prelude.{
  ℕ, ◌+◌, ◌≡◌, String, Option, none, some, List, [], ◌∷◌, ◌&&◌, not, arith, sum_of, min, max,
  or_zero, if◌then◌else◌, str_eq,
}
use valle_web_backend.Pricing.Types.{PricingItem, Product}
use valle_web_backend.Pricing.Product.{entry_included}
use valle_web_backend.Pricing.Coverage.{
  family_of, Covered, not_covered, cover_family, cover_items, entry_coverage,
}

abbrev max_of : (PricingItem → ℕ) → List PricingItem → ℕ
max_of f [] = 0
max_of f (x ∷ xs) = max (f x) (max_of f xs)

abbrev as_visitor : Option String → ℕ → ℕ
as_visitor none n = 0
as_visitor (some f) n = if entry_included f && not (str_eq f "student") then n else 0

abbrev as_pupil : Option String → ℕ → ℕ
as_pupil none n = 0
as_pupil (some f) n = if str_eq f "student" then n else 0

-- The guests on expo and senior lines, all different people.
abbrev pub visitors : List Product → (PricingItem → Option ℕ) → List PricingItem → ℕ
visitors products count items =
    sum_of (λ (i : PricingItem). as_visitor (family_of products i.id) (or_zero (count i))) items

-- The pupils on student lines, the same people on each.
abbrev pub pupils : List Product → (PricingItem → Option ℕ) → List PricingItem → ℕ
pupils products count items =
    max_of (λ (i : PricingItem). as_pupil (family_of products i.id) (or_zero (count i))) items

record IsCount (products : List Product) (items : List PricingItem) (c d : Covered) : Type 0 where
  sum_a : d.sum_a ≡ c.sum_a + visitors products (λ i. i.adults) items
  sum_k : d.sum_k ≡ c.sum_k + visitors products (λ i. i.kids) items
  max_a : d.max_a ≡ max c.max_a (pupils products (λ i. i.adults) items)
  max_k : d.max_k ≡ max c.max_k (pupils products (λ i. i.kids) items)

cover_line-IsCount :
    (products : List Product) (item : PricingItem) (c : Covered)
    → IsCount products (item ∷ []) c (cover_family (family_of products item.id) item c)
cover_line-IsCount products item c = ground arith

cover_items-IsCount :
    (products : List Product) (items : List PricingItem) (c : Covered)
    → IsCount products items c (cover_items products items c)
unfolding cover_items
cover_items-IsCount products [] c = omega arith
cover_items-IsCount products (item ∷ items) c =
    let one = cover_line-IsCount products item c in
    let rest =
      cover_items-IsCount products items (cover_family (family_of products item.id) item c) in
    record {
      sum_a = omega (arith, one.sum_a, rest.sum_a);
      sum_k = omega (arith, one.sum_k, rest.sum_k);
      max_a = omega (arith, one.max_a, rest.max_a);
      max_k = omega (arith, one.max_k, rest.max_k);
    }

-- The people whose entrance a request's lines include: the guests of the expo and senior lines added
-- up, and the largest student line, capped at the party, whatever the order of the lines.
pub entry_coverage_lem :
    (items : List PricingItem) (products : List Product) (adults kids : ℕ)
    → let cover = entry_coverage items products adults kids in
      (cover.adults
        ≡ min adults
            (visitors products (λ i. i.adults) items + pupils products (λ i. i.adults) items))
      × (cover.kids
          ≡ min kids (visitors products (λ i. i.kids) items + pupils products (λ i. i.kids) items))
unfolding entry_coverage
entry_coverage_lem items products adults kids =
    let count = cover_items-IsCount products items not_covered in
    (omega (arith, count.sum_a, count.max_a), omega (arith, count.sum_k, count.max_k))
