-- ===== src/Pricing/Discounts.antt =====
-- bookings/pricing.ts: what the Explorer Pass and an adjustment take off.
use valle_web_backend.Prelude.{
  ℕ, ◌+◌, ◌*◌, ◌≤◌, ◌<◌, ◌≡◌, ◌≢◌, refl, sym, ◌∙◌, String, List, [], ◌∷◌, true, false, map, filter,
  length, arith, leb, Bool-cases, inl, inr, eq_iff,
}
use valle_web_backend.Prelude.Http.{ok}
use valle_web_backend.Pricing.Types.{
  AdjustmentKind, PricingExperience, PricingSettings, PricingInput, PricingPriceRow, PricedBooking,
  Product,
}
use valle_web_backend.Pricing.Compute.{compute_booking}
use valle_web_backend.Pricing.Sums.{compute_booking-sums}
use valle_web_backend.Pricing.Adjust.{adjustment_amount}
use valle_web_backend.Pricing.Validate.{contains}
use valle_web_backend.Pricing.Pass.{
  PricedExperience, counts_for_explorer_pass, distinct, adv_subtotal, explorer_pass,
}

module _ (experiences : List PricingExperience) (settings : PricingSettings) (input : PricingInput)
    (rows : List PricingPriceRow) (products : List Product) where
  -- For a priced booking, no adjustment takes off more than its total, and a pass takes off exactly
  -- the total.
  pub adjustment_amount-le-total :
      (kind : AdjustmentKind) (value : ℕ) (b : PricedBooking)
      → compute_booking experiences settings input rows products ≡ ok b
      → (adjustment_amount kind value b ≤ b.total)
        × (adjustment_amount AdjustmentKind.foc value b ≡ b.total)
  unfolding adjustment_amount
  adjustment_amount-le-total kind value b h =
      let (_, whole, _, _) = compute_booking-sums experiences settings input rows products b h in
      ground arith

contains-distinct : (xs : List String) (k : String) → contains (distinct xs) k ≡ contains xs k
unfolding distinct
contains-distinct [] k = refl
contains-distinct (x ∷ xs) k =
    ground (arith, contains-distinct xs k, contains-distinct xs x, eq_iff x k)

abbrev IsDistinct : List String → Type 0
IsDistinct [] = Unit
IsDistinct (x ∷ xs) = (contains xs x ≡ false) × IsDistinct xs

distinct-IsDistinct : (xs : List String) → IsDistinct (distinct xs)
unfolding distinct
distinct-IsDistinct [] = tt
distinct-IsDistinct (x ∷ xs) = ground (arith, distinct-IsDistinct xs)

-- Three different texts stand in the list.
abbrev pub HasThree : List String → Type 0
HasThree xs =
    (x : String) × (y : String) × (z : String) × (contains xs x ≡ true)
    × (contains xs y ≡ true)
    × (contains xs z ≡ true)
    × (x ≢ y)
    × (y ≢ z)
    × (x ≢ z)

three-le-length : (xs : List String) → HasThree xs → 3 ≤ length xs
three-le-length [] (x, y, z, cx, cy, cz, xy, yz, xz) = absurd (ground arith)
three-le-length (a ∷ []) (x, y, z, cx, cy, cz, xy, yz, xz) =
    absurd (ground (arith, eq_iff a x, eq_iff a y))
three-le-length (a ∷ b ∷ []) (x, y, z, cx, cy, cz, xy, yz, xz) =
    absurd (ground (arith, eq_iff a x, eq_iff a y, eq_iff a z, eq_iff b x, eq_iff b y, eq_iff b z))
three-le-length (a ∷ b ∷ c ∷ xs) _ = omega arith

three_of_length : (xs : List String) → IsDistinct xs → 3 ≤ length xs → HasThree xs
three_of_length [] d h = absurd (omega arith)
three_of_length (a ∷ []) d h = absurd (omega arith)
three_of_length (a ∷ b ∷ []) d h = absurd (omega arith)
three_of_length (a ∷ b ∷ c ∷ xs) d h = (
  a,
  b,
  c,
  ground (arith, eq_iff a a),
  ground (arith, eq_iff b b, eq_iff a b),
  ground (arith, eq_iff c c),
  ground (arith, eq_iff b a),
  ground (arith, eq_iff c b),
  ground (arith, eq_iff c a),
)

-- The experiences that count: adventures priced per person that cost something.
abbrev pub counted_ids : List PricedExperience → List String
counted_ids priced = map (λ x. x.exp.id) (filter counts_for_explorer_pass priced)

HasThree-distinct : (xs : List String) → HasThree xs → HasThree (distinct xs)
HasThree-distinct xs (x, y, z, cx, cy, cz, xy, yz, xz) = (
  x,
  y,
  z,
  contains-distinct xs x ∙ cx,
  contains-distinct xs y ∙ cy,
  contains-distinct xs z ∙ cz,
  xy,
  yz,
  xz,
)

distinct-HasThree : (xs : List String) → HasThree (distinct xs) → HasThree xs
distinct-HasThree xs (x, y, z, cx, cy, cz, xy, yz, xz) = (
  x,
  y,
  z,
  sym (contains-distinct xs x) ∙ cx,
  sym (contains-distinct xs y) ∙ cy,
  sym (contains-distinct xs z) ∙ cz,
  xy,
  yz,
  xz,
)

-- With three different experiences that count, the pass takes off fifteen percent of what all the
-- lines that count cost, to the nearest rupee, a half rounded up; two options of one experience do not
-- make two experiences.
pub explorer_pass-three :
    (priced : List PricedExperience)
    → HasThree (counted_ids priced)
    → let taken = (explorer_pass priced).discount in
      (taken * 100 ≤ adv_subtotal priced * 15 + 50) × (adv_subtotal priced * 15 < taken * 100 + 50)
unfolding explorer_pass
explorer_pass-three priced three = ground (
  arith,
  three-le-length (distinct (counted_ids priced)) (HasThree-distinct (counted_ids priced) three),
)

-- Without three different experiences that count, the pass takes off nothing.
explorer_pass-few :
    (priced : List PricedExperience)
    → ¬ HasThree (counted_ids priced)
    → (explorer_pass priced).discount ≡ 0
unfolding explorer_pass
explorer_pass-few priced few = elim (Bool-cases (leb 3 (length (distinct (counted_ids priced))))) [
  | inl enough ↦ absurd (
      few (
        distinct-HasThree (counted_ids priced) (
          three_of_length (distinct (counted_ids priced)) (distinct-IsDistinct (counted_ids priced))
            (ground arith))))
  | inr fewer ↦ rw fewer refl
]
