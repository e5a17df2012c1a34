-- ===== src/Pricing/Party.antt =====
-- bookings/pricing.ts: the party label, the rate-aware price and the discount kinds.
use valle_web_backend.Prelude.{
  ℕ, ◌≡◌, refl, String, Option, none, some, List, [], ◌∷◌, ◌++◌, ltb, ◌==◌, or_default,
  if◌then◌else◌,
}
use valle_web_backend.Prelude.Text.{concat, join, decimal}
use valle_web_backend.Pricing.Types.{Rate, rr, nr, PricingExperience, PricingPriceRow}

abbrev join_parts : List String → String
join_parts [] = "0 adults"
join_parts (s ∷ rest) = join " · " (s ∷ rest)

-- "2 adults · 1 child · 1 under 6".
unfoldable pub party_label : ℕ → ℕ → ℕ → String
unfolding decimal
party_label adults kids infants = join_parts (
    (if ltb 0 adults
      then (if adults == 1 then "1 adult" else concat (decimal adults ∷ " adults" ∷ [])) ∷ []
      else [])
    ++ (if ltb 0 kids
        then (if kids == 1 then "1 child" else concat (decimal kids ∷ " children" ∷ [])) ∷ []
        else [])
    ++ (if ltb 0 infants then concat (decimal infants ∷ " under 6" ∷ []) ∷ [] else []))

abbrev of_rate : Rate → ℕ → Option ℕ → ℕ
of_rate nr p q = or_default q p
of_rate rr p q = p

abbrev with_rr : Option ℕ → PricingExperience → Rate → ℕ
with_rr none exp rate = exp.base_price
with_rr (some p) exp rate = of_rate rate p exp.price_nr

unfoldable pub price_for : PricingExperience → Rate → ℕ
price_for exp rate = with_rr exp.price_rr exp rate

unfoldable pub rate_of : PricingPriceRow → Rate → ℕ
rate_of row rate = elim rate [ nr ↦ row.at_nr | rr ↦ row.at_rr ]

party_label_example : party_label 2 1 1 ≡ "2 adults · 1 child · 1 under 6"
unfolding party_label
party_label_example = refl

party_label_nobody : party_label 0 0 0 ≡ "0 adults"
unfolding party_label
party_label_nobody = refl
