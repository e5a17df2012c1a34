-- ===== src/Pricing/Pass.antt =====
-- bookings/pricing.ts: the Explorer Pass, 15 % off three or more distinct adventures.
use valle_web_backend.Prelude.{
  ℕ, ◌+◌, ◌*◌, ◌/◌, String, List, [], ◌∷◌, Bool, true, false, ◌&&◌, length, filter, map, sum_of,
  ltb, leb, if◌then◌else◌, str_eq,
}
use valle_web_backend.Pricing.Types.{PricingExperience, PricedLine, PriceMode}
use valle_web_backend.Pricing.Validate.{contains}

pub record PricedExperience : Type 0 where
  pub exp : PricingExperience
  pub line : PricedLine

abbrev pub is_per_person : PriceMode → Bool
is_per_person PriceMode.pp = true
is_per_person _ = false

abbrev pub counts_for_explorer_pass : PricedExperience → Bool
counts_for_explorer_pass x =
    str_eq x.exp.category_id "adventure" && is_per_person x.exp.price_mode && ltb 0 x.line.amount

-- new Set(ids), as a list without repetitions.
unfoldable pub distinct : List String → List String
distinct [] = []
distinct (x ∷ xs) = let rest = distinct xs in if contains rest x then rest else x ∷ rest

pub record ExplorerPass : Type 0 where
  pub discount : ℕ
  pub adv_count : ℕ

abbrev pub adv_subtotal : List PricedExperience → ℕ
adv_subtotal priced = sum_of (λ x. x.line.amount) (filter counts_for_explorer_pass priced)

-- Math.round(sum * 0.15): the product's rounding error is below a half unit in its last place, so it
-- is the sum's fifteen hundredths rounded half up.
unfoldable pub explorer_pass : List PricedExperience → ExplorerPass
explorer_pass priced =
    let n = length (distinct (map (λ x. x.exp.id) (filter counts_for_explorer_pass priced))) in
    record {
      discount = if leb 3 n then (adv_subtotal priced * 15 + 50) / 100 else 0;
      adv_count = n;
    }
