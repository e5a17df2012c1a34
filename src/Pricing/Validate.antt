-- ===== src/Pricing/Validate.antt =====
-- bookings/pricing.ts: which lines can be booked, and the refusal of the others.
use valle_web_backend.Prelude.{
  String, Option, none, some, List, [], ◌∷◌, Bool, true, false, ◌&&◌, not, any, if◌then◌else◌,
  str_eq,
}
use valle_web_backend.Prelude.Text.{concat, or_empty, is_filled}
use valle_web_backend.Prelude.Http.{
  Result, ok, bad_request, ◌>>=◌, ◌>>◌, throw_if, or_throw, traverse,
}
use valle_web_backend.Day.{Day, day_text}
use valle_web_backend.Pricing.Types.{
  Rate, rr, nr, PricingExperience, PricingItem, PricingPriceRow, PricingInput, Product,
}
use valle_web_backend.Pricing.Product.{product_valid_on, product_key_of}

-- new Map(rows.map((r) => [key(r), r])).get(k): the last row with the key.
module _ {ℓ} {A : Type ℓ} where
  abbrev pub map_get : (A → String) → String → List A → Option A
  map_get key k [] = none
  map_get key k (x ∷ xs) = elim (map_get key k xs) [
    | some y ↦ some y
    | none ↦ if str_eq (key x) k then some x else none
  ]

abbrev pub same_rate : Rate → Rate → Bool
same_rate rr rr = true
same_rate nr nr = true
same_rate _ _ = false

abbrev pub other_rate : Option Rate → Rate → Bool
other_rate none rate = false
other_rate (some only) rate = not (same_rate only rate)

abbrev rate_words : Option Rate → String
rate_words (some rr) = "residents"
rate_words _ = "visitors"

abbrev day_or : Option Day → String → String
day_or none word = word
day_or (some d) word = day_text d

abbrev pub outside_window : Option Day → Product → Bool
outside_window none p = false
outside_window (some day) p = not (product_valid_on p day)

abbrev pub not_active : Option Product → Bool
not_active none = true
not_active (some p) = not p.active

pub record BookedProduct : Type 0 where
  pub item : PricingItem
  pub product : Product

-- The checks on a product line.
unfoldable pub book_product : List Product → PricingInput → PricingItem → Result BookedProduct
book_product products input item = do
  p ←
      or_throw (map_get (λ (p : Product). p.key) (product_key_of item.id) products)
        (bad_request (concat ("Unknown product \"" ∷ item.id ∷ "\"" ∷ [])))
  throw_if (not p.active) (bad_request (concat ("Unknown product \"" ∷ item.id ∷ "\"" ∷ [])))
  throw_if (other_rate p.rate_only input.rate)
      (bad_request (concat ("\"" ∷ p.name ∷ "\" is for " ∷ rate_words p.rate_only ∷ " only" ∷ [])))
  throw_if (outside_window input.visit_date p) (
      bad_request (
        concat (
          "\""
          ∷ p.name
          ∷ "\" is valid for visits from "
          ∷ day_or p.valid_from "now"
          ∷ " to "
          ∷ day_or p.valid_to "further notice"
          ∷ " only"
          ∷ [])))
  ok (record { item = item; product = p })

unfoldable pub booked_products :
    List PricingItem → List Product → PricingInput → Result (List BookedProduct)
booked_products items products input = traverse (book_product products input) items

-- The client keys its selection by experience id and option.
unfoldable pub line_key : PricingItem → String
line_key item = concat (item.id ∷ "::" ∷ or_empty item.variant ∷ [])

pub record BookedExperience : Type 0 where
  pub item : PricingItem
  pub exp : PricingExperience

abbrev pub contains : List String → String → Bool
contains keys key = any (λ k. str_eq k key) keys

abbrev pub has_variant : PricingItem → Bool
has_variant item = is_filled (or_empty item.variant)

abbrev pub is_option : String → String → PricingPriceRow → Bool
is_option id variant r = str_eq r.group_key id && str_eq r.label variant

-- One round of the loop over the lines; `seen` holds the keys of the lines before.
unfoldable pub book_experience :
    List PricingExperience
    → List PricingPriceRow
    → List String
    → PricingItem
    → Result BookedExperience
book_experience experiences rows seen item = do
  throw_if (contains seen (line_key item))
      (bad_request (concat ("Duplicate experience \"" ∷ item.id ∷ "\" in items" ∷ [])))
  exp ←
      or_throw (map_get (λ (e : PricingExperience). e.id) item.id experiences)
        (bad_request (concat ("Unknown experience \"" ∷ item.id ∷ "\"" ∷ [])))
  throw_if (has_variant item && not (any (is_option item.id (or_empty item.variant)) rows)) (
      bad_request (
        concat (
          "Unknown option \""
          ∷ or_empty item.variant
          ∷ "\" for experience \""
          ∷ item.id
          ∷ "\""
          ∷ [])))
  ok (record { item = item; exp = exp })

unfoldable pub book_experiences :
    List PricingExperience
    → List PricingPriceRow
    → List String
    → List PricingItem
    → Result (List BookedExperience)
book_experiences experiences rows seen [] = ok []
book_experiences experiences rows seen (item ∷ items) = do
  b ← book_experience experiences rows seen item
  others ← book_experiences experiences rows (line_key item ∷ seen) items
  ok (b ∷ others)

unfoldable pub booked_experiences :
    List PricingItem
    → List PricingExperience
    → List PricingPriceRow
    → Result (List BookedExperience)
booked_experiences items experiences rows = book_experiences experiences rows [] items
