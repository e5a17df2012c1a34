-- ===== src/Pricing/Types.antt =====
-- The records of bookings/pricing.ts, with the product row of entities/product.entity.ts. Prices and
-- counts are whole and not negative: the columns are integers, and the request's counts are
-- validated by IsInt and Min(0).
use valle_web_backend.Prelude.{ℕ, String, Option, List, Bool}
use valle_web_backend.Day.{Day}

-- 'rr' (residents) or 'nr' (visitors).
pub data Rate : Type 0 where
  rr nr : Rate

pub data PriceMode : Type 0 where
  pp flat entry kiosk : PriceMode

pub record PricingExperience : Type 0 where
  pub id : String
  pub name : String
  pub category_id : String
  pub base_price : ℕ
  pub price_mode : PriceMode
  pub flat_label : Option String
  pub price_rr : Option ℕ
  pub price_nr : Option ℕ
  pub sort_order : ℕ

pub record PricingSettings : Type 0 where
  pub entry_adult : ℕ
  pub entry_child : ℕ

pub record PricingItem : Type 0 where
  pub id : String
  pub variant : Option String
  pub adults : Option ℕ
  pub kids : Option ℕ
  pub units : Option ℕ
  pub time : Option String

pub record PricingPriceRow : Type 0 where
  pub group_key : String
  pub label : String
  pub at_rr : ℕ
  pub at_nr : ℕ

pub record PricingInput : Type 0 where
  pub adults : ℕ
  pub kids : ℕ
  pub infants : Option ℕ
  pub rate : Rate
  pub items : List PricingItem
  pub visit_date : Option Day

pub record PricedLine : Type 0 where
  pub experience_id : Option String
  pub product_key : Option String
  pub variant : String
  pub label : String
  pub time : Option String
  pub adults : ℕ
  pub kids : ℕ
  pub units : ℕ
  pub amount : ℕ

pub record PricedBooking : Type 0 where
  pub lines : List PricedLine
  pub entry : ℕ
  pub subtotal : ℕ
  pub discount : ℕ
  pub total : ℕ
  pub adv_count : ℕ

-- How a booking's price is adjusted after the Explorer Pass discount.
pub data AdjustmentKind : Type 0 where
  none percent amount foc entry_free : AdjustmentKind

pub data ProductMode : Type 0 where
  pp pair flat : ProductMode

pub record Product : Type 0 where
  pub key : String
  pub family : String
  pub name : String
  pub mode : ProductMode
  pub price_rr : ℕ
  pub price_nr : ℕ
  pub dbl_rr : Option ℕ
  pub dbl_nr : Option ℕ
  pub rate_only : Option Rate
  pub active : Bool
  pub valid_from : Option Day
  pub valid_to : Option Day
