-- ===== src/Pricing/Product.antt =====
-- entities/product.entity.ts: product ids, validity, and what a product costs.
use Prim.Native.String.{slice, len}
use text.Mathlib.Text.{starts_with}
use valle_web_backend.Prelude.{
  ℕ, ◌+◌, ◌*◌, ◌/◌, ◌%◌, ◌≡◌, refl, String, Option, none, some, Bool, true, ◌&&◌, ◌||◌, leb, str_eq,
}
use valle_web_backend.Day.{Day}
use valle_web_backend.Pricing.Types.{Rate, rr, nr, Product, ProductMode}

-- Families whose price includes park entry.
abbrev pub entry_included : String → Bool
entry_included f = str_eq f "student" || str_eq f "expo" || str_eq f "senior"

abbrev from_ok : Option Day → Day → Bool
from_ok none day = true
from_ok (some from) day = leb from day

abbrev to_ok : Option Day → Day → Bool
to_ok none day = true
to_ok (some to) day = leb day to

unfoldable pub product_valid_on : Product → Day → Bool
product_valid_on p day = from_ok p.valid_from day && to_ok p.valid_to day

unfoldable pub is_product_id : String → Bool
is_product_id id = starts_with id "product:"

unfoldable pub product_key_of : String → String
product_key_of id = slice id 8 (len id)

abbrev single_price : Product → Rate → ℕ
single_price p rate = elim rate [ nr ↦ p.price_nr | rr ↦ p.price_rr ]

abbrev double_price : Product → Rate → Option ℕ
double_price p rate = elim rate [ nr ↦ p.dbl_nr | rr ↦ p.dbl_rr ]

abbrev by_pairs : ℕ → Option ℕ → ℕ → ℕ
by_pairs single none persons = single * persons
by_pairs single (some dbl) persons = persons / 2 * dbl + persons % 2 * single

abbrev by_mode : ProductMode → ℕ → Option ℕ → ℕ → ℕ → ℕ
by_mode ProductMode.flat single dbl persons units = single * units
by_mode ProductMode.pp single dbl persons units = single * persons
by_mode ProductMode.pair single dbl persons units = by_pairs single dbl persons

unfoldable pub product_amount : Product → Rate → ℕ → ℕ → ℕ → ℕ
product_amount p rate adults kids units =
    by_mode p.mode (single_price p rate) (double_price p rate) (adults + kids) units

product_key_of_example : product_key_of "product:combo:2" ≡ "combo:2"
unfolding product_key_of
product_key_of_example = refl
