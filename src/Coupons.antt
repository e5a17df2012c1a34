-- ===== src/Coupons.antt =====
-- coupons/coupons.service.ts and entities/coupon.entity.ts: promo and partner codes. The table of
-- codes is a list of rows; a call returns the table that it leaves. A thrown error leaves the table
-- as it was.
pub mod Table
pub mod Uses
pub mod Offer
pub mod Tests
use valle_web_backend.Prelude.{
  ℕ, ◌+◌, ◌≡◌, String, Option, none, some, List, [], ◌∷◌, Bool, true, false, ◌&&◌, ◌||◌, not, find,
  map, ltb, leb, ◌==◌, or_zero, is_some, if◌then◌else◌, str_eq,
}
use valle_web_backend.Prelude.Text.{concat, or_empty, is_filled, trim, codes}
use valle_web_backend.Prelude.Upper.{upper_solid}
use valle_web_backend.Prelude.Http.{
  Result, ok, err, bad_request, not_found, conflict, ◌>>=◌, ◌>>◌, throw_if, or_throw,
}
use valle_web_backend.Day.{Day}
use valle_web_backend.Pricing.Types.{AdjustmentKind}

pub record Coupon : Type 0 where
  pub code : String
  pub kind : AdjustmentKind
  pub value : ℕ
  pub note : String
  pub active : Bool
  pub valid_from : Option Day
  pub valid_to : Option Day
  pub max_uses : Option ℕ
  pub uses : ℕ
  pub created_by : String

pub record CouponOffer : Type 0 where
  pub code : String
  pub kind : AdjustmentKind
  pub value : ℕ
  pub note : String

-- CouponsService.normalise; leading and trailing blanks are blanks too.
unfoldable pub normalise : String → String
normalise code = upper_solid code

-- findOne by the primary key.
unfoldable pub find_code : List Coupon → String → Option Coupon
find_code table code = find (λ (c : Coupon). str_eq c.code code) table

abbrev pub starts_after : Option Day → Day → Bool
starts_after none today = false
starts_after (some from) today = ltb today from

abbrev pub ended_before : Option Day → Day → Bool
ended_before none today = false
ended_before (some to) today = ltb to today

abbrev pub used_up : Coupon → Bool
used_up c = elim c.max_uses [ none ↦ false | some m ↦ leb m c.uses ]

unfoldable pub offer_of : Coupon → CouponOffer
offer_of c = record { code = c.code; kind = c.kind; value = c.value; note = c.note }

-- The offer behind a code, or why it cannot be used.
unfoldable pub resolve : List Coupon → Day → String → Result CouponOffer
resolve table today raw_code = do
  throw_if (not (is_filled (normalise raw_code))) (bad_request "Enter a code")
  c ← or_throw (find_code table (normalise raw_code)) (not_found "This code is not valid")
  throw_if (not c.active) (not_found "This code is not valid")
  throw_if (starts_after c.valid_from today) (not_found "This code is not active yet")
  throw_if (ended_before c.valid_to today) (not_found "This code has expired")
  throw_if (used_up c) (not_found "This code has been fully used")
  ok (offer_of c)

-- UPDATE coupons SET uses = uses + 1 WHERE code = …
unfoldable pub increment : String → List Coupon → List Coupon
increment code [] = []
increment code (c ∷ table) =
    (if str_eq c.code code then record c { uses = c.uses + 1 } else c) ∷ increment code table

abbrev pub coupon_used_message : String
coupon_used_message = "This code has just been fully used. Remove it or try another."

-- One use, under the row's lock.
unfoldable pub consume : String → List Coupon → Result (List Coupon)
consume code table = do
  c ← or_throw (find_code table (normalise code)) (not_found "This code is not valid")
  throw_if (not c.active) (not_found "This code is not valid")
  throw_if (used_up c) (conflict coupon_used_message)
  ok (increment c.code table)

pub record NewCoupon : Type 0 where
  pub code : String
  pub kind : AdjustmentKind
  pub value : Option ℕ
  pub note : Option String
  pub valid_from : Option Day
  pub valid_to : Option Day
  pub max_uses : Option ℕ

abbrev length_of : List ℕ → ℕ
length_of [] = 0
length_of (c ∷ cs) = length_of cs + 1

-- /^[A-Z0-9-]$/ on one character, and on a text of three to twenty-four.
abbrev is_code_char : ℕ → Bool
is_code_char c = (leb b'A' c && leb c b'Z') || (leb b'0' c && leb c b'9') || c == b'-'

abbrev all_code_chars : List ℕ → Bool
all_code_chars [] = true
all_code_chars (c ∷ cs) = is_code_char c && all_code_chars cs

unfoldable pub is_code : String → Bool
is_code code =
    all_code_chars (codes code) && leb 3 (length_of (codes code)) && leb (length_of (codes code)) 24

abbrev bad_percent : AdjustmentKind → ℕ → Bool
bad_percent AdjustmentKind.percent v = not (leb 1 v && leb v 100)
bad_percent _ v = false

abbrev bad_amount : AdjustmentKind → ℕ → Bool
bad_amount AdjustmentKind.amount v = not (leb 1 v)
bad_amount _ v = false

abbrev stored_value : AdjustmentKind → ℕ → ℕ
stored_value AdjustmentKind.foc v = 0
stored_value AdjustmentKind.entry_free v = 0
stored_value _ v = v

-- The row of a new code.
unfoldable pub new_row : NewCoupon → String → Coupon
new_row input by = record {
  code = normalise input.code;
  kind = input.kind;
  value = stored_value input.kind (or_zero input.value);
  note = trim (or_empty input.note);
  active = true;
  valid_from = input.valid_from;
  valid_to = input.valid_to;
  max_uses = input.max_uses;
  uses = 0;
  created_by = by;
}

-- A new code, and the table with it.
unfoldable pub create : NewCoupon → String → List Coupon → Result (Coupon × List Coupon)
create input by table = do
  throw_if (not (is_code (normalise input.code)))
      (bad_request "Codes use 3 to 24 letters, digits or dashes")
  throw_if (is_some (find_code table (normalise input.code)))
      (conflict (concat ("Code " ∷ normalise input.code ∷ " already exists" ∷ [])))
  throw_if (bad_percent input.kind (or_zero input.value))
      (bad_request "A percentage needs a value from 1 to 100")
  throw_if (bad_amount input.kind (or_zero input.value))
      (bad_request "An amount needs a value in rupees")
  ok (new_row input by, new_row input by ∷ table)

-- repo.save of the row with its switch turned.
unfoldable pub switch : String → Bool → List Coupon → List Coupon
switch code active [] = []
switch code active (c ∷ table) =
    (if str_eq c.code code then record c { active = active } else c) ∷ switch code active table

unfoldable pub set_active : String → Bool → List Coupon → Result (Coupon × List Coupon)
set_active code active table = do
  c ← or_throw (find_code table (normalise code)) (not_found "No such code")
  ok (record c { active = active }, switch c.code active table)

-- A call of the service that writes.
pub data Call : Type 0 where
  use_code : String → Call
  new_code : NewCoupon → String → Call
  switch_code : String → Bool → Call

abbrev table_or {ℓ} : {A : Type ℓ} → Result (A × List Coupon) → List Coupon → List Coupon
table_or (ok (a, table)) old = table
table_or (err e) old = old

abbrev left_or : Result (List Coupon) → List Coupon → List Coupon
left_or (ok table) old = table
left_or (err e) old = old

-- The table after a call: an error rolls back.
unfoldable pub run_call : Call → List Coupon → List Coupon
run_call (use_code code) table = left_or (consume code table) table
run_call (new_code input by) table = table_or (create input by table) table
run_call (switch_code code active) table = table_or (set_active code active table) table

unfoldable pub run_calls : List Call → List Coupon → List Coupon
run_calls [] table = table
run_calls (call ∷ calls) table = run_calls calls (run_call call table)
