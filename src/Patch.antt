-- ===== src/Patch.antt =====
-- staff/bookings/booking-patch.ts and bookings/party-rules.ts: an edit of a booking, what of it goes into
-- the trail, and lines that follow a new party. The nationality is left out; items come parsed.
pub mod Party
pub mod Resent
pub mod Tests
use valle_web_backend.Prelude.{
  ℕ, ◌+◌, String, Option, none, some, List, [], ◌∷◌, ◌++◌, Bool, true, false, ◌&&◌, ◌||◌, not, find,
  filter, any, map, ltb, leb, ◌==◌, or_zero, or_default, is_some, if◌then◌else◌, str_eq, min,
}
use valle_web_backend.Prelude.Text.{concat, join, decimal, or_empty, is_filled}
use valle_web_backend.Prelude.Http.{Result, ok, err, bad_request, ◌>>=◌, ◌>>◌, throw_if}
use valle_web_backend.Day.{Day}
use valle_web_backend.Booking.{SlotKey, PayMode, BookingStatus, Booking, BookingLine}
use valle_web_backend.Pricing.Types.{Rate, AdjustmentKind, PricingItem}

pub record PatchItem : Type 0 where
  pub id : String
  pub variant : Option String
  pub adults : Option ℕ
  pub kids : Option ℕ
  pub units : Option ℕ
  pub time : Option String

-- The fields that were sent.
pub record BookingPatch : Type 0 where
  pub visit_date : Option Day
  pub slot : Option SlotKey
  pub adults : Option ℕ
  pub kids : Option ℕ
  pub infants : Option ℕ
  pub rate : Option Rate
  pub guest_name : Option String
  pub phone : Option String
  pub email : Option String
  pub pay_mode : Option PayMode
  pub status : Option BookingStatus
  pub staff_note : Option String
  pub items : Option (List PatchItem)
  pub adjustment_kind : Option AdjustmentKind
  pub adjustment_value : Option ℕ
  pub adjustment_note : Option String
  pub coupon_code : Option String

pub data PatchField : Type 0 where
  visit_date slot adults kids infants rate guest_name phone email pay_mode status staff_note items :
      PatchField
  adjustment_kind adjustment_value adjustment_note coupon_code : PatchField

-- An audited value.
pub data Value : Type 0 where
  number : ℕ → Value
  text : String → Value
  requested : List PatchItem → Value

pub record FieldChange : Type 0 where
  pub field : PatchField
  pub from : Value
  pub to : Value

-- from === to: a list that was sent is never the stored text, which is empty.
abbrev pub same_value : Value → Value → Bool
same_value (number m) (number n) = m == n
same_value (text s) (text t) = str_eq s t
same_value _ _ = false

abbrev pub slot_value : SlotKey → Value
slot_value SlotKey.morning = text "morning"
slot_value SlotKey.afternoon = text "afternoon"

abbrev pub rate_value : Rate → Value
rate_value Rate.rr = text "rr"
rate_value Rate.nr = text "nr"

abbrev pub pay_mode_value : PayMode → Value
pay_mode_value PayMode.gate = text "gate"
pay_mode_value PayMode.online = text "online"

abbrev pub status_value : BookingStatus → Value
status_value BookingStatus.confirmed = text "confirmed"
status_value BookingStatus.arrived = text "arrived"
status_value BookingStatus.cancelled = text "cancelled"
status_value BookingStatus.postponed = text "postponed"

abbrev pub kind_value : AdjustmentKind → Value
kind_value AdjustmentKind.percent = text "percent"
kind_value AdjustmentKind.amount = text "amount"
kind_value AdjustmentKind.foc = text "foc"
kind_value AdjustmentKind.entry_free = text "entry_free"
kind_value _ = text "none"

-- One field of the loop: sent, and not what is stored.
abbrev pub field_change {ℓ} :
    {A : Type ℓ} → PatchField → Value → (A → Value) → Option A → List FieldChange
field_change field from value none = []
field_change field from value (some to) =
    if same_value from (value to)
    then []
    else record { field = field; from = from; to = value to } ∷ []

-- The fields that really move.
unfoldable pub audited_changes : Booking → BookingPatch → List FieldChange
audited_changes b p =
    field_change PatchField.visit_date (number b.visit_date) number p.visit_date
    ++ field_change PatchField.slot (slot_value b.slot) slot_value p.slot
    ++ field_change PatchField.adults (number b.adults) number p.adults
    ++ field_change PatchField.kids (number b.kids) number p.kids
    ++ field_change PatchField.infants (number b.infants) number p.infants
    ++ field_change PatchField.rate (rate_value b.rate) rate_value p.rate
    ++ field_change PatchField.guest_name (text b.guest_name) text p.guest_name
    ++ field_change PatchField.phone (text b.phone) text p.phone
    ++ field_change PatchField.email (text b.email) text p.email
    ++ field_change PatchField.pay_mode (pay_mode_value b.pay_mode) pay_mode_value p.pay_mode
    ++ field_change PatchField.status (status_value b.status) status_value p.status
    ++ field_change PatchField.staff_note (text b.staff_note) text p.staff_note
    ++ field_change PatchField.items (text "") requested p.items
    ++ field_change PatchField.adjustment_kind (kind_value b.adjustment_kind) kind_value
        p.adjustment_kind
    ++ field_change PatchField.adjustment_value (number b.adjustment_value) number
        p.adjustment_value
    ++ field_change PatchField.adjustment_note (text b.adjustment_note) text p.adjustment_note
    ++ field_change PatchField.coupon_code (text b.coupon_code) text p.coupon_code

-- Items and adjustments are applied where the booking is priced again.
unfoldable pub apply_patch : Booking → BookingPatch → Booking
apply_patch b p = record b {
  visit_date = or_default p.visit_date b.visit_date;
  slot = or_default p.slot b.slot;
  adults = or_default p.adults b.adults;
  kids = or_default p.kids b.kids;
  infants = or_default p.infants b.infants;
  rate = or_default p.rate b.rate;
  guest_name = or_default p.guest_name b.guest_name;
  phone = or_default p.phone b.phone;
  email = or_default p.email b.email;
  pay_mode = or_default p.pay_mode b.pay_mode;
  status = or_default p.status b.status;
  staff_note = or_default p.staff_note b.staff_note;
}

abbrev pub is_money : PatchField → Bool
is_money PatchField.adults = true
is_money PatchField.kids = true
is_money PatchField.infants = true
is_money PatchField.rate = true
is_money PatchField.items = true
is_money PatchField.adjustment_kind = true
is_money PatchField.adjustment_value = true
is_money PatchField.adjustment_note = true
is_money PatchField.coupon_code = true
is_money _ = false

abbrev pub is_place : PatchField → Bool
is_place PatchField.visit_date = true
is_place PatchField.slot = true
is_place PatchField.adults = true
is_place PatchField.kids = true
is_place PatchField.infants = true
is_place PatchField.status = true
is_place _ = false

unfoldable pub touches_money : List FieldChange → Bool
touches_money changes = any (λ (c : FieldChange). is_money c.field) changes

unfoldable pub touches_places : List FieldChange → Bool
touches_places changes = any (λ (c : FieldChange). is_place c.field) changes
