-- ===== src/Capacity.antt =====
-- bookings/capacity.ts: what one arrival slot can take. The calendar is given parsed, as its types say;
-- the tables are the bookings, their lines and the holds. The advisory lock makes calls for one date and
-- slot follow one another, which the model's explicit sequences do.
pub mod Taken
pub mod Reserve
pub mod Slots
pub mod Within
pub mod Items
pub mod Levels
pub mod Tests
use Prim.Native.String.{compare}
use text.Mathlib.Text.{is_le}
use valle_web_backend.Prelude.{
  ℕ, ◌+◌, ◌*◌, String, Option, none, some, List, [], ◌∷◌, Bool, true, false, ◌&&◌, ◌||◌, not, find,
  filter, any, ltb, leb, ◌==◌, or_zero, or_default, is_some, if◌then◌else◌, str_eq, sum_of,
}
use valle_web_backend.Prelude.Text.{concat, is_filled}
use valle_web_backend.Prelude.Http.{
  Result, ok, err, bad_request, conflict, ◌>>=◌, ◌>>◌, throw_if, or_throw,
}
use valle_web_backend.Prelude.Rows.{row}
use valle_web_backend.Day.{Day}
use valle_web_backend.Booking.{Time, SlotKey, BookingStatus, Booking, BookingLine}
use valle_web_backend.Pricing.Types.{PriceMode}
use valle_web_backend.Pricing.Product.{is_product_id}

pub data ClosureKind : Type 0 where
  closed maintenance private_event : ClosureKind

pub record Closure : Type 0 where
  pub from : Day
  pub to : Day
  -- None is 'all'.
  pub slot : Option SlotKey
  pub kind : ClosureKind
  pub reason : String

pub record SessionPlan : Type 0 where
  pub times : List String
  pub capacity : Option ℕ
  pub duration_min : ℕ

pub record SlotLimits : Type 0 where
  pub morning : Option ℕ
  pub afternoon : Option ℕ

pub record Calendar : Type 0 where
  pub slot_capacity : ℕ
  pub closures : List Closure
  pub activity_capacity : String → Option SlotLimits
  pub sessions : String → Option SessionPlan

pub record ExperienceInfo : Type 0 where
  pub name : String
  pub price_mode : PriceMode

pub record PlacesItem : Type 0 where
  pub id : String
  pub adults : Option ℕ
  pub kids : Option ℕ
  pub units : Option ℕ
  pub time : Option String

pub record PlacesRequest : Type 0 where
  pub visit_date : Day
  pub slot : SlotKey
  pub adults : ℕ
  pub kids : ℕ
  pub infants : Option ℕ
  pub items : List PlacesItem
  pub hold_id : Option String
  pub except_booking_id : Option String

-- entities/slot-hold.entity.ts
pub record SlotHold : Type 0 where
  pub id : String
  pub visit_date : Day
  pub slot : SlotKey
  pub adults : ℕ
  pub kids : ℕ
  pub infants : ℕ
  pub items : List PlacesItem
  pub expires_at : Time

pub record Places : Type 0 where
  pub bookings : List Booking
  pub lines : List BookingLine
  pub holds : List SlotHold

abbrev pub same_slot : SlotKey → SlotKey → Bool
same_slot SlotKey.morning SlotKey.morning = true
same_slot SlotKey.afternoon SlotKey.afternoon = true
same_slot _ _ = false

-- t >= '12:00'
abbrev pub is_afternoon : String → Bool
is_afternoon t = is_le (compare "12:00" t)

-- Sessions a guest arriving in this slot can take.
unfoldable pub sessions_for_slot : SessionPlan → SlotKey → List String
sessions_for_slot plan SlotKey.morning = plan.times
sessions_for_slot plan SlotKey.afternoon = filter is_afternoon plan.times

abbrev pub covers : Day → SlotKey → Closure → Bool
covers date slot c =
    leb c.from date && leb date c.to && elim c.slot [ none ↦ true | some s ↦ same_slot s slot ]

-- The closure that applies to a date and slot, if any.
unfoldable pub closure_for : Day → SlotKey → List Closure → Option Closure
closure_for date slot closures = find (covers date slot) closures

abbrev closure_words : ClosureKind → String
closure_words ClosureKind.closed = "closed"
closure_words ClosureKind.maintenance = "closed for maintenance"
closure_words ClosureKind.private_event = "reserved for a private event"

abbrev pub slot_text : SlotKey → String
slot_text SlotKey.morning = "morning"
slot_text SlotKey.afternoon = "afternoon"

unfoldable pub closure_message : Closure → SlotKey → String
closure_message c slot = concat (
    "The park is "
    ∷ closure_words c.kind
    ∷ " "
    ∷ elim c.slot [
      | none ↦ "on that date"
      | some s ↦ concat ("for the " ∷ slot_text slot ∷ " on that date" ∷ [])
    ]
    ∷ (if is_filled c.reason then concat (" (" ∷ c.reason ∷ ")" ∷ []) else "")
    ∷ ". Pick another day."
    ∷ [])
