-- ===== src/Booking.antt =====
-- entities/booking.entity.ts and entities/booking-line.entity.ts: a booking and its lines. Left out are
-- the nationality, the group's people and the times of messages and edits, which no
-- modelled operation reads.
use valle_web_backend.Prelude.{ℕ, String, Option}
use valle_web_backend.Day.{Day}
use valle_web_backend.Pricing.Types.{Rate, AdjustmentKind}

-- A time in milliseconds.
abbrev pub Time : Type 0
Time = ℕ

pub data SlotKey : Type 0 where
  morning afternoon : SlotKey

pub data PayMode : Type 0 where
  gate online : PayMode

pub data BookingStatus : Type 0 where
  confirmed arrived cancelled postponed : BookingStatus

pub record Booking : Type 0 where
  pub id : String
  pub ref_code : String
  pub visit_date : Day
  pub slot : SlotKey
  pub adults : ℕ
  pub kids : ℕ
  pub infants : ℕ
  pub rate : Rate
  pub guest_name : String
  pub phone : String
  pub email : String
  pub pay_mode : PayMode
  pub status : BookingStatus
  pub entry_amount : ℕ
  pub subtotal : ℕ
  pub discount : ℕ
  pub total : ℕ
  pub staff_note : String
  pub ticket_sent_at : Option Time
  pub paid_amount : ℕ
  pub paid_at : Option Time
  pub payment_method : String
  pub receipt_no : String
  pub adjustment_kind : AdjustmentKind
  pub adjustment_value : ℕ
  pub adjustment_amount : ℕ
  pub adjustment_note : String
  pub coupon_code : String
  pub postponed_from : Option Day
  pub idempotency_key : Option String
  pub lang : String
  pub deposit_amount : ℕ

pub record BookingLine : Type 0 where
  pub booking_id : String
  pub experience_id : Option String
  pub variant : String
  pub label : String
  pub product_key : Option String
  pub session_time : Option String
  pub adults : ℕ
  pub kids : ℕ
  pub units : ℕ
  pub amount : ℕ
  pub sort_order : ℕ
