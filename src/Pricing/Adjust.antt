-- ===== src/Pricing/Adjust.antt =====
-- bookings/pricing.ts: passes, discounts and free entry.
use valle_web_backend.Prelude.{ℕ, ◌+◌, ◌-◌, ◌*◌, ◌/◌, min}
use valle_web_backend.Pricing.Types.{AdjustmentKind, PricedBooking}

-- Values are whole rupees or whole percents. `Math.round` of a number of hundredths rounds halves up,
-- and Math.max(0, a - b) is the difference on natural numbers.
unfoldable pub adjustment_amount : AdjustmentKind → ℕ → PricedBooking → ℕ
adjustment_amount kind value priced =
    let due = priced.subtotal - priced.discount in
    elim kind [
      | AdjustmentKind.foc ↦ due
      | AdjustmentKind.percent ↦ min due ((due * min 100 value + 50) / 100)
      | AdjustmentKind.amount ↦ min due value
      | AdjustmentKind.entry_free ↦ min due priced.entry
      | AdjustmentKind.none ↦ 0
    ]
