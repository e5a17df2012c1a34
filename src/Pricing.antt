-- ===== src/Pricing.antt =====
-- bookings/pricing.ts and entities/product.entity.ts: the price of a booking.
pub mod Types
pub mod Product
pub mod Party
pub mod Adjust
pub mod Coverage
pub mod Validate
pub mod Lines
pub mod Pass
pub mod Compute
pub mod Checks
pub mod Charges
pub mod Sums
pub mod Accept
pub mod Covered
pub mod Discounts
pub mod Tests
