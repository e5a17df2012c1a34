-- ===== src/Day.antt =====
-- common/park-time.ts: calendar days. The code passes days as texts "YYYY-MM-DD" (validated by
-- IsCalendarDate, or cut to ten characters from a date column) and compares them as texts. A day is
-- modelled by the number YYYYMMDD, whose order is the order of those texts.
use valle_web_backend.Prelude.{ℕ, ◌/◌, ◌%◌, ◌≡◌, refl, String, [], ◌∷◌}
use valle_web_backend.Prelude.Text.{concat, decimal}

abbrev pub Day : Type 0
Day = ℕ

two_digits : ℕ → String
unfolding decimal
two_digits n = concat (decimal (n / 10) ∷ decimal (n % 10) ∷ [])

-- The text of a day, as messages print it.
unfoldable pub day_text : Day → String
unfolding two_digits
day_text d = concat (
    two_digits (d / 1_000_000)
    ∷ two_digits (d / 10_000 % 100)
    ∷ "-"
    ∷ two_digits (d / 100 % 100)
    ∷ "-"
    ∷ two_digits (d % 100)
    ∷ [])

day_text_example : day_text 2026_02_09 ≡ "2026-02-09"
unfolding day_text
day_text_example = refl
