-- ===== src/Waivers/AgeLabel.antt =====
-- waivers/waiver-rules.ts (parseAgeLabel): the ages that a label states, by the leftmost match of each of
-- its patterns.
use valle_web_backend.Prelude.{
  ℕ, ◌+◌, ◌-◌, ◌*◌, ◌≡◌, refl, String, Option, none, some, List, [], ◌∷◌, Bool, true, false, ◌&&◌,
  ◌||◌, leb, ◌==◌, if◌then◌else◌,
}
use valle_web_backend.Prelude.Text.{codes, is_space, or_empty, lower_includes}
use valle_web_backend.Waivers.{ActivityLimits}

abbrev is_digit : ℕ → Bool
is_digit c = leb b'0' c && leb c b'9'

abbrev onto : ℕ → List ℕ × List ℕ → List ℕ × List ℕ
onto c (digits, rest) = (c ∷ digits, rest)

-- (\d+), which may be empty here, and what follows it.
unfoldable pub digits_of : List ℕ → List ℕ × List ℕ
digits_of [] = ([], [])
digits_of (c ∷ cs) = let more = onto c (digits_of cs) in if is_digit c then more else ([], c ∷ cs)

-- What follows \s*.
unfoldable pub after_spaces : List ℕ → List ℕ
after_spaces [] = []
after_spaces (c ∷ cs) = let rest = after_spaces cs in if is_space c then rest else c ∷ cs

-- Number(digits)
unfoldable pub number_from : ℕ → List ℕ → ℕ
number_from n [] = n
number_from n (c ∷ cs) = number_from (n * 10 + (c - b'0')) cs

abbrev number_of : List ℕ → Option ℕ
number_of [] = none
number_of (c ∷ cs) = some (number_from 0 (c ∷ cs))

-- What follows a hyphen or a dash.
abbrev after_dash : List ℕ → Option (List ℕ)
after_dash [] = none
after_dash (c ∷ cs) = if c == b'-' || c == 0x2013 then some cs else none

abbrev pair_of : Option ℕ → Option (List ℕ) → Option (ℕ × ℕ)
pair_of (some low) (some rest) = elim (number_of (digits_of (after_spaces rest)).0) [
  | none ↦ none
  | some high ↦ some (low, high)
]
pair_of _ _ = none

-- /(\d+)\s*[–-]\s*(\d+)/ at the head of the text.
unfoldable pub range_at : List ℕ → Option (ℕ × ℕ)
range_at s =
    let (digits, rest) = digits_of s in pair_of (number_of digits) (after_dash (after_spaces rest))

abbrev starts_plus : List ℕ → Bool
starts_plus [] = false
starts_plus (c ∷ cs) = c == b'+'

-- /(\d+)\s*\+/ at the head of the text.
unfoldable pub plus_at : List ℕ → Option ℕ
plus_at s =
    let (digits, rest) = digits_of s in
    if starts_plus (after_spaces rest) then number_of digits else none

unfoldable pub leftmost : {A : Type 0} → (List ℕ → Option A) → List ℕ → Option A
leftmost at [] = at []
leftmost at (c ∷ cs) = elim (at (c ∷ cs)) [ some found ↦ some found | none ↦ leftmost at cs ]

abbrev pub no_limits : ActivityLimits
no_limits = record {
  min_age = none;
  max_age = none;
  drive_min_age = none;
  min_weight_kg = none;
  max_weight_kg = none;
  min_height_cm = none;
  max_height_cm = none;
}

abbrev from_plus : Bool → Option ℕ → ActivityLimits
from_plus drives none = no_limits
from_plus true (some age) = record no_limits { drive_min_age = some age }
from_plus false (some age) = record no_limits { min_age = some age }

-- "8+": at least 8; "3–12": 3 to 12; "16+ DRIVE": 16 to drive; "ALL AGES": none.
unfoldable pub parse_age_label : Option String → ActivityLimits
unfolding digits_of after_spaces number_from range_at plus_at leftmost
parse_age_label label =
    let s = codes (or_empty label) in
    elim (leftmost range_at s) [
      | some (low, high) ↦ record no_limits { min_age = some low; max_age = some high }
      | none ↦ from_plus (lower_includes (or_empty label) "drive") (leftmost plus_at s)
    ]

plus_example : parse_age_label (some "12 +") ≡ record no_limits { min_age = some 12 }
unfolding parse_age_label lower_includes
plus_example = refl

range_example :
    parse_age_label (some "ages 3–12") ≡ record no_limits { min_age = some 3; max_age = some 12 }
unfolding parse_age_label lower_includes
range_example = refl

drive_example : parse_age_label (some "16+ Drive") ≡ record no_limits { drive_min_age = some 16 }
unfolding parse_age_label lower_includes
drive_example = refl
