-- ===== src/Prelude/Upper.antt =====
-- toUpperCase and toLowerCase on ASCII letters; other characters stay as they are.
use Prim.Native.Char.{Char, code}
use Prim.Native.String.{String}
use Prim.Native.Nat.{ℕ}
use mathlib.Core.Path.{◌≡◌, refl, ap, ◌∙◌}
use mathlib.Core.Logic.{◌⊎◌, inl, inr}
use mathlib.Core.Bool.{false}
use mathlib.Core.List.{List, [], ◌∷◌}
use native.Mathlib.Omega.{arith}
use valle_web_backend.Prelude.Tests.{Bool-cases, ◌==◌, if◌then◌else◌}
use valle_web_backend.Prelude.Text.{is_space}

abbrev capitals : List (ℕ × Char)
capitals =
    (b'a', "A")
    ∷ (b'b', "B")
    ∷ (b'c', "C")
    ∷ (b'd', "D")
    ∷ (b'e', "E")
    ∷ (b'f', "F")
    ∷ (b'g', "G")
    ∷ (b'h', "H")
    ∷ (b'i', "I")
    ∷ (b'j', "J")
    ∷ (b'k', "K")
    ∷ (b'l', "L")
    ∷ (b'm', "M")
    ∷ (b'n', "N")
    ∷ (b'o', "O")
    ∷ (b'p', "P")
    ∷ (b'q', "Q")
    ∷ (b'r', "R")
    ∷ (b's', "S")
    ∷ (b't', "T")
    ∷ (b'u', "U")
    ∷ (b'v', "V")
    ∷ (b'w', "W")
    ∷ (b'x', "X")
    ∷ (b'y', "Y")
    ∷ (b'z', "Z")
    ∷ []

char_in : List (ℕ × Char) → Char → Char
char_in [] c = c
char_in ((small, capital) ∷ table) c =
    let rest = char_in table c in if code c == small then capital else rest

unfoldable pub upper_char : Char → Char
unfolding char_in
upper_char c = char_in capitals c

abbrev smalls : List (ℕ × Char)
smalls =
    (b'A', "a")
    ∷ (b'B', "b")
    ∷ (b'C', "c")
    ∷ (b'D', "d")
    ∷ (b'E', "e")
    ∷ (b'F', "f")
    ∷ (b'G', "g")
    ∷ (b'H', "h")
    ∷ (b'I', "i")
    ∷ (b'J', "j")
    ∷ (b'K', "k")
    ∷ (b'L', "l")
    ∷ (b'M', "m")
    ∷ (b'N', "n")
    ∷ (b'O', "o")
    ∷ (b'P', "p")
    ∷ (b'Q', "q")
    ∷ (b'R', "r")
    ∷ (b'S', "s")
    ∷ (b'T', "t")
    ∷ (b'U', "u")
    ∷ (b'V', "v")
    ∷ (b'W', "w")
    ∷ (b'X', "x")
    ∷ (b'Y', "y")
    ∷ (b'Z', "z")
    ∷ []

-- s.toLowerCase()
unfoldable pub lower : String → String
unfolding char_in
lower String.[] = ""
lower (String.◌∷◌ c s) = String.◌∷◌ (char_in smalls c) (lower s)

-- s.toUpperCase().replace(/\\s+/g, '')
unfoldable pub upper_solid : String → String
upper_solid String.[] = ""
upper_solid (String.◌∷◌ c s) =
    let rest = upper_solid s in if is_space (code c) then rest else String.◌∷◌ (upper_char c) rest

upper_example : upper_solid " hotel 10 " ≡ "HOTEL10"
unfolding upper_solid upper_char
upper_example = refl

-- A capital stands for itself, and no letter becomes a space.
abbrev HoldsFor : List (ℕ × Char) → Type 0
HoldsFor [] = Unit
HoldsFor ((small, capital) ∷ table) =
    (is_space (code capital) ≡ false) × (upper_char capital ≡ capital) × HoldsFor table

capitals-HoldsFor : HoldsFor capitals
unfolding upper_char
capitals-HoldsFor = ground arith

char_in_cases :
    (table : List (ℕ × Char)) (c : Char)
    → HoldsFor table
    → (char_in table c ≡ c)
      ⊎ ((is_space (code (char_in table c)) ≡ false)
          × (upper_char (char_in table c) ≡ char_in table c))
unfolding char_in
char_in_cases [] c h = inl refl
char_in_cases ((small, capital) ∷ table) c (solid, fixed, h) = elim (Bool-cases (code c == small)) [
  | inl this ↦ rw this (inr (solid, fixed))
  | inr other ↦ rw other (char_in_cases table c h)
]

upper_char_cases :
    (c : Char)
    → (upper_char c ≡ c)
      ⊎ ((is_space (code (upper_char c)) ≡ false) × (upper_char (upper_char c) ≡ upper_char c))
unfolding upper_char
upper_char_cases c = char_in_cases capitals c capitals-HoldsFor

-- A character that is no space stays none, and its capital is its own.
upper_char_idem :
    (c : Char)
    → is_space (code c) ≡ false
    → (is_space (code (upper_char c)) ≡ false) × (upper_char (upper_char c) ≡ upper_char c)
upper_char_idem c solid = elim (upper_char_cases c) [
  | inl same ↦ (ap (λ d. is_space (code d)) same ∙ solid, ap upper_char same)
  | inr settled ↦ settled
]

pub upper_solid_idem : (s : String) → upper_solid (upper_solid s) ≡ upper_solid s
unfolding upper_solid
upper_solid_idem String.[] = refl
upper_solid_idem (String.◌∷◌ c s) = elim (Bool-cases (is_space (code c))) [
  | inl blank ↦ rw blank (upper_solid_idem s)
  | inr solid ↦
      let (stays, fixed) = upper_char_idem c solid in
      rw solid (rw stays (rw (fixed, upper_solid_idem s) refl))
]

lower_example : lower "Ana@Valle.MU" ≡ "ana@valle.mu"
unfolding lower
lower_example = refl
