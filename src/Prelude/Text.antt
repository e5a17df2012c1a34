-- ===== src/Prelude/Text.antt =====
-- Texts: concatenation, decimal numbers, and the string functions of JavaScript that the code calls.
use Prim.Native.Char.{code}
use Prim.Native.String
use Prim.Native.Nat.{ℕ, zero, suc, ◌+◌, ◌/◌, ◌%◌}
use Prim.Native.String.{String}
use mathlib.Core.Path.{◌≡◌, refl}
use mathlib.Core.Bool.{Bool, true, false, ◌&&◌, ◌||◌, not}
use mathlib.Core.List.{List, [], ◌∷◌, map}
use mathlib.Core.Option.{Option, none, some}
use valle_web_backend.Prelude.Tests.{ltb, leb, ◌==◌, if◌then◌else◌}

-- a + b + c on texts.
abbrev pub concat : List String → String
concat [] = ""
concat (s ∷ rest) = String.◌++◌ s (concat rest)

-- parts.join(sep)
abbrev pub join : String → List String → String
join sep [] = ""
join sep (s ∷ []) = s
join sep (s ∷ t ∷ rest) = String.◌++◌ s (String.◌++◌ sep (join sep (t ∷ rest)))

abbrev digit : ℕ → String
digit zero = "0"
digit (suc zero) = "1"
digit (suc (suc zero)) = "2"
digit (suc (suc (suc zero))) = "3"
digit (suc (suc (suc (suc zero)))) = "4"
digit (suc (suc (suc (suc (suc zero))))) = "5"
digit (suc (suc (suc (suc (suc (suc zero)))))) = "6"
digit (suc (suc (suc (suc (suc (suc (suc zero))))))) = "7"
digit (suc (suc (suc (suc (suc (suc (suc (suc zero)))))))) = "8"
digit _ = "9"

decimal_from : ℕ → ℕ → String
decimal_from zero n = ""
decimal_from (suc f) n =
    let more = String.◌++◌ (decimal_from f (n / 10)) (digit (n % 10)) in
    if ltb n 10 then digit n else more

-- A number in a template string; the fuel is more than its digits.
unfoldable pub decimal : ℕ → String
unfolding decimal_from
decimal n = decimal_from (suc n) n

-- `x || ''` on an optional text.
abbrev pub or_empty : Option String → String
or_empty none = ""
or_empty (some s) = s

-- A text is true where a condition is wanted, unless it is empty.
abbrev pub is_filled : String → Bool
is_filled String.[] = false
is_filled (String.◌∷◌ c s) = true

-- The white space and line ends that `trim` removes.
abbrev pub is_space : ℕ → Bool
is_space c =
    (leb 9 c && leb c 13)
    || c == 32
    || c == 0xA0
    || c == 0x1680
    || (leb 0x2000 c && leb c 0x200A)
    || c == 0x2028
    || c == 0x2029
    || c == 0x202F
    || c == 0x205F
    || c == 0x3000
    || c == 0xFEFF

trim_start : String → String
trim_start String.[] = ""
trim_start (String.◌∷◌ c s) =
    let rest = trim_start s in if is_space (code c) then rest else String.◌∷◌ c s

trim_end : String → String
trim_end String.[] = ""
trim_end (String.◌∷◌ c s) =
    let rest = trim_end s in
    if is_space (code c) && not (is_filled rest) then "" else String.◌∷◌ c rest

-- s.trim()
unfoldable pub trim : String → String
unfolding trim_start trim_end
trim s = trim_end (trim_start s)

-- s.replace('/', ''): the first slash goes.
unfoldable pub without_slash : String → String
without_slash String.[] = ""
without_slash (String.◌∷◌ c s) =
    let rest = String.◌∷◌ c (without_slash s) in if code c == b'/' then s else rest

abbrev pub codes : String → List ℕ
codes String.[] = []
codes (String.◌∷◌ c s) = code c ∷ codes s

-- toLowerCase, whose result the code only searches for ASCII texts.
abbrev lower_code : ℕ → ℕ
lower_code c = if leb b'A' c && leb c b'Z' then c + 32 else c

begins_with : List ℕ → List ℕ → Bool
begins_with s [] = true
begins_with [] (d ∷ t) = false
begins_with (c ∷ s) (d ∷ t) = c == d && begins_with s t

includes_code : List ℕ → List ℕ → Bool
includes_code [] t = begins_with [] t
includes_code (c ∷ s) t = begins_with (c ∷ s) t || includes_code s t

-- s.toLowerCase().includes(t)
unfoldable pub lower_includes : String → String → Bool
unfolding begins_with includes_code
lower_includes s t = includes_code (map lower_code (codes s)) (codes t)

lower_includes_example : lower_includes "Admission 12 YEARS +" "12 years" ≡ true
unfolding lower_includes
lower_includes_example = refl

decimal_example : concat ("a" ∷ decimal 1205 ∷ []) ≡ "a1205"
unfolding decimal
decimal_example = refl

trim_example : trim (without_slash " /buggy ") ≡ "buggy"
unfolding trim without_slash
trim_example = refl

abbrev onto_first : String → List String → List String
onto_first s [] = s ∷ []
onto_first s (word ∷ words) = String.◌++◌ s word ∷ words

-- s.split(sep), for one separator character.
unfoldable pub split_at : ℕ → String → List String
split_at sep String.[] = "" ∷ []
split_at sep (String.◌∷◌ c s) =
    let rest = split_at sep s in
    if code c == sep then "" ∷ rest else onto_first (String.◌∷◌ c "") rest

-- toLocaleString('en-US'): groups of three digits; the fuel is the number itself.
grouped : ℕ → ℕ → String
unfolding decimal
grouped zero n = decimal n
grouped (suc f) n =
    let more = concat (
      grouped f (n / 1_000)
      ∷ ","
      ∷ digit (n / 100 % 10)
      ∷ digit (n / 10 % 10)
      ∷ digit (n % 10)
      ∷ []) in
    if ltb n 1_000 then decimal n else more

-- common/money.ts: "Rs 12,500"
unfoldable pub rupees : ℕ → String
unfolding grouped
rupees n = concat ("Rs " ∷ grouped n n ∷ [])

rupees_example : rupees 1_012_500 ≡ "Rs 1,012,500"
unfolding rupees
rupees_example = refl

split_at_example : split_at b'+' "cash+card" ≡ "cash" ∷ "card" ∷ []
unfolding split_at
split_at_example = refl
