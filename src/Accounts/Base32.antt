-- ===== src/Accounts/Base32.antt =====
-- staff/auth/totp.ts (base32Encode, base32Decode): the secret as the text that an authenticator app
-- reads. `value` is the 32-bit pattern of the number that the loops shift.
pub mod Round
use valle_web_backend.Prelude.{
  ℕ, zero, suc, ◌+◌, ◌-◌, ◌*◌, ◌/◌, ◌%◌, ◌≡◌, refl, Bool, true, false, ◌&&◌, ◌||◌, not, Option,
  none, some, List, [], ◌∷◌, ◌++◌, map, filter, ltb, leb, ◌==◌, if◌then◌else◌,
}
use valle_web_backend.Prelude.Text.{codes, is_space}
use Prim.Native.Nat.{◌^◌}

-- B32
abbrev pub alphabet : List ℕ
alphabet = codes "ABCDEFGHIJKLMNOPQRSTUVWXYZ234567"

-- B32[i]
unfoldable pub char_at : List ℕ → ℕ → ℕ
char_at [] i = 0
char_at (c ∷ cs) zero = c
char_at (c ∷ cs) (suc i) = char_at cs i

abbrev pub one_further : Option ℕ → Option ℕ
one_further none = none
one_further (some i) = some (suc i)

-- B32.indexOf(ch), where -1 is none.
unfoldable pub index_of : List ℕ → ℕ → Option ℕ
index_of [] c = none
index_of (d ∷ ds) c = if d == c then some 0 else one_further (index_of ds c)

-- The inner loop of the encoder, on fuel: the characters of the full groups of five bits, and the
-- number of bits left over.
unfoldable pub drain : ℕ → ℕ → ℕ → List ℕ × ℕ
drain zero bits value = ([], bits)
drain (suc fuel) bits value = elim (leb 5 bits) [
  | false ↦ ([], bits)
  | true ↦
      let (out, left) = drain fuel (bits - 5) value in
      (char_at alphabet (value / 2 ^ (bits - 5) % 32) ∷ out, left)
]

-- (value << 8) | byte
abbrev pub push_byte : ℕ → ℕ → ℕ
push_byte value byte = (value * 256 + byte) % 2 ^ 32

-- (value << 5) | idx
abbrev pub push_five : ℕ → ℕ → ℕ
push_five value idx = (value * 32 + idx) % 2 ^ 32

-- The encoder's loop over the bytes. Fewer than five bits are left before each byte, so that the bits
-- are enough fuel for the groups.
unfoldable pub encode_from : ℕ → ℕ → List ℕ → List ℕ
encode_from bits value [] =
    if ltb 0 bits then char_at alphabet (value * 2 ^ (5 - bits) % 2 ^ 32 % 32) ∷ [] else []
encode_from bits value (byte ∷ bytes) =
    let v = push_byte value byte in
    let (out, left) = drain (bits + 8) (bits + 8) v in out ++ encode_from left v bytes

unfoldable pub base32_encode : List ℕ → List ℕ
base32_encode bytes = encode_from 0 0 bytes

abbrev pub upper_code : ℕ → ℕ
upper_code c = if leb b'a' c && leb c b'z' then c - 32 else c

-- input.toUpperCase().replace(/[\s=]/g, '')
unfoldable pub clean : List ℕ → List ℕ
clean input = filter (λ c. not (is_space c || c == b'=')) (map upper_code input)

abbrev pub with_byte : ℕ → Option (List ℕ) → Option (List ℕ)
with_byte b none = none
with_byte b (some out) = some (b ∷ out)

-- The decoder's loop; none where it throws.
unfoldable pub decode_from : ℕ → ℕ → List ℕ → Option (List ℕ)
decode_from bits value [] = some []
decode_from bits value (ch ∷ rest) = elim (index_of alphabet ch) [
  | none ↦ none
  | some idx ↦ elim (leb 8 (bits + 5)) [
    | true ↦
        with_byte (push_five value idx / 2 ^ (bits + 5 - 8) % 256)
          (decode_from (bits + 5 - 8) (push_five value idx) rest)
    | false ↦ decode_from (bits + 5) (push_five value idx) rest
  ]
]

unfoldable pub base32_decode : List ℕ → Option (List ℕ)
base32_decode input = decode_from 0 0 (clean input)

encode_example : base32_encode (codes "foobar") ≡ codes "MZXW6YTBOI"
unfolding base32_encode encode_from drain char_at
encode_example = refl

decode_example : base32_decode (codes "mzxw 6ytb oi==") ≡ some (codes "foobar")
unfolding base32_decode clean decode_from index_of
decode_example = refl
