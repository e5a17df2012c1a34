-- ===== src/Accounts/Totp.antt =====
-- staff/auth/totp.ts (hotp, totpStep, verifyTotp, normaliseRecoveryCode): one-time codes.
use valle_web_backend.Prelude.{
  ℕ, zero, suc, ◌+◌, ◌-◌, ◌*◌, ◌/◌, ◌%◌, ◌≡◌, refl, Bool, true, false, ◌&&◌, ◌||◌, not, Option,
  none, some, List, [], ◌∷◌, map, filter, length, leb, ◌==◌, if◌then◌else◌,
}
use valle_web_backend.Prelude.Text.{codes, is_space}
use valle_web_backend.Prelude.Http.{Result, ok, internal, ◌>>=◌, or_throw}
use valle_web_backend.Booking.{Time}
use valle_web_backend.Accounts.{Crypto}
use valle_web_backend.Accounts.Base32.{base32_decode}
use Prim.Native.Nat.{◌^◌}

-- msg.writeBigUInt64BE
abbrev pub be64 : ℕ → List ℕ
be64 n =
    (n / 2 ^ 56 % 256)
    ∷ (n / 2 ^ 48 % 256)
    ∷ (n / 2 ^ 40 % 256)
    ∷ (n / 2 ^ 32 % 256)
    ∷ (n / 2 ^ 24 % 256)
    ∷ (n / 2 ^ 16 % 256)
    ∷ (n / 2 ^ 8 % 256)
    ∷ (n % 256)
    ∷ []

-- mac[i], which counts as zero where there is none.
unfoldable pub byte_at : List ℕ → ℕ → ℕ
byte_at [] i = 0
byte_at (b ∷ bs) zero = b
byte_at (b ∷ bs) (suc i) = byte_at bs i

-- String(n).padStart(6, '0'), for n below a million.
unfoldable pub six_digits : ℕ → List ℕ
six_digits n =
    (b'0' + n / 100_000 % 10)
    ∷ (b'0' + n / 10_000 % 10)
    ∷ (b'0' + n / 1_000 % 10)
    ∷ (b'0' + n / 100 % 10)
    ∷ (b'0' + n / 10 % 10)
    ∷ (b'0' + n % 10)
    ∷ []

-- The 31 bits that the last byte of the code points at.
unfoldable pub truncated : List ℕ → ℕ
unfolding byte_at
truncated mac =
    let offset = byte_at mac (length mac - 1) % 16 in
    byte_at mac offset % 128 * 2 ^ 24
    + byte_at mac (offset + 1) * 2 ^ 16
    + byte_at mac (offset + 2) * 2 ^ 8
    + byte_at mac (offset + 3)

unfoldable pub totp_step : Time → ℕ
totp_step now = now / 1_000 / 30

-- Steps of the window of one around the time's, none below zero.
abbrev pub window : ℕ → List ℕ
window zero = 0 ∷ 1 ∷ []
window (suc before) = before ∷ suc before ∷ suc (suc before) ∷ []

abbrev pub same_codes : List ℕ → List ℕ → Bool
same_codes [] [] = true
same_codes (c ∷ cs) (d ∷ ds) = c == d && same_codes cs ds
same_codes _ _ = false

abbrev pub is_digit : ℕ → Bool
is_digit c = leb b'0' c && leb c b'9'

abbrev pub all_digits : List ℕ → Bool
all_digits [] = true
all_digits (c ∷ cs) = is_digit c && all_digits cs

-- code.replace(/\s/g, '')
unfoldable pub without_spaces : List ℕ → List ℕ
without_spaces code = filter (λ c. not (is_space c)) code

-- /^\d{6}$/
unfoldable pub is_six_digits : List ℕ → Bool
is_six_digits code = length code == 6 && all_digits code

module _ (crypto : Crypto) where
  unfoldable pub hotp : List ℕ → ℕ → Result (List ℕ)
  hotp secret counter = do
    key ← or_throw (base32_decode secret) (internal "Invalid base32")
    ok (six_digits (truncated (crypto.hmac key (be64 counter)) % 1_000_000))

  -- The loop over the window: the first step whose code it is.
  unfoldable pub first_match : List ℕ → List ℕ → List ℕ → Result (Option ℕ)
  first_match secret code [] = ok none
  first_match secret code (step ∷ steps) = do
    expected ← hotp secret step
    if same_codes expected code then ok (some step) else first_match secret code steps

  -- The step that a code matches within one step of the time, or none.
  unfoldable pub verify_totp : List ℕ → List ℕ → Time → Result (Option ℕ)
  verify_totp secret code now =
      if is_six_digits (without_spaces code)
      then first_match secret (without_spaces code) (window (totp_step now))
      else ok none

abbrev pub lower_letter : ℕ → ℕ
lower_letter c = if leb b'A' c && leb c b'Z' then c + 32 else c

abbrev pub is_alphanumeric : ℕ → Bool
is_alphanumeric c = (leb b'a' c && leb c b'z') || (leb b'0' c && leb c b'9')

-- Case and dashes do not matter.
unfoldable pub normalise_recovery_code : List ℕ → List ℕ
normalise_recovery_code code = filter is_alphanumeric (map lower_letter code)

-- The test vector of RFC 4226: the value of its first HMAC.
truncated_example :
    six_digits (
      truncated (
        0xcc ∷ 0x93 ∷ 0xcf ∷ 0x18 ∷ 0x50 ∷ 0x8d ∷ 0x94 ∷ 0x93 ∷ 0x4c ∷ 0x64 ∷ 0xb6 ∷ 0x5d ∷ 0x8b
        ∷ 0xa7 ∷ 0x66 ∷ 0x7f ∷ 0xb7 ∷ 0xcd ∷ 0xe4 ∷ 0xb0 ∷ [])
      % 1_000_000)
    ≡ codes "755224"
unfolding six_digits truncated
truncated_example = refl
