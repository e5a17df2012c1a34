-- ===== src/Accounts/Tests.antt =====
-- The theorems of Accounts at concrete accounts, and tests.
use valle_web_backend.Prelude.{ℕ, ◌<◌, ◌≡◌, refl, true, none, some, List, [], ◌∷◌, arith, ◌++◌}
use valle_web_backend.Prelude.Text.{codes}
use valle_web_backend.Prelude.Http.{ok, err, unauthorized}
use valle_web_backend.Prelude.Rows.{row}
use valle_web_backend.Booking.{Time}
use valle_web_backend.Accounts.{StaffRole, StaffUser, PasswordReset, Crypto, Staff, StaffJwtPayload}
use valle_web_backend.Accounts.Base32.{base32_encode, base32_decode, clean, decode_from, index_of}
use valle_web_backend.Accounts.Base32.Round.{base32_decode-base32_encode}
use valle_web_backend.Accounts.Totp.{
  verify_totp, first_match, hotp, totp_step, is_six_digits, without_spaces, truncated, six_digits,
  normalise_recovery_code,
}
use valle_web_backend.Accounts.Factor.{
  opened, matched_step, consume_second_factor, use_step, use_recovery_code, has_hash, without_hash,
}
use valle_web_backend.Accounts.Factor.Replay.{attempts, consume_second_factor-again}
use valle_web_backend.Accounts.Sessions.{
  find_user, complete_two_factor, staff_from_token, expired_message,
}
use valle_web_backend.Accounts.Security.{finish_reset, reset_account, is_claimable}
use valle_web_backend.Accounts.Calls.{StaffCall, change_account, run_staff_calls}
use valle_web_backend.Accounts.Revoked.{reset-revokes}

abbrev small_bytes : List ℕ
small_bytes = 1 ∷ 255 ∷ 0 ∷ []

base32_decode-base32_encode_example : base32_decode (base32_encode small_bytes) ≡ some small_bytes
base32_decode-base32_encode_example = base32_decode-base32_encode small_bytes (omega arith)

-- A hash that gives every step the code 000000.
abbrev plain_crypto : Crypto
plain_crypto = record {
  hmac = λ key message. message ++ (0 ∷ 0 ∷ 0 ∷ 0 ∷ []);
  sha256 = λ text. "hash";
  open_secret = λ sealed. some (codes "MZXW6YTB");
  compare_password = λ password hash. true;
  hash_password = λ password. "hashed";
}

abbrev ana : StaffUser
ana = record {
  id = "u1";
  email = "ana@valle.mu";
  name = "Ana";
  role = StaffRole.manager;
  password_hash = "old";
  active = true;
  token_version = 4;
  totp_secret_enc = some "sealed";
  totp_pending_enc = none;
  totp_enabled = true;
  totp_last_step = none;
  recovery_code_hashes = "hash" ∷ [];
}

abbrev zeros : List ℕ
zeros = codes "000000"

-- Step 2000 at 60,000,000 ms; the code matches the step before it first.
abbrev first_time : Time
first_time = 60_000_000

accepted_once :
    consume_second_factor plain_crypto ana zeros first_time
    ≡ ok (true, record ana { totp_last_step = some 1_999 })
unfolding consume_second_factor verify_totp first_match hotp totp_step is_six_digits without_spaces
    base32_decode clean decode_from index_of truncated six_digits use_step
accepted_once = refl

recovered :
    consume_second_factor plain_crypto ana (codes "abcde-23456") first_time
    ≡ ok (true, record ana { recovery_code_hashes = [] })
unfolding consume_second_factor verify_totp is_six_digits without_spaces use_step use_recovery_code
    normalise_recovery_code has_hash without_hash
recovered = refl

abbrev later_ana : StaffUser
later_ana = attempts plain_crypto (record ana { totp_last_step = some 1_999 }) []

accepted_later :
    consume_second_factor plain_crypto later_ana zeros 60_090_000
    ≡ ok (true, record ana { totp_last_step = some 2_002 })
unfolding attempts consume_second_factor verify_totp first_match hotp totp_step is_six_digits
    without_spaces base32_decode clean decode_from index_of truncated six_digits use_step
accepted_later = refl

consume_second_factor-again_example :
    (spent step : ℕ) × (some 1_999 ≡ some spent)
    × (matched_step plain_crypto (opened plain_crypto later_ana.totp_secret_enc) zeros 60_090_000
        ≡ ok (some step))
    × (spent < step)
consume_second_factor-again_example =
    consume_second_factor-again plain_crypto ana (record ana { totp_last_step = some 1_999 })
      (record ana { totp_last_step = some 2_002 }) zeros first_time 60_090_000 [] accepted_once
      accepted_later

abbrev link : PasswordReset
link = record { id = "r1"; staff_id = "u1"; token_hash = "hash"; expires_at = 100; used_at = none }

abbrev office : Staff
office = record { users = ana ∷ []; resets = link ∷ [] }

abbrev after_reset : Staff
after_reset = (finish_reset plain_crypto link "a new password" 50 office).0

reset_done : finish_reset plain_crypto link "a new password" 50 office ≡ (after_reset, ok tt)
unfolding finish_reset reset_account is_claimable find_user row
reset_done = refl

account_found : find_user office link.staff_id ≡ some ana
unfolding find_user row
account_found = refl

abbrev old_token : StaffJwtPayload
old_token = record {
  sub = "u1";
  email = "ana@valle.mu";
  role = StaffRole.manager;
  tv = some 4;
  second_step = true;
}

abbrev rename : List StaffCall
rename =
    change_account (record { id = "u2"; email = ""; name = ""; role = StaffRole.manager }) "u1"
      (record { role = none; active = none; name = some "Ana P." })
    ∷ []

reset-revokes_example :
    (staff_from_token (some old_token) (run_staff_calls plain_crypto rename after_reset) ≡ none)
    × (complete_two_factor plain_crypto
          (some old_token)
          zeros
          60
          (run_staff_calls plain_crypto rename after_reset)
        ≡ err (unauthorized expired_message))
reset-revokes_example =
    reset-revokes plain_crypto link "a new password" 50 60 office after_reset ana old_token rename
      zeros reset_done account_found refl (omega arith)
