-- ===== src/Accounts/Security.antt =====
-- staff/auth/staff-security.service.ts: password resets, and turning the second factor on and off. The
-- random token, secret (sealed) and recovery codes that a call draws are its arguments; mail is left out.
use valle_web_backend.Prelude.{
  ℕ, ◌+◌, Bool, true, false, ◌&&◌, ◌||◌, not, Option, none, some, List, [], ◌∷◌, String, find,
  length, map, ltb, if◌then◌else◌, str_eq, is_some,
}
use valle_web_backend.Prelude.Text.{trim, codes}
use valle_web_backend.Prelude.Upper.{lower}
use valle_web_backend.Prelude.Http.{
  Result, ok, err, bad_request, unauthorized, ◌>>=◌, ◌>>◌, throw_if, or_throw,
}
use valle_web_backend.Booking.{Time}
use valle_web_backend.Accounts.{StaffUser, PasswordReset, Crypto, Staff}
use valle_web_backend.Accounts.Totp.{verify_totp, normalise_recovery_code}
use valle_web_backend.Accounts.Factor.{consume_second_factor, opened}
use valle_web_backend.Accounts.Sessions.{find_user, find_email, put_user}

-- RESET_TOKEN_MINUTES, in milliseconds.
abbrev pub reset_ms : ℕ
reset_ms = 1_800_000

-- A row for a drawn token, under the key that the database draws.
unfoldable pub send_reset_for : Crypto → String → List ℕ → Time → StaffUser → Staff → Staff
send_reset_for crypto id token now u st = record st {
  resets =
      record {
        id = id;
        staff_id = u.id;
        token_hash = crypto.sha256 token;
        expires_at = now + reset_ms;
        used_at = none;
      }
      ∷ st.resets;
}

-- Unknown and inactive addresses change nothing.
unfoldable pub reset_link : Crypto → String → List ℕ → Time → Option StaffUser → Staff → Staff
reset_link crypto id token now none st = st
reset_link crypto id token now (some u) st =
    if u.active then send_reset_for crypto id token now u st else st

unfoldable pub request_reset : Crypto → String → List ℕ → Time → String → Staff → Staff
request_reset crypto id token now email st =
    reset_link crypto id token now (find_email st (lower (trim email))) st

unfoldable pub find_reset : Staff → String → Option PasswordReset
find_reset st hash = find (λ (r : PasswordReset). str_eq r.token_hash hash) st.resets

abbrev pub invalid_link : String
invalid_link = "This reset link is invalid or has expired"

abbrev used_now : Time → PasswordReset → PasswordReset
used_now now r = record r { used_at = if is_some r.used_at then r.used_at else some now }

-- UPDATE … SET used_at WHERE id = … AND used_at IS NULL
unfoldable pub claim : String → Time → List PasswordReset → List PasswordReset
claim id now [] = []
claim id now (r ∷ rows) = (if str_eq r.id id then used_now now r else r) ∷ claim id now rows

-- Whether the update above changes a row.
unfoldable pub is_claimable : String → List PasswordReset → Bool
is_claimable id [] = false
is_claimable id (r ∷ rows) = (str_eq r.id id && not (is_some r.used_at)) || is_claimable id rows

-- The other links of the account die too.
unfoldable pub claim_all : String → Time → List PasswordReset → List PasswordReset
claim_all staff_id now [] = []
claim_all staff_id now (r ∷ rows) =
    (if str_eq r.staff_id staff_id then used_now now r else r) ∷ claim_all staff_id now rows

unfoldable pub with_password : Crypto → String → StaffUser → StaffUser
with_password crypto password u = record u {
  password_hash = crypto.hash_password password;
  token_version = u.token_version + 1;
}

unfoldable pub set_password : Crypto → String → Time → StaffUser → Staff → Staff
set_password crypto password now u st = record (put_user (with_password crypto password u) st) {
  resets = claim_all u.id now st.resets;
}

-- The account of a claimed link: where it is gone or turned off, the claim stays.
unfoldable pub reset_account :
    Crypto → String → Time → Option StaffUser → Staff → Staff × Result (Unit {0})
reset_account crypto password now none claimed = (claimed, err (bad_request invalid_link))
reset_account crypto password now (some u) claimed =
    if u.active
    then (set_password crypto password now u claimed, ok tt)
    else (claimed, err (bad_request invalid_link))

abbrev pub claimed_in : PasswordReset → Time → Staff → Staff
claimed_in r now st = record st { resets = claim r.id now st.resets }

-- What follows the reading of the row: the tables, and whether it threw.
unfoldable pub finish_reset :
    Crypto → PasswordReset → String → Time → Staff → Staff × Result (Unit {0})
finish_reset crypto r password now st =
    if is_claimable r.id st.resets
    then reset_account crypto password now (find_user st r.staff_id) (claimed_in r now st)
    else (st, err (bad_request invalid_link))

-- A row that can still be used, for a token and a password long enough.
unfoldable pub read_reset : Crypto → List ℕ → String → Time → Staff → Result PasswordReset
read_reset crypto token password now st = do
  throw_if (ltb (length (codes password)) 10)
      (bad_request "Password must be at least 10 characters")
  r ← or_throw (find_reset st (crypto.sha256 token)) (bad_request invalid_link)
  throw_if (is_some r.used_at || ltb r.expires_at now) (bad_request invalid_link)
  ok r

unfoldable pub reset_password : Crypto → List ℕ → String → Time → Staff → Staff × Result (Unit {0})
reset_password crypto token password now st = elim (read_reset crypto token password now st) [
  | ok r ↦ finish_reset crypto r password now st
  | err e ↦ (st, err e)
]

unfoldable pub require_user : String → Staff → Result StaffUser
require_user id st = do
  u ← or_throw (find_user st id) (unauthorized "Not signed in")
  throw_if (not u.active) (unauthorized "Not signed in")
  ok u

unfoldable pub begin_setup : String → String → Staff → Result Staff
begin_setup id sealed st = do
  u ← require_user id st
  throw_if u.totp_enabled (bad_request "Two-step login is already on")
  ok (put_user (record u { totp_pending_enc = some sealed }) st)

abbrev pub code_hashes : Crypto → List (List ℕ) → List String
code_hashes crypto codes = map (λ c. crypto.sha256 (normalise_recovery_code c)) codes

abbrev pub non_empty : Option (List ℕ) → Option (List ℕ)
non_empty none = none
non_empty (some []) = none
non_empty (some (c ∷ cs)) = some (c ∷ cs)

unfoldable pub confirm_setup :
    Crypto → String → List ℕ → List (List ℕ) → Time → Staff → Result Staff
confirm_setup crypto id code recovery now st = do
  u ← require_user id st
  throw_if u.totp_enabled (bad_request "Two-step login is already on")
  secret ←
      or_throw (non_empty (opened crypto u.totp_pending_enc)) (bad_request "Start the setup again")
  matched ← verify_totp crypto secret code now
  step ← or_throw matched (bad_request "That code does not match, try the newest one")
  ok (
      put_user
        (record u {
          totp_secret_enc = u.totp_pending_enc;
          totp_pending_enc = none;
          totp_enabled = true;
          totp_last_step = some step;
          recovery_code_hashes = code_hashes crypto recovery;
        })
        st)

abbrev pub turned_off : StaffUser → StaffUser
turned_off u = record u {
  totp_enabled = false;
  totp_secret_enc = none;
  totp_pending_enc = none;
  totp_last_step = none;
  recovery_code_hashes = [];
}

unfoldable pub disable_enabled : Crypto → StaffUser → List ℕ → Time → Staff → Result Staff
disable_enabled crypto u code now st = do
  (accepted, u') ← consume_second_factor crypto u code now
  throw_if (not accepted) (bad_request "That code does not match")
  ok (put_user (turned_off u') st)

unfoldable pub disable : Crypto → String → List ℕ → Time → Staff → Result Staff
disable crypto id code now st = do
  u ← require_user id st
  if u.totp_enabled then disable_enabled crypto u code now st else ok st

unfoldable pub regenerate_recovery_codes :
    Crypto → String → List ℕ → List (List ℕ) → Time → Staff → Result Staff
regenerate_recovery_codes crypto id code recovery now st = do
  u ← require_user id st
  throw_if (not u.totp_enabled) (bad_request "Two-step login is off")
  (accepted, u') ← consume_second_factor crypto u code now
  throw_if (not accepted) (bad_request "That code does not match")
  ok (put_user (record u' { recovery_code_hashes = code_hashes crypto recovery }) st)
