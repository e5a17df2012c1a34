-- ===== src/Accounts/Sessions.antt =====
-- staff/auth/staff-auth.service.ts (login, completeTwoFactor, staffFromToken): sessions. A token is the
-- payload that the token library reads out of it, or none where it refuses it; what a login signs is the
-- payload that it gives back.
use valle_web_backend.Prelude.{
  ℕ, Bool, true, false, ◌&&◌, ◌||◌, not, Option, none, some, List, String, find, ◌==◌, or_zero,
  if◌then◌else◌, str_eq, is_some,
}
use valle_web_backend.Prelude.Text.{is_filled, trim}
use valle_web_backend.Prelude.Upper.{lower}
use valle_web_backend.Prelude.Http.{Result, ok, unauthorized, ◌>>=◌, ◌>>◌, throw_if, or_throw}
use valle_web_backend.Prelude.Rows.{row, save}
use valle_web_backend.Booking.{Time}
use valle_web_backend.Accounts.{StaffUser, Crypto, Staff, StaffJwtPayload, StaffPrincipal, id_of}
use valle_web_backend.Accounts.Factor.{consume_second_factor}

unfoldable pub find_user : Staff → String → Option StaffUser
find_user st id = row id_of st.users id

-- findOne by the unique address.
unfoldable pub find_email : Staff → String → Option StaffUser
find_email st email = find (λ (u : StaffUser). str_eq u.email email) st.users

unfoldable pub put_user : StaffUser → Staff → Staff
put_user u st = record st { users = save id_of u st.users }

abbrev pub to_principal : StaffUser → StaffPrincipal
to_principal u = record { id = u.id; email = u.email; name = u.name; role = u.role }

-- signToken
abbrev pub payload_of : Bool → StaffUser → StaffJwtPayload
payload_of second_step u = record {
  sub = u.id;
  email = u.email;
  role = u.role;
  tv = some u.token_version;
  second_step = second_step;
}

pub data Entered : Type 0 where
  session : StaffPrincipal → StaffJwtPayload → Entered
  two_factor_required : StaffJwtPayload → Entered

unfoldable pub issue_session : StaffUser → Entered
issue_session u = Entered.session (to_principal u) (payload_of false u)

abbrev pub generic_failure : String
generic_failure = "Invalid email or password"

-- A hash that no password has, compared where there is no active account.
abbrev pub decoy_hash : String
decoy_hash = "$2b$12$vYwWbLJdvXFfzEEk5CEMiezmCPdfa.YoVTWuUxTu1I2lWsGKE1tLW"

abbrev pub hash_to_compare : Option StaffUser → String
hash_to_compare none = decoy_hash
hash_to_compare (some u) = if u.active then u.password_hash else decoy_hash

unfoldable pub login : Crypto → String → String → Staff → Result Entered
login crypto email password st =
    let found = find_email st (lower (trim email)) in
    let matches = crypto.compare_password password (hash_to_compare found) in
    (do
      u ← or_throw found (unauthorized generic_failure)
      throw_if (not matches || not u.active) (unauthorized generic_failure)
      ok (
          if u.totp_enabled && is_some u.totp_secret_enc
          then Entered.two_factor_required (payload_of true u)
          else issue_session u))

abbrev pub expired_message : String
expired_message = "Sign-in expired, enter your password again"

-- The account and the token's version agree.
abbrev pub same_version : StaffJwtPayload → StaffUser → Bool
same_version p u = or_zero p.tv == u.token_version

-- The second half of a two-step login.
unfoldable pub complete_two_factor :
    Crypto → Option StaffJwtPayload → List ℕ → Time → Staff → Result (Entered × Staff)
complete_two_factor crypto payload code now st = do
  p ← or_throw payload (unauthorized expired_message)
  throw_if (not (is_filled p.sub) || not p.second_step) (unauthorized expired_message)
  u ← or_throw (find_user st p.sub) (unauthorized expired_message)
  throw_if (not u.active || not (same_version p u) || not u.totp_enabled)
      (unauthorized expired_message)
  (accepted, u') ← consume_second_factor crypto u code now
  throw_if (not accepted) (unauthorized "Invalid or expired code")
  ok (issue_session u', put_user u' st)

abbrev pub live_principal : StaffJwtPayload → Option StaffUser → Option StaffPrincipal
live_principal p none = none
live_principal p (some u) = if u.active && same_version p u then some (to_principal u) else none

-- A token's account as it stands now, or none.
unfoldable pub staff_from_token : Option StaffJwtPayload → Staff → Option StaffPrincipal
staff_from_token none st = none
staff_from_token (some p) st =
    if not (is_filled p.sub) || p.second_step then none else live_principal p (find_user st p.sub)
