-- ===== src/Accounts/Team.antt =====
-- staff/auth/staff-users.service.ts: the manager's work on accounts. A role is one of the three that the
-- service accepts.
use valle_web_backend.Prelude.{
  ℕ, ◌+◌, Bool, true, false, ◌&&◌, not, Option, none, some, List, [], ◌∷◌, ◌++◌, String,
  if◌then◌else◌, str_eq, is_some, or_default,
}
use valle_web_backend.Prelude.Text.{trim}
use valle_web_backend.Prelude.Upper.{lower}
use valle_web_backend.Prelude.Http.{
  Result, ok, bad_request, not_found, conflict, ◌>>=◌, ◌>>◌, throw_if, or_throw,
}
use valle_web_backend.Booking.{Time}
use valle_web_backend.Accounts.{StaffRole, StaffUser, Crypto, Staff, StaffPrincipal}
use valle_web_backend.Accounts.Sessions.{find_user, find_email, put_user}
use valle_web_backend.Accounts.Security.{send_reset_for}

-- The row of a new account under the key that the database draws, with the hash of a random password.
abbrev pub new_user : String → String → String → StaffRole → String → StaffUser
new_user id name email role hash = record {
  id = id;
  email = lower (trim email);
  name = trim name;
  role = role;
  password_hash = hash;
  active = true;
  token_version = 0;
  totp_secret_enc = none;
  totp_pending_enc = none;
  totp_enabled = false;
  totp_last_step = none;
  recovery_code_hashes = [];
}

abbrev pub add_user : StaffUser → Staff → Staff
add_user u st = record st { users = st.users ++ u ∷ [] }

-- A new account, and the link by which the person sets a password.
unfoldable pub create :
    Crypto
    → String
    → String
    → String
    → StaffRole
    → List ℕ
    → String
    → List ℕ
    → Time
    → Staff
    → Result Staff
create crypto id name email role random reset_id token now st = do
  throw_if (is_some (find_email st (lower (trim email))))
      (conflict "A staff account with this e-mail already exists")
  let u = new_user id name email role (crypto.hash_password (crypto.sha256 random))
  ok (send_reset_for crypto reset_id token now u (add_user u st))

pub record StaffPatch : Type 0 where
  pub role : Option StaffRole
  pub active : Option Bool
  pub name : Option String

abbrev pub is_manager : StaffRole → Bool
is_manager StaffRole.manager = true
is_manager _ = false

abbrev pub deactivates : StaffPatch → Bool
deactivates patch = elim patch.active [ none ↦ false | some active ↦ not active ]

abbrev pub demotes : StaffPatch → Bool
demotes patch = elim patch.role [ none ↦ false | some role ↦ not (is_manager role) ]

-- Turned off, the account's sessions never come back.
unfoldable pub switched : Option Bool → StaffUser → StaffUser
switched none u = u
switched (some true) u = if u.active then u else record u { active = true }
switched (some false) u =
    if u.active then record u { active = false; token_version = u.token_version + 1 } else u

abbrev pub renamed : Option String → String → String
renamed none name = name
renamed (some new_name) name = trim new_name

unfoldable pub patched : StaffPatch → StaffUser → StaffUser
patched patch u =
    switched patch.active
      (record u { role = or_default patch.role u.role; name = renamed patch.name u.name })

unfoldable pub update : StaffPrincipal → String → StaffPatch → Staff → Result Staff
update actor id patch st = do
  u ← or_throw (find_user st id) (not_found "Staff account not found")
  throw_if (str_eq actor.id u.id && deactivates patch)
      (bad_request "You cannot deactivate your own account")
  throw_if (str_eq actor.id u.id && demotes patch)
      (bad_request "You cannot remove your own manager role")
  ok (put_user (patched patch u) st)

unfoldable pub send_reset : Crypto → String → String → List ℕ → Time → Staff → Result Staff
send_reset crypto id reset_id token now st = do
  u ← or_throw (find_user st id) (not_found "Staff account not found")
  throw_if (not u.active) (bad_request "Reactivate the account first")
  ok (send_reset_for crypto reset_id token now u st)
