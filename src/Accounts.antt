-- ===== src/Accounts.antt =====
-- staff/auth/: staff accounts, their second factor, sessions and password resets; the entities
-- staff-user.entity.ts and staff-password-reset.entity.ts. Texts that are walked character by character
-- are lists of code points here, and a Buffer is the list of its bytes. Left out of an account are the
-- times of its creation, last login and last change of password, which no rule reads.
pub mod Base32
pub mod Totp
pub mod Factor
pub mod Sessions
pub mod Security
pub mod Team
pub mod Calls
pub mod Versions
pub mod Revoked
mod Tests
use valle_web_backend.Prelude.{ℕ, String, Option, List, Bool}
use valle_web_backend.Booking.{Time}

pub data StaffRole : Type 0 where
  agent hr manager : StaffRole

pub record StaffUser : Type 0 where
  pub id : String
  pub email : String
  pub name : String
  pub role : StaffRole
  pub password_hash : String
  pub active : Bool
  pub token_version : ℕ
  pub totp_secret_enc : Option String
  pub totp_pending_enc : Option String
  pub totp_enabled : Bool
  pub totp_last_step : Option ℕ
  pub recovery_code_hashes : List String

pub record PasswordReset : Type 0 where
  pub id : String
  pub staff_id : String
  pub token_hash : String
  pub expires_at : Time
  pub used_at : Option Time

-- What the runtime and its packages compute: HMAC-SHA-1, SHA-256 in hex, the opening of a sealed secret
-- under the server's key, bcrypt's compare and hash.
pub record Crypto : Type 0 where
  pub hmac : List ℕ → List ℕ → List ℕ
  pub sha256 : List ℕ → String
  pub open_secret : String → Option (List ℕ)
  pub compare_password : String → String → Bool
  pub hash_password : String → String

-- The tables of the module.
pub record Staff : Type 0 where
  pub users : List StaffUser
  pub resets : List PasswordReset

-- What the signed token holds; tv is absent on old tokens, the second step is the purpose '2fa'.
pub record StaffJwtPayload : Type 0 where
  pub sub : String
  pub email : String
  pub role : StaffRole
  pub tv : Option ℕ
  pub second_step : Bool

pub record StaffPrincipal : Type 0 where
  pub id : String
  pub email : String
  pub name : String
  pub role : StaffRole

abbrev pub id_of : StaffUser → String
id_of u = u.id
