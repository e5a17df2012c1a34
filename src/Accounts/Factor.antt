-- ===== src/Accounts/Factor.antt =====
-- staff/auth/staff-auth.service.ts (consumeSecondFactor): a one-time code or a recovery code is used up.
pub mod Replay
use valle_web_backend.Prelude.{
  ℕ, ◌≡◌, refl, Bool, true, false, ◌&&◌, not, Option, none, some, List, [], ◌∷◌, String, filter,
  any, length, ltb, leb, if◌then◌else◌, str_eq,
}
use valle_web_backend.Prelude.Http.{Result, ok, ◌>>=◌}
use valle_web_backend.Booking.{Time}
use valle_web_backend.Accounts.{StaffUser, Crypto}
use valle_web_backend.Accounts.Totp.{verify_totp, normalise_recovery_code}

-- user.totpLastStep == null || step > user.totpLastStep
abbrev pub is_fresh : Option ℕ → ℕ → Bool
is_fresh none step = true
is_fresh (some last) step = ltb last step

unfoldable pub has_hash : String → List String → Bool
has_hash h hashes = any (str_eq h) hashes

unfoldable pub without_hash : String → List String → List String
without_hash h hashes = filter (λ x. not (str_eq h x)) hashes

module _ (crypto : Crypto) where
  abbrev pub recovery_hash : List ℕ → String
  recovery_hash code = crypto.sha256 (normalise_recovery_code code)

  -- A recovery code of the list is taken off it.
  unfoldable pub use_recovery_code : StaffUser → List ℕ → Bool × StaffUser
  use_recovery_code u code =
      if leb 10 (length (normalise_recovery_code code))
        && has_hash (recovery_hash code) u.recovery_code_hashes
      then (
        true,
        record u {
          recovery_code_hashes = without_hash (recovery_hash code) u.recovery_code_hashes;
        },
      )
      else (false, u)

  unfoldable pub use_step : StaffUser → List ℕ → Option ℕ → Bool × StaffUser
  use_step u code none = use_recovery_code u code
  use_step u code (some step) =
      if is_fresh u.totp_last_step step
      then (true, record u { totp_last_step = some step })
      else use_recovery_code u code

  -- A secret that cannot be opened, or is empty, leaves the recovery codes.
  abbrev pub opened : Option String → Option (List ℕ)
  opened none = none
  opened (some sealed) = crypto.open_secret sealed

  abbrev pub matched_step : Option (List ℕ) → List ℕ → Time → Result (Option ℕ)
  matched_step none code now = ok none
  matched_step (some []) code now = ok none
  matched_step (some (c ∷ cs)) code now = verify_totp crypto (c ∷ cs) code now

  -- Whether the code is accepted, and the account's row after it.
  unfoldable pub consume_second_factor : StaffUser → List ℕ → Time → Result (Bool × StaffUser)
  consume_second_factor u code now = do
    step ← matched_step (opened u.totp_secret_enc) code now
    ok (use_step u code step)
