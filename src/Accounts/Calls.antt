-- ===== src/Accounts/Calls.antt =====
-- staff/auth/: the calls that write the accounts, one after the other. Those of a reset are read apart
-- from what follows the reading, since requests may come between.
use valle_web_backend.Prelude.{ℕ, String, List, [], ◌∷◌}
use valle_web_backend.Prelude.Http.{Result, ok, err}
use valle_web_backend.Booking.{Time}
use valle_web_backend.Prelude.{Option}
use valle_web_backend.Accounts.{
  StaffRole, PasswordReset, Crypto, Staff, StaffJwtPayload, StaffPrincipal,
}
use valle_web_backend.Accounts.Sessions.{Entered, complete_two_factor}
use valle_web_backend.Accounts.Security.{
  request_reset, finish_reset, begin_setup, confirm_setup, disable, regenerate_recovery_codes,
}
use valle_web_backend.Accounts.Team.{StaffPatch, create, update, send_reset}

pub data StaffCall : Type 0 where
  enter_code : Option StaffJwtPayload → List ℕ → Time → StaffCall
  ask_reset : String → List ℕ → Time → String → StaffCall
  use_reset : PasswordReset → String → Time → StaffCall
  start_setup : String → String → StaffCall
  end_setup : String → List ℕ → List (List ℕ) → Time → StaffCall
  turn_off : String → List ℕ → Time → StaffCall
  new_codes : String → List ℕ → List (List ℕ) → Time → StaffCall
  new_account : String → String → String → StaffRole → List ℕ → String → List ℕ → Time → StaffCall
  change_account : StaffPrincipal → String → StaffPatch → StaffCall
  mail_reset : String → String → List ℕ → Time → StaffCall

-- A call that throws leaves the tables.
abbrev pub staff_or : Staff → Result Staff → Staff
staff_or st (ok st') = st'
staff_or st (err e) = st

abbrev pub tables_of : Result (Entered × Staff) → Result Staff
tables_of (ok (entered, st)) = ok st
tables_of (err e) = err e

module _ (crypto : Crypto) where
  unfoldable pub run_staff_call : StaffCall → Staff → Staff
  run_staff_call (enter_code p code now) st =
      staff_or st (tables_of (complete_two_factor crypto p code now st))
  run_staff_call (ask_reset id token now email) st = request_reset crypto id token now email st
  run_staff_call (use_reset r password now) st = (finish_reset crypto r password now st).0
  run_staff_call (start_setup id sealed) st = staff_or st (begin_setup id sealed st)
  run_staff_call (end_setup id code recovery now) st =
      staff_or st (confirm_setup crypto id code recovery now st)
  run_staff_call (turn_off id code now) st = staff_or st (disable crypto id code now st)
  run_staff_call (new_codes id code recovery now) st =
      staff_or st (regenerate_recovery_codes crypto id code recovery now st)
  run_staff_call (new_account id name email role random reset_id token now) st =
      staff_or st (create crypto id name email role random reset_id token now st)
  run_staff_call (change_account actor id patch) st = staff_or st (update actor id patch st)
  run_staff_call (mail_reset id reset_id token now) st =
      staff_or st (send_reset crypto id reset_id token now st)

  unfoldable pub run_staff_calls : List StaffCall → Staff → Staff
  run_staff_calls [] st = st
  run_staff_calls (call ∷ calls) st = run_staff_calls calls (run_staff_call call st)
