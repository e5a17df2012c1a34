-- ===== src/Accounts/Revoked.antt =====
-- staff/auth/: a reset makes every earlier token of the account void.
use valle_web_backend.Prelude.{
  ℕ, ◌<◌, ◌≤◌, ◌≡◌, sym, ap, ◌∙◌, false, none, some, List, String, or_zero, eq_iff, arith,
}
use valle_web_backend.Prelude.Http.{ok, err, unauthorized}
use valle_web_backend.Prelude.Rows.{row-save, key-row}
use valle_web_backend.Booking.{Time}
use valle_web_backend.Accounts.{StaffUser, PasswordReset, Crypto, Staff, StaffJwtPayload, id_of}
use valle_web_backend.Accounts.Sessions.{
  find_user, put_user, same_version, complete_two_factor, staff_from_token, expired_message,
}
use valle_web_backend.Accounts.Security.{
  finish_reset, reset_account, set_password, with_password, claimed_in,
}
use valle_web_backend.Accounts.Calls.{StaffCall, run_staff_calls}
use valle_web_backend.Accounts.Versions.Steps.{run_staff_calls-Newer}

other_version :
    (p : StaffJwtPayload) (u : StaffUser)
    → or_zero p.tv < u.token_version
    → same_version p u ≡ false
other_version p u h = ground arith

claimed_user :
    (r : PasswordReset) (now : Time) (st : Staff) (u : StaffUser)
    → find_user st r.staff_id ≡ some u
    → find_user (claimed_in r now st) r.staff_id ≡ some u
unfolding find_user
claimed_user r now st u h = h

module _ (crypto : Crypto) where
  set_password-raises :
      (password : String) (now : Time) (u : StaffUser) (id : String) (st : Staff)
      → find_user st id ≡ some u
      → find_user (set_password crypto password now u st) id
        ≡ some (with_password crypto password u)
  unfolding find_user set_password put_user with_password
  set_password-raises password now u id st there = ground (
    arith,
    row-save id_of (with_password crypto password u) st.users id,
    key-row id_of st.users id u there,
    eq_iff u.id id,
  )

  -- What a reset that went through leaves of the account.
  finish_reset-raises :
      (r : PasswordReset) (password : String) (now : Time) (st st' : Staff) (u : StaffUser)
      → finish_reset crypto r password now st ≡ (st', ok tt)
      → find_user st r.staff_id ≡ some u
      → find_user st' r.staff_id ≡ some (with_password crypto password u)
  unfolding finish_reset reset_account
  finish_reset-raises r password now st st' u h there =
      let claimed = claimed_in r now st in
      let wrote : set_password crypto password now u claimed ≡ st' = ground arith in
      ap (λ t. find_user t r.staff_id) (sym wrote)
      ∙ set_password-raises password now u r.staff_id claimed (claimed_user r now st u there)

  refused :
      (p : StaffJwtPayload) (code : List ℕ) (now : Time) (st : Staff) (v : StaffUser)
      → find_user st p.sub ≡ some v
      → or_zero p.tv < v.token_version
      → (staff_from_token (some p) st ≡ none)
        × (complete_two_factor crypto (some p) code now st ≡ err (unauthorized expired_message))
  unfolding staff_from_token complete_two_factor
  refused p code now st v there old =
      let other = other_version p v old in (ground (arith), ground (arith))

  -- Once a reset went through, no token that was signed before it opens a session or completes a login,
  -- whatever calls follow.
  pub reset-revokes :
      (r : PasswordReset) (password : String) (now later : Time) (st st' : Staff) (u : StaffUser)
      (p : StaffJwtPayload) (calls : List StaffCall) (code : List ℕ)
      → finish_reset crypto r password now st ≡ (st', ok tt)
      → find_user st r.staff_id ≡ some u
      → p.sub ≡ r.staff_id
      → or_zero p.tv ≤ u.token_version
      → (staff_from_token (some p) (run_staff_calls crypto calls st') ≡ none)
        × (complete_two_factor crypto (some p) code later (run_staff_calls crypto calls st')
            ≡ err (unauthorized expired_message))
  unfolding with_password
  reset-revokes r password now later st st' u p calls code done there of old =
      let raised = finish_reset-raises r password now st st' u done there in
      let (v, kept, le) = run_staff_calls-Newer crypto calls st' r.staff_id _ raised in
      refused p code later (run_staff_calls crypto calls st') v
        (ap (find_user (run_staff_calls crypto calls st')) of ∙ kept) (omega arith)
