-- ===== src/Accounts/Versions/Steps.antt =====
-- staff/auth/: no call lowers the version of an account's tokens.
use valle_web_backend.Prelude.{
  ℕ, ◌≡◌, refl, sym, ap, ◌∙◌, Bool, true, false, ◌&&◌, ◌||◌, not, Option, none, some, inl, inr,
  List, [], ◌∷◌, String, is_some, if◌then◌else◌, str_eq, arith, Bool-cases,
}
use mathlib.Core.Path.{subst}
use valle_web_backend.Prelude.Text.{is_filled, trim}
use valle_web_backend.Prelude.Upper.{lower}
use valle_web_backend.Prelude.Http.{Result, ok, err, throw_if, or_throw, returned, or_throw-eq-ok}
use valle_web_backend.Booking.{Time}
use valle_web_backend.Accounts.{
  StaffRole, StaffUser, PasswordReset, Crypto, Staff, StaffJwtPayload, StaffPrincipal,
}
use valle_web_backend.Accounts.Totp.{verify_totp}
use valle_web_backend.Accounts.Factor.{
  use_recovery_code, use_step, opened, matched_step, consume_second_factor,
}
use valle_web_backend.Accounts.Sessions.{
  Entered, find_user, find_email, put_user, same_version, complete_two_factor,
}
use valle_web_backend.Accounts.Security.{
  send_reset_for, reset_link, request_reset, finish_reset, require_user, begin_setup, confirm_setup,
  disable, disable_enabled, regenerate_recovery_codes, set_password, with_password, is_claimable,
  reset_account, claimed_in, non_empty,
}
use valle_web_backend.Accounts.Team.{
  StaffPatch, new_user, add_user, create, patched, update, send_reset, deactivates, demotes,
}
use valle_web_backend.Accounts.Calls.{
  StaffCall, enter_code, ask_reset, use_reset, start_setup, end_setup, turn_off, new_codes,
  new_account, change_account, mail_reset, staff_or, tables_of, run_staff_call, run_staff_calls,
}
use valle_web_backend.Accounts.Versions.{
  Newer, Newer-refl, Newer-trans, edit-Newer, staff_or-Newer, pick-Newer, ok-Newer,
  require_user-some, send_reset_for-Newer, add_user-Newer, patched-same,
}

module _ (crypto : Crypto) where
  abbrev SameAccount : StaffUser → StaffUser → Type 0
  SameAccount u u' = (u'.id ≡ u.id) × (u'.token_version ≡ u.token_version)

  use_recovery_code-same :
      (u : StaffUser) (code : List ℕ) → SameAccount u (use_recovery_code crypto u code).1
  unfolding use_recovery_code
  use_recovery_code-same u code = ground arith

  use_step-same :
      (u : StaffUser) (code : List ℕ) (o : Option ℕ) → SameAccount u (use_step crypto u code o).1
  unfolding use_step
  use_step-same u code none = use_recovery_code-same u code
  use_step-same u code (some step) = ground (arith, use_recovery_code-same u code)

  consume-same :
      (u u' : StaffUser) (b : Bool) (code : List ℕ) (now : Time)
      → consume_second_factor crypto u code now ≡ ok (b, u')
      → SameAccount u u'
  unfolding consume_second_factor
  consume-same u u' b code now h =
      let (found, m, e) =
        returned (matched_step crypto (opened crypto u.totp_secret_enc) code now) _ h in
      let p : use_step crypto u code found ≡ (b, u') = cc e in
      let same = use_step-same u code found in
      (ap (λ r. r.1.id) (sym p) ∙ same.0, ap (λ r. r.1.token_version) (sym p) ∙ same.1)

  begin_setup-Newer :
      (id sealed : String) (st st' : Staff) → begin_setup id sealed st ≡ ok st' → Newer st st'
  unfolding begin_setup
  begin_setup-Newer id sealed st st' h =
      let (u, ru, h1) = returned (require_user id st) _ h in
      let (done, off, h2) = returned (throw_if u.totp_enabled _) _ h1 in
      ok-Newer st _ st' h2 (edit-Newer st id u _ (require_user-some id st u ru) refl (omega arith))

  confirm_setup-Newer :
      (id : String) (code : List ℕ) (recovery : List (List ℕ)) (now : Time) (st st' : Staff)
      → confirm_setup crypto id code recovery now st ≡ ok st'
      → Newer st st'
  unfolding confirm_setup
  confirm_setup-Newer id code recovery now st st' h =
      let (u, ru, h1) = returned (require_user id st) _ h in
      let (done, off, h2) = returned (throw_if u.totp_enabled _) _ h1 in
      let (secret, s, h3) =
        returned (or_throw (non_empty (opened crypto u.totp_pending_enc)) _) _ h2 in
      let (matched, m, h4) = returned (verify_totp crypto secret code now) _ h3 in
      let (step, t, h5) = returned (or_throw matched _) _ h4 in
      ok-Newer st _ st' h5 (edit-Newer st id u _ (require_user-some id st u ru) refl (omega arith))

  disable_enabled-Newer :
      (u : StaffUser) (id : String) (code : List ℕ) (now : Time) (st st' : Staff)
      → find_user st id ≡ some u
      → disable_enabled crypto u code now st ≡ ok st'
      → Newer st st'
  unfolding disable_enabled
  disable_enabled-Newer u id code now st st' there h =
      let ((accepted, u'), c, h1) = returned (consume_second_factor crypto u code now) _ h in
      let (done, right, h2) = returned (throw_if (not accepted) _) _ h1 in
      let same = consume-same u u' accepted code now c in
      ok-Newer st _ st' h2 (edit-Newer st id u _ there same.0 (omega (arith, same.1)))

  disable-Newer :
      (id : String) (code : List ℕ) (now : Time) (st st' : Staff)
      → disable crypto id code now st ≡ ok st'
      → Newer st st'
  unfolding disable
  disable-Newer id code now st st' h =
      let (u, ru, h1) = returned (require_user id st) _ h in
      elim (Bool-cases u.totp_enabled) [
        | inl on ↦
            disable_enabled-Newer u id code now st st' (require_user-some id st u ru)
              (rw (← h1) (rw on refl))
        | inr off ↦ ok-Newer st st st' (rw (← h1) (rw off refl)) (Newer-refl st)
      ]

  regenerate-Newer :
      (id : String) (code : List ℕ) (recovery : List (List ℕ)) (now : Time) (st st' : Staff)
      → regenerate_recovery_codes crypto id code recovery now st ≡ ok st'
      → Newer st st'
  unfolding regenerate_recovery_codes
  regenerate-Newer id code recovery now st st' h =
      let (u, ru, h1) = returned (require_user id st) _ h in
      let (done, on, h2) = returned (throw_if (not u.totp_enabled) _) _ h1 in
      let ((accepted, u'), c, h3) = returned (consume_second_factor crypto u code now) _ h2 in
      let (done', right, h4) = returned (throw_if (not accepted) _) _ h3 in
      let same = consume-same u u' accepted code now c in
      ok-Newer st _ st' h4
        (edit-Newer st id u _ (require_user-some id st u ru) same.0 (omega (arith, same.1)))

  complete-Newer :
      (payload : Option StaffJwtPayload) (code : List ℕ) (now : Time) (st st' : Staff)
      (entered : Entered)
      → complete_two_factor crypto payload code now st ≡ ok (entered, st')
      → Newer st st'
  unfolding complete_two_factor
  complete-Newer payload code now st st' entered h =
      let (p, rp, h1) = returned (or_throw payload _) _ h in
      let (done, second, h2) =
        returned (throw_if (not (is_filled p.sub) || not p.second_step) _) _ h1 in
      let (u, ru, h3) = returned (or_throw (find_user st p.sub) _) _ h2 in
      let (done', live, h4) =
        returned (throw_if (not u.active || not (same_version p u) || not u.totp_enabled) _) _ h3 in
      let ((accepted, u'), c, h5) = returned (consume_second_factor crypto u code now) _ h4 in
      let (done'', right, h6) = returned (throw_if (not accepted) _) _ h5 in
      let same = consume-same u u' accepted code now c in
      let e : put_user u' st ≡ st' = cc h6 in
      subst (Newer st) e (
        edit-Newer st p.sub u u' (or_throw-eq-ok (find_user st p.sub) _ ru) same.0
          (omega (arith, same.1)))

  set_password-Newer :
      (password : String) (now : Time) (u : StaffUser) (id : String) (st : Staff)
      → find_user st id ≡ some u
      → Newer st (set_password crypto password now u st)
  unfolding set_password find_user with_password
  set_password-Newer password now u id st there k w h =
      edit-Newer st id u (with_password crypto password u) there refl (omega arith) k w h

  reset_account-Newer :
      (password : String) (now : Time) (o : Option StaffUser) (id : String) (st : Staff)
      → find_user st id ≡ o
      → Newer st (reset_account crypto password now o st).0
  unfolding reset_account
  reset_account-Newer password now none id st there = Newer-refl st
  reset_account-Newer password now (some u) id st there =
      pick-Newer st u.active (set_password crypto password now u st, ok tt) _
        (set_password-Newer password now u id st there) (Newer-refl st)

  finish_reset-Newer :
      (r : PasswordReset) (password : String) (now : Time) (st : Staff)
      → Newer st (finish_reset crypto r password now st).0
  unfolding finish_reset find_user
  finish_reset-Newer r password now st =
      pick-Newer st (is_claimable r.id st.resets)
        (reset_account crypto password now (find_user st r.staff_id) (claimed_in r now st)) _
        (reset_account-Newer password now (find_user st r.staff_id) r.staff_id (claimed_in r now st)
          refl)
        (Newer-refl st)

  reset_link-Newer :
      (id : String) (token : List ℕ) (now : Time) (o : Option StaffUser) (st : Staff)
      → Newer st (reset_link crypto id token now o st)
  unfolding reset_link
  reset_link-Newer id token now none st = Newer-refl st
  reset_link-Newer id token now (some u) st =
      elim u.active as (λ b. Newer st (if b then send_reset_for crypto id token now u st else st)) [
        | true ↦ send_reset_for-Newer crypto id token now u st
        | false ↦ Newer-refl st
      ]

  create-Newer :
      (id name email : String) (role : StaffRole) (random : List ℕ) (reset_id : String)
      (token : List ℕ) (now : Time) (st st' : Staff)
      → create crypto id name email role random reset_id token now st ≡ ok st'
      → Newer st st'
  unfolding create
  create-Newer id name email role random reset_id token now st st' h =
      let (done, free, h1) =
        returned (throw_if (is_some (find_email st (lower (trim email)))) _) _ h in
      let u = new_user id name email role (crypto.hash_password (crypto.sha256 random)) in
      ok-Newer st _ st' h1 (
        Newer-trans st (add_user u st) _ (add_user-Newer u st)
          (send_reset_for-Newer crypto reset_id token now u (add_user u st)))

  update-Newer :
      (actor : StaffPrincipal) (id : String) (patch : StaffPatch) (st st' : Staff)
      → update actor id patch st ≡ ok st'
      → Newer st st'
  unfolding update
  update-Newer actor id patch st st' h =
      let (u, ru, h1) = returned (or_throw (find_user st id) _) _ h in
      let (done, on, h2) = returned (throw_if (str_eq actor.id u.id && deactivates patch) _) _ h1 in
      let (done', kept, h3) = returned (throw_if (str_eq actor.id u.id && demotes patch) _) _ h2 in
      let (same, le) = patched-same patch u in
      ok-Newer st _ st' h3
        (edit-Newer st id u (patched patch u) (or_throw-eq-ok (find_user st id) _ ru) same le)

  send_reset-Newer :
      (id reset_id : String) (token : List ℕ) (now : Time) (st st' : Staff)
      → send_reset crypto id reset_id token now st ≡ ok st'
      → Newer st st'
  unfolding send_reset
  send_reset-Newer id reset_id token now st st' h =
      let (u, ru, h1) = returned (or_throw (find_user st id) _) _ h in
      let (done, live, h2) = returned (throw_if (not u.active) _) _ h1 in
      ok-Newer st _ st' h2 (send_reset_for-Newer crypto reset_id token now u st)

  tables-Newer :
      (st : Staff) (r : Result (Entered × Staff))
      → ((e : Entered) (st' : Staff) → r ≡ ok (e, st') → Newer st st')
      → Newer st (staff_or st (tables_of r))
  tables-Newer st (ok (e, st')) f = f e st' refl
  tables-Newer st (err e) f = Newer-refl st

  run_staff_call-Newer : (call : StaffCall) (st : Staff) → Newer st (run_staff_call crypto call st)
  unfolding run_staff_call
  run_staff_call-Newer (enter_code p code now) st =
      tables-Newer st (complete_two_factor crypto p code now st)
        (λ e st' h. complete-Newer p code now st st' e h)
  run_staff_call-Newer (ask_reset id token now email) st =
      unfold request_reset in reset_link-Newer id token now (find_email st (lower (trim email))) st
  run_staff_call-Newer (use_reset r password now) st = finish_reset-Newer r password now st
  run_staff_call-Newer (start_setup id sealed) st =
      staff_or-Newer st (begin_setup id sealed st) (begin_setup-Newer id sealed st)
  run_staff_call-Newer (end_setup id code recovery now) st =
      staff_or-Newer st (confirm_setup crypto id code recovery now st)
        (confirm_setup-Newer id code recovery now st)
  run_staff_call-Newer (turn_off id code now) st =
      staff_or-Newer st (disable crypto id code now st) (disable-Newer id code now st)
  run_staff_call-Newer (new_codes id code recovery now) st =
      staff_or-Newer st (regenerate_recovery_codes crypto id code recovery now st)
        (regenerate-Newer id code recovery now st)
  run_staff_call-Newer (new_account id name email role random reset_id token now) st =
      staff_or-Newer st (create crypto id name email role random reset_id token now st)
        (create-Newer id name email role random reset_id token now st)
  run_staff_call-Newer (change_account actor id patch) st =
      staff_or-Newer st (update actor id patch st) (update-Newer actor id patch st)
  run_staff_call-Newer (mail_reset id reset_id token now) st =
      staff_or-Newer st (send_reset crypto id reset_id token now st)
        (send_reset-Newer id reset_id token now st)

  pub run_staff_calls-Newer :
      (calls : List StaffCall) (st : Staff) → Newer st (run_staff_calls crypto calls st)
  unfolding run_staff_calls
  run_staff_calls-Newer [] st = Newer-refl st
  run_staff_calls-Newer (call ∷ calls) st =
      Newer-trans st (run_staff_call crypto call st) _ (run_staff_call-Newer call st)
        (run_staff_calls-Newer calls (run_staff_call crypto call st))
