-- ===== src/Accounts/Versions.antt =====
-- staff/auth/: accounts stay, and the version of an account's tokens never falls: what the calls share.
pub mod Steps
use valle_web_backend.Prelude.{
  ℕ, ◌+◌, ◌<◌, ◌≤◌, ◌≡◌, refl, sym, ap, ◌∙◌, Bool, true, false, ◌&&◌, ◌||◌, not, Option, none, some,
  ◌⊎◌, inl, inr, List, [], ◌∷◌, ◌++◌, String, find, ltb, ◌==◌, or_zero, is_some, if◌then◌else◌,
  str_eq, eq_iff, arith, Bool-cases, Option-cases,
}
use mathlib.Core.Path.{subst}
use valle_web_backend.Prelude.Text.{is_filled, trim}
use valle_web_backend.Prelude.Upper.{lower}
use valle_web_backend.Prelude.Http.{
  Result, ok, err, unauthorized, ◌>>=◌, ◌>>◌, throw_if, or_throw, returned, throw_if-eq-ok,
  or_throw-eq-ok, Result-cases,
}
use valle_web_backend.Prelude.Rows.{row, save, instead, key-row, row-save}
use valle_web_backend.Booking.{Time}
use valle_web_backend.Accounts.{
  StaffRole, StaffUser, PasswordReset, Crypto, Staff, StaffJwtPayload, StaffPrincipal, id_of,
}
use valle_web_backend.Accounts.Totp.{verify_totp}
use valle_web_backend.Accounts.Factor.{
  use_recovery_code, use_step, opened, matched_step, consume_second_factor,
}
use valle_web_backend.Accounts.Sessions.{
  Entered, find_user, find_email, put_user, same_version, complete_two_factor, staff_from_token,
  expired_message,
}
use valle_web_backend.Accounts.Security.{
  send_reset_for, reset_link, request_reset, finish_reset, require_user, begin_setup, confirm_setup,
  disable, disable_enabled, regenerate_recovery_codes, set_password, with_password, is_claimable,
  reset_account, claimed_in, non_empty,
}
use valle_web_backend.Accounts.Team.{
  StaffPatch, new_user, add_user, create, patched, switched, update, send_reset, deactivates,
  demotes,
}
use valle_web_backend.Accounts.Calls.{
  StaffCall, enter_code, ask_reset, use_reset, start_setup, end_setup, turn_off, new_codes,
  new_account, change_account, mail_reset, staff_or, tables_of, run_staff_call, run_staff_calls,
}

-- Accounts stay, and the versions of their tokens do not fall.
abbrev pub Newer : Staff → Staff → Type 0
Newer st st' =
    (id : String) (u : StaffUser)
    → find_user st id ≡ some u
    → (u' : StaffUser) × (find_user st' id ≡ some u') × (u.token_version ≤ u'.token_version)

pub Newer-refl : (st : Staff) → Newer st st
Newer-refl st id u h = (u, h, omega arith)

pub Newer-trans : (a b c : Staff) → Newer a b → Newer b c → Newer a c
Newer-trans a b c p q id u h =
    let (v, hv, lv) = p id u h in let (w, hw, lw) = q id v hv in (w, hw, omega arith)

pub put_user-Newer :
    (st : Staff) (u old : StaffUser)
    → find_user st u.id ≡ some old
    → old.token_version ≤ u.token_version
    → Newer st (put_user u st)
unfolding find_user put_user
put_user-Newer st u old there le id w h = elim (Bool-cases (str_eq u.id id)) [
  | inl this ↦
      let same : w ≡ old = ground (arith, eq_iff u.id id) in
      (u, ground (arith, row-save id_of u st.users id), ground arith)
  | inr other ↦ (w, ground (arith, row-save id_of u st.users id), omega arith)
]

pub find_user-id :
    (st : Staff) (id : String) (u : StaffUser)
    → find_user st id ≡ some u
    → find_user st u.id ≡ some u
unfolding find_user
find_user-id st id u h = ap (row id_of st.users) (key-row id_of st.users id u h) ∙ h

-- An edit of the row found under a key.
pub edit-Newer :
    (st : Staff) (id : String) (u u' : StaffUser)
    → find_user st id ≡ some u
    → u'.id ≡ u.id
    → u.token_version ≤ u'.token_version
    → Newer st (put_user u' st)
edit-Newer st id u u' h same le =
    put_user-Newer st u' u (ap (find_user st) same ∙ find_user-id st id u h) le

pub staff_or-Newer :
    (st : Staff) (r : Result Staff)
    → ((st' : Staff) → r ≡ ok st' → Newer st st')
    → Newer st (staff_or st r)
staff_or-Newer st (ok st') f = f st' refl
staff_or-Newer st (err e) f = Newer-refl st

pub pick-Newer :
    (st : Staff) (b : Bool) (x y : Staff × Result (Unit {0}))
    → Newer st x.0
    → Newer st y.0
    → Newer st (if b then x else y).0
pick-Newer st true x y p q = p
pick-Newer st false x y p q = q

pub ok-Newer : (st a b : Staff) → ◌≡◌ {A = Result Staff} (ok a) (ok b) → Newer st a → Newer st b
ok-Newer st a b e n = subst (Newer st) (cc) n

pub require_user-some :
    (id : String) (st : Staff) (u : StaffUser)
    → require_user id st ≡ ok u
    → find_user st id ≡ some u
unfolding require_user
require_user-some id st u h =
    let (u', found, h') = returned (or_throw (find_user st id) _) _ h in
    let (done, live, h'') = returned (throw_if (not u'.active) _) _ h' in
    or_throw-eq-ok (find_user st id) _ found ∙ (cc h'')

pub send_reset_for-Newer :
    (crypto : Crypto) (id : String) (token : List ℕ) (now : Time) (u : StaffUser) (st : Staff)
    → Newer st (send_reset_for crypto id token now u st)
unfolding send_reset_for find_user
send_reset_for-Newer crypto id token now u st k w h = (w, h, omega arith)

pub row-end :
    (rows : List StaffUser) (u w : StaffUser) (k : String)
    → row id_of rows k ≡ some w
    → row id_of (rows ++ u ∷ []) k ≡ some w
unfolding row
row-end [] u w k h = cc
row-end (r ∷ rows) u w k h = ground (arith, row-end rows u w k)

pub add_user-Newer : (u : StaffUser) (st : Staff) → Newer st (add_user u st)
unfolding find_user
add_user-Newer u st k w h = (w, row-end st.users u w k h, omega arith)

pub switched-same :
    (o : Option Bool) (u : StaffUser)
    → ((switched o u).id ≡ u.id) × (u.token_version ≤ (switched o u).token_version)
unfolding switched
switched-same none u = ground arith
switched-same (some true) u = ground arith
switched-same (some false) u = ground arith

pub patched-same :
    (patch : StaffPatch) (u : StaffUser)
    → ((patched patch u).id ≡ u.id) × (u.token_version ≤ (patched patch u).token_version)
unfolding patched
patched-same patch u = switched-same patch.active _
