-- ===== src/Accounts/Factor/Replay.antt =====
-- staff/auth/staff-auth.service.ts: codes that are tried again after they were accepted.
use valle_web_backend.Prelude.{
  ℕ, ◌<◌, ◌≤◌, ◌≡◌, refl, Bool, true, false, ◌&&◌, not, Option, none, some, ◌⊎◌, inl, inr, List, [],
  ◌∷◌, String, length, ltb, leb, ◌==◌, arith, Bool-cases, ==_iff, &&-eq-true, leb→le, ap, ◌∙◌,
}
use valle_web_backend.Prelude.Text.{is_space}
use valle_web_backend.Prelude.Http.{Result, ok, err, ◌>>=◌, returned}
use valle_web_backend.Booking.{Time}
use valle_web_backend.Accounts.{StaffUser, Crypto}
use valle_web_backend.Accounts.Totp.{
  verify_totp, normalise_recovery_code, without_spaces, is_six_digits, lower_letter,
  is_alphanumeric,
}
use valle_web_backend.Accounts.Factor.{
  is_fresh, has_hash, without_hash, recovery_hash, use_recovery_code, use_step, opened,
  matched_step, consume_second_factor,
}

-- A letter or digit is no space, in either case.
solid_code : (c : ℕ) → is_alphanumeric (lower_letter c) ≡ true → not (is_space c) ≡ true
solid_code c h = ground arith

normalise-le :
    (code : List ℕ) → length (normalise_recovery_code code) ≤ length (without_spaces code)
unfolding normalise_recovery_code without_spaces
normalise-le [] = omega arith
normalise-le (c ∷ cs) = elim (Bool-cases (is_alphanumeric (lower_letter c))) [
  | inl kept ↦ rw (kept, solid_code c kept) (omega (arith, normalise-le cs))
  | inr gone ↦ rw gone (elim (Bool-cases (not (is_space c))) [
    | inl here ↦ rw here (omega (arith, normalise-le cs))
    | inr space ↦ rw space (normalise-le cs)
  ])
]

has-without : (h : String) (hs : List String) → has_hash h (without_hash h hs) ≡ false
unfolding has_hash without_hash
has-without h [] = refl
has-without h (x ∷ hs) = ground (arith, has-without h hs)

has-without_mono :
    (j h : String) (hs : List String) → has_hash j (without_hash h hs) ≡ true → has_hash j hs ≡ true
unfolding has_hash without_hash
has-without_mono j h [] p = p
has-without_mono j h (x ∷ hs) p = ground (arith, has-without_mono j h hs)

is_fresh-lt : (o : Option ℕ) (last step : ℕ) → o ≡ some last → is_fresh o step ≡ true → last < step
is_fresh-lt none last step e h = cc
is_fresh-lt (some l) last step e h = ground arith

both_ways : {b : Bool} → b ≡ false → b ≡ true → ⊥
both_ways p q = cc

module _ (crypto : Crypto) where
  -- The account's row after attempts with codes at some times; an attempt that throws leaves the row.
  after_result : StaffUser → Result (Bool × StaffUser) → StaffUser
  after_result u (ok (accepted, u')) = u'
  after_result u (err e) = u

  unfoldable pub attempts : StaffUser → List (List ℕ × Time) → StaffUser
  unfolding after_result
  attempts u [] = u
  attempts u ((code, now) ∷ more) =
      attempts (after_result u (consume_second_factor crypto u code now)) more

  -- Steps and recovery codes that were spent stay so, and the secret stays.
  record Spends (u u' : StaffUser) : Type 0 where
    later : (s : ℕ) → is_fresh u'.totp_last_step s ≡ true → is_fresh u.totp_last_step s ≡ true
    fewer :
        (h : String)
        → has_hash h u'.recovery_code_hashes ≡ true
        → has_hash h u.recovery_code_hashes ≡ true

  Spends-refl : (u : StaffUser) → Spends u u
  Spends-refl u = record { later = λ s h. h; fewer = λ h p. p }

  abbrev recoverable : StaffUser → List ℕ → Bool
  recoverable u code =
      leb 10 (length (normalise_recovery_code code))
      && has_hash (recovery_hash crypto code) u.recovery_code_hashes

  use_recovery_code-Spends :
      (u : StaffUser) (code : List ℕ) → Spends u (use_recovery_code crypto u code).1
  unfolding use_recovery_code
  use_recovery_code-Spends u code = elim (Bool-cases (recoverable u code)) [
    | inl used ↦
        rw used (record {
          later = λ s h. h;
          fewer = λ h p. has-without_mono h _ u.recovery_code_hashes p;
        })
    | inr other ↦ rw other (Spends-refl u)
  ]

  fresh_later :
      (o : Option ℕ) (step s : ℕ) → is_fresh o step ≡ true → ltb step s ≡ true → is_fresh o s ≡ true
  fresh_later none step s h p = refl
  fresh_later (some l) step s h p = ground arith

  use_step-Spends :
      (u : StaffUser) (code : List ℕ) (o : Option ℕ) → Spends u (use_step crypto u code o).1
  unfolding use_step
  use_step-Spends u code none = use_recovery_code-Spends u code
  use_step-Spends u code (some step) = elim (Bool-cases (is_fresh u.totp_last_step step)) [
    | inl fresh ↦
        rw fresh
          (record { later = λ s p. fresh_later u.totp_last_step step s fresh p; fewer = λ h p. p })
    | inr stale ↦ rw stale (use_recovery_code-Spends u code)
  ]

  after-Spends :
      (u : StaffUser) (code : List ℕ) (now : Time)
      → Spends u (after_result u (consume_second_factor crypto u code now))
  unfolding after_result consume_second_factor
  after-Spends u code now =
      elim (matched_step crypto (opened crypto u.totp_secret_enc) code now)
        as (λ found.
          Spends u (after_result u (found >>= λ step. ok (use_step crypto u code step)))) [
            | ok step ↦ use_step-Spends u code step
            | err e ↦ Spends-refl u
          ]

  attempts-Spends : (u : StaffUser) (tries : List (List ℕ × Time)) → Spends u (attempts u tries)
  unfolding attempts
  attempts-Spends u [] = Spends-refl u
  attempts-Spends u ((code, now) ∷ more) =
      let u' = after_result u (consume_second_factor crypto u code now) in
      let one = after-Spends u code now in
      let rest = attempts-Spends u' more in
      record {
        later = λ s p. one.later s (rest.later s p);
        fewer = λ h p. one.fewer h (rest.fewer h p);
      }

  not_matched :
      (c : ℕ) (cs code : List ℕ) (now : Time) (step : ℕ)
      → (length (without_spaces code) == 6) ≡ false
      → matched_step crypto (some (c ∷ cs)) code now ≡ ok (some step)
      → ⊥
  unfolding verify_totp is_six_digits
  not_matched c cs code now step other h = ground arith

  first_match-six :
      (o : Option (List ℕ)) (code : List ℕ) (now : Time) (step : ℕ)
      → matched_step crypto o code now ≡ ok (some step)
      → length (normalise_recovery_code code) ≤ 6
  unfolding verify_totp is_six_digits
  first_match-six none code now step h = cc
  first_match-six (some []) code now step h = cc
  first_match-six (some (c ∷ cs)) code now step h =
      elim (Bool-cases (length (without_spaces code) == 6)) [
        | inl six ↦
            let e = (==_iff (length (without_spaces code)) 6).0 six in
            omega (arith, normalise-le code)
        | inr other ↦ absurd (not_matched c cs code now step other h)
      ]

  recovery_used :
      (u u' : StaffUser) (code : List ℕ)
      → use_recovery_code crypto u code ≡ (true, u')
      → (10 ≤ length (normalise_recovery_code code))
        × (has_hash (recovery_hash crypto code) u.recovery_code_hashes ≡ true)
        × (has_hash (recovery_hash crypto code) u'.recovery_code_hashes ≡ false)
  unfolding use_recovery_code
  recovery_used u u' code h = elim (Bool-cases (recoverable u code)) [
    | inl used ↦
        let (long, there) = &&-eq-true (leb 10 (length (normalise_recovery_code code))) _ used in
        let left = without_hash (recovery_hash crypto code) u.recovery_code_hashes in
        let gone = has-without (recovery_hash crypto code) u.recovery_code_hashes in
        let same : u'.recovery_code_hashes ≡ left = ground arith in
        (leb→le 10 _ long, there, ap (has_hash (recovery_hash crypto code)) same ∙ gone)
    | inr other ↦ absurd (ground arith)
  ]

  accepted_step :
      (u u' : StaffUser) (code : List ℕ) (found : Option ℕ)
      → use_step crypto u code found ≡ (true, u')
      → ((step : ℕ) × (found ≡ some step)
          × (is_fresh u.totp_last_step step ≡ true)
          × (u'.totp_last_step ≡ some step))
        ⊎ (use_recovery_code crypto u code ≡ (true, u'))
  unfolding use_step
  accepted_step u u' code none h = inr h
  accepted_step u u' code (some step) h = elim (Bool-cases (is_fresh u.totp_last_step step)) [
    | inl fresh ↦ inl (step, refl, fresh, ground arith)
    | inr stale ↦ inr (ground arith)
  ]

  -- How a code was accepted.
  accepted :
      (u u' : StaffUser) (code : List ℕ) (now : Time)
      → consume_second_factor crypto u code now ≡ ok (true, u')
      → (found : Option ℕ) × (matched_step crypto (opened crypto u.totp_secret_enc) code now
          ≡ ok found)
        × (use_step crypto u code found ≡ (true, u'))
  unfolding consume_second_factor
  accepted u u' code now h =
      let (found, m, e) =
        returned (matched_step crypto (opened crypto u.totp_secret_enc) code now) _ h in
      (found, m, cc e)

  -- A code that was accepted, whatever codes were tried after it, is accepted again only where a
  -- one-time code was spent the first time and it is now the code of a later step.
  pub consume_second_factor-again :
      (u u1 u2 : StaffUser) (code : List ℕ) (now now' : Time) (tries : List (List ℕ × Time))
      → consume_second_factor crypto u code now ≡ ok (true, u1)
      → consume_second_factor crypto (attempts u1 tries) code now' ≡ ok (true, u2)
      → (spent step : ℕ) × (u1.totp_last_step ≡ some spent)
        × (matched_step crypto (opened crypto (attempts u1 tries).totp_secret_enc) code now'
            ≡ ok (some step))
        × (spent < step)
  consume_second_factor-again u u1 u2 code now now' tries first second =
      let (found, m, e) = accepted u u1 code now first in
      let (found', m', e') = accepted (attempts u1 tries) u2 code now' second in
      elim (accepted_step u u1 code found e) [
        | inl (step, is_step, fresh, last) ↦
            let short =
              first_match-six (opened crypto u.totp_secret_enc) code now step (m ∙ ap ok is_step) in
            elim (accepted_step (attempts u1 tries) u2 code found' e') [
              | inl (step', is_step', fresh', last') ↦
                  let fresh1 = (attempts-Spends u1 tries).later step' fresh' in
                  (
                    step,
                    step',
                    last,
                    m' ∙ ap ok is_step',
                    is_fresh-lt u1.totp_last_step step step' last fresh1,
                  )
              | inr recovery ↦
                  let (long, there, gone) = recovery_used (attempts u1 tries) u2 code recovery in
                  absurd (omega arith)
            ]
        | inr recovery ↦
            let (long, there, gone) = recovery_used u u1 code recovery in
            elim (accepted_step (attempts u1 tries) u2 code found' e') [
              | inl (step', is_step', fresh', last') ↦
                  let short =
                    first_match-six (opened crypto (attempts u1 tries).totp_secret_enc) code now'
                      step' (m' ∙ ap ok is_step') in
                  absurd (omega arith)
              | inr recovery' ↦
                  let (long', there', gone') =
                    recovery_used (attempts u1 tries) u2 code recovery' in
                  absurd (both_ways gone ((attempts-Spends u1 tries).fewer _ there'))
            ]
      ]
