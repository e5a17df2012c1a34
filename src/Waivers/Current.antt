-- ===== src/Waivers/Current.antt =====
-- waivers/waivers.service.ts (sign): how many signatures count.
use mathlib.Core.Path.{subst}
use valle_web_backend.Prelude.{
  ℕ, ◌+◌, ◌≤◌, ◌==◌, max, ◌≡◌, refl, ap, ◌∙◌, String, Option, none, some, List, [], ◌∷◌, Bool, true,
  false, ◌&&◌, not, find, leb, leb_false→lt, str_eq, eq_iff, arith, Bool-cases, inl, inr,
}
use valle_web_backend.Prelude.Upper.{lower}
use valle_web_backend.Prelude.Http.{ok, throw_if, throw_if-eq-ok, Result-cases, returned, eq_of_ok}
use valle_web_backend.Day.{Day}
use valle_web_backend.Booking.{Time, Booking}
use valle_web_backend.Waivers.Register.{
  Waiver, SignWaiver, Signer, SignCall, signer_for, new_waiver_record, is_open, is_current,
  is_current_of, count_if, superseded, supersede, put_signature, sign, signed_or, run_signs,
}

count-none : (p : Waiver → Bool) (ws : List Waiver) → find p ws ≡ none → count_if p ws ≡ 0
unfolding count_if
count-none p [] h = refl
count-none p (w ∷ ws) h = ground (arith, count-none p ws)

module _ (q : Waiver → Bool) (now : Time) (id : String)
    (out : (w : Waiver) → q (superseded now w) ≡ false) where
  count-supersede-le : (ws : List Waiver) → count_if q (supersede now id ws) ≤ count_if q ws
  unfolding count_if supersede
  count-supersede-le [] = omega arith
  count-supersede-le (w ∷ ws) = ground (arith, count-supersede-le ws, out w)

-- What a search found no longer counts.
count-supersede-found :
    (p q : Waiver → Bool) (now : Time) (w : Waiver) (ws : List Waiver)
    → ((x : Waiver) → q (superseded now x) ≡ false)
    → ((x : Waiver) → p x ≡ true → q x ≡ true)
    → find p ws ≡ some w
    → count_if q (supersede now w.id ws) + 1 ≤ count_if q ws
unfolding count_if supersede
count-supersede-found p q now w [] out implied h = cc h
count-supersede-found p q now w (x ∷ ws) out implied h = elim (Bool-cases (p x)) [
  | inl this ↦
      let same : x ≡ w = ground arith in
      ground (arith, count-supersede-le q now w.id out ws, out x, implied x this, eq_iff x.id w.id)
  | inr other ↦ ground (arith, count-supersede-found p q now w ws out implied, out x)
]

module _ (now : Time) where
  out_of_current : (bk : String) (w : Waiver) → is_current bk (superseded now w) ≡ false
  unfolding is_current
  out_of_current bk w = ground arith

  out_of_name : (bk name : String) (w : Waiver) → is_current_of bk name (superseded now w) ≡ false
  unfolding is_current_of is_current
  out_of_name bk name w = ground arith

named_current :
    (bk name : String) (w : Waiver) → is_current_of bk name w ≡ true → is_current bk w ≡ true
unfolding is_current_of
named_current bk name w h = ground arith

same_count :
    (a b m n : String) (ws : List Waiver)
    → str_eq a b ≡ true
    → str_eq (lower m) (lower n) ≡ true
    → count_if (is_current_of a m) ws ≡ count_if (is_current_of b n) ws
unfolding is_current_of
same_count a b m n ws same_booking same_name =
    let place = (eq_iff a b).0 same_booking in
    let name = (eq_iff (lower m) (lower n)).0 same_name in
    ap (λ x. count_if (λ w. is_current x w && str_eq (lower w.participant_name) (lower m)) ws) place
    ∙ ap (λ y. count_if (λ w. is_current b w && str_eq (lower w.participant_name) y) ws) name

both_true : (a b : Bool) → (a && b) ≡ true → (a ≡ true) × (b ≡ true)
both_true true b h = (refl, h)
both_true false b h = cc h

-- At most the signatures that count already, or as many as must sign.
abbrev pub AreBounded : ℕ → List Waiver → List Waiver → Type 0
AreBounded required ws ws' =
    (bk : String) → count_if (is_current bk) ws' ≤ max (count_if (is_current bk) ws) required

-- At most one signature of each participant counts.
abbrev pub AreSingle : List Waiver → Type 0
AreSingle ws = (bk name : String) → count_if (is_current_of bk name) ws ≤ 1

module _ (id : String) (now : Time) (b : Booking) (required : ℕ) (dto : SignWaiver)
    (s : Signer) where
  new_named :
      (version : ℕ) (bk name : String)
      → is_current_of bk name (new_waiver_record id now dto b s version)
        ≡ (str_eq b.id bk && str_eq (lower s.name) (lower name))
  unfolding is_current_of is_current new_waiver_record
  new_named version bk name = ground arith

  new_current :
      (version : ℕ) (bk : String)
      → is_current bk (new_waiver_record id now dto b s version) ≡ str_eq b.id bk
  unfolding is_current new_waiver_record
  new_current version bk = ground arith

  -- A signature in front of the rest, of which those of the same participant no longer count.
  added-single :
      (version : ℕ) (ws rest : List Waiver)
      → AreSingle ws
      → ((bk name : String)
          → count_if (is_current_of bk name) rest ≤ count_if (is_current_of bk name) ws)
      → count_if (is_current_of b.id s.name) rest ≡ 0
      → AreSingle (new_waiver_record id now dto b s version ∷ rest)
  unfolding count_if
  added-single version ws rest single fewer none_left bk name =
      elim (Bool-cases (str_eq b.id bk && str_eq (lower s.name) (lower name))) [
        | inl this ↦
            let (here, named) =
              both_true (str_eq b.id bk) (str_eq (lower s.name) (lower name)) this in
            ground
              (arith, new_named version bk name, same_count b.id bk s.name name rest here named)
        | inr other ↦ ground (arith, new_named version bk name, fewer bk name, single bk name)
      ]

  put_signature-single :
      (found : Option Waiver) (ws ws' : List Waiver)
      → AreSingle ws
      → find (is_current_of b.id s.name) ws ≡ found
      → put_signature now b required found (new_waiver_record id now dto b s) ws ≡ ok ws'
      → AreSingle ws'
  unfolding put_signature
  put_signature-single none ws ws' single found h =
      let (u, room, h1) =
        returned (throw_if (leb required (count_if (is_current b.id) ws)) _) _ h in
      subst AreSingle (eq_of_ok _ _ h1) (
        added-single 1 ws ws single (λ bk name. omega arith)
          (count-none (is_current_of b.id s.name) ws found))
  put_signature-single (some w) ws ws' single found h =
      let gone =
        count-supersede-found (is_current_of b.id s.name) (is_current_of b.id s.name) now w ws
          (out_of_name now b.id s.name) (λ x e. e) found in
      subst AreSingle (eq_of_ok _ _ h) (
        added-single (w.version + 1) ws (supersede now w.id ws) single
          (λ bk name.
            count-supersede-le (is_current_of bk name) now w.id (out_of_name now bk name) ws)
          (omega (arith, gone, single b.id s.name)))

  put_signature-bounded :
      (found : Option Waiver) (ws ws' : List Waiver)
      → find (is_current_of b.id s.name) ws ≡ found
      → put_signature now b required found (new_waiver_record id now dto b s) ws ≡ ok ws'
      → AreBounded required ws ws'
  unfolding put_signature count_if
  put_signature-bounded none ws ws' found h =
      let (u, room, h1) =
        returned (throw_if (leb required (count_if (is_current b.id) ws)) _) _ h in
      let left = throw_if-eq-ok (leb required (count_if (is_current b.id) ws)) _ room in
      subst (AreBounded required ws) (eq_of_ok _ _ h1) (λ bk. elim (Bool-cases (str_eq b.id bk)) [
        | inl this ↦
            let same = ap (λ x. count_if (is_current x) ws) ((eq_iff b.id bk).0 this) in
            ground
              (arith, new_current 1 bk, leb_false→lt required (count_if (is_current b.id) ws) left)
        | inr other ↦ ground (arith, new_current 1 bk)
      ])
  put_signature-bounded (some w) ws ws' found h =
      let gone =
        count-supersede-found (is_current_of b.id s.name) (is_current b.id) now w ws
          (out_of_current now b.id) (named_current b.id s.name) found in
      subst (AreBounded required ws) (eq_of_ok _ _ h) (λ bk. elim (Bool-cases (str_eq b.id bk)) [
        | inl this ↦
            let same = ap (λ x. count_if (is_current x) ws) ((eq_iff b.id bk).0 this) in
            let same' =
              ap (λ x. count_if (is_current x) (supersede now w.id ws)) ((eq_iff b.id bk).0 this) in
            ground (arith, new_current (w.version + 1) bk)
        | inr other ↦ ground (
          arith,
          new_current (w.version + 1) bk,
          count-supersede-le (is_current bk) now w.id (out_of_current now bk) ws,
        )
      ])

-- The most people that any of the calls was told must sign.
abbrev pub most_required : List SignCall → ℕ
most_required [] = 0
most_required (c ∷ cs) = let rest = most_required cs in max c.required rest

sign-put :
    (id : String) (now : Time) (today : Day) (b : Booking) (required : ℕ) (dto : SignWaiver)
    (ws ws' : List Waiver)
    → sign id now today b required dto ws ≡ ok ws'
    → AreSingle ws
    → AreSingle ws' × AreBounded required ws ws'
unfolding sign
sign-put id now today b required dto ws ws' h single =
    let (u, open_now, h1) = returned (throw_if (not (is_open today b)) _) _ h in
    let (v, some_must, h2) = returned (throw_if (required == 0) _) _ h1 in
    let (s, signs, h3) = returned (signer_for dto b.visit_date) _ h2 in
    let found = find (is_current_of b.id s.name) ws in
    (
      put_signature-single id now b required dto s found ws ws' single refl h3,
      put_signature-bounded id now b required dto s found ws ws' refl h3,
    )

signed_or-AreSingle :
    (c : SignCall) (ws : List Waiver)
    → AreSingle ws
    → let ws' = signed_or ws (sign c.id c.now c.today c.booking c.required c.dto ws) in
      AreSingle ws' × AreBounded c.required ws ws'
signed_or-AreSingle c ws single =
    elim (Result-cases (sign c.id c.now c.today c.booking c.required c.dto ws)) [
      | inl (ws', signed) ↦
          rw signed (sign-put c.id c.now c.today c.booking c.required c.dto ws ws' signed single)
      | inr (e, refused) ↦ rw refused (single, λ bk. omega arith)
    ]

-- Whatever signatures are sent, refused ones included, at most one of each participant of a booking
-- counts, names compared in any case, where that held before; and no booking ever has more signatures
-- that count than it had before or than the most people that one of the calls was told must sign.
pub run_signs-AreSingle :
    (calls : List SignCall) (ws : List Waiver)
    → AreSingle ws
    → AreSingle (run_signs calls ws) × AreBounded (most_required calls) ws (run_signs calls ws)
unfolding run_signs
run_signs-AreSingle [] ws single = (single, λ bk. omega arith)
run_signs-AreSingle (c ∷ cs) ws single =
    let next = signed_or ws (sign c.id c.now c.today c.booking c.required c.dto ws) in
    let (single', bounded) = signed_or-AreSingle c ws single in
    let (last, more) = run_signs-AreSingle cs next single' in
    (last, λ bk. omega (arith, bounded bk, more bk))
