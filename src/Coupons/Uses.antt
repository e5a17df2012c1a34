-- ===== src/Coupons/Uses.antt =====
-- coupons/coupons.service.ts: no code is used more often than its limit, whatever calls are made.
use valle_web_backend.Prelude.{
  ◌≡◌, refl, ap, sym, ◌∙◌, String, none, some, List, [], ◌∷◌, Bool, true, false, arith, str_eq,
  Bool-cases, inl, inr,
}
use valle_web_backend.Prelude.Upper.{upper_solid_idem}
use valle_web_backend.Prelude.Http.{Result, ok, err, returned, or_throw}
use valle_web_backend.Coupons.{
  Coupon, NewCoupon, normalise, find_code, used_up, increment, consume, create, new_row, switch,
  set_active, Call, use_code, new_code, switch_code, run_call, run_calls,
}
use valle_web_backend.Coupons.Table.{
  bump, IsRow, IsTable, code-find_code, find_code-increment, find_code-switch, increment_absent,
}

normalise_idem : (s : String) → normalise (normalise s) ≡ normalise s
unfolding normalise
normalise_idem s = upper_solid_idem s

-- What a successful use did.
pub consume-ok :
    (code : String) (table t : List Coupon)
    → consume code table ≡ ok t
    → (c : Coupon) × (find_code table (normalise code) ≡ some c)
      × (c.active ≡ true)
      × (used_up c ≡ false)
      × (increment c.code table ≡ t)
unfolding consume
consume-ok code table t h = ground arith

IsRow-bump : (c : Coupon) → IsRow c → used_up c ≡ false → IsRow (bump c)
IsRow-bump c row room = record { within = λ m e. ground arith; normal = row.normal }

IsTable-increment :
    (table : List Coupon) (c : Coupon)
    → IsTable table
    → find_code table c.code ≡ some c
    → used_up c ≡ false
    → IsTable (increment c.code table)
unfolding find_code increment
IsTable-increment [] c t f u = tt
IsTable-increment (d ∷ table) c (row, fresh, t) f u = elim (Bool-cases (str_eq d.code c.code)) [
  | inl this ↦
      let same : d ≡ c = ground arith in
      let room : used_up d ≡ false = ap used_up same ∙ u in
      let gone =
        increment_absent table c.code
          (ap (λ (e : Coupon). find_code table e.code) (sym same) ∙ fresh) in
      rw (this, gone) (IsRow-bump d row room, fresh, t)
  | inr other ↦
      let rest : find_code table c.code ≡ some c = ground arith in
      let still : find_code (increment c.code table) d.code ≡ none =
        ground (arith, find_code-increment table c.code d.code) in
      rw other (row, still, IsTable-increment table c t rest u)
]

pub consume-IsTable :
    (code : String) (table t : List Coupon) → IsTable table → consume code table ≡ ok t → IsTable t
consume-IsTable code table t valid h =
    let (c, found, _, room, e) = consume-ok code table t h in
    let same = code-find_code table (normalise code) c found in
    rw (← e) (IsTable-increment table c valid (ap (find_code table) same ∙ found) room)

create-ok :
    (input : NewCoupon) (by : String) (table t : List Coupon) (c : Coupon)
    → create input by table ≡ ok (c, t)
    → (find_code table (normalise input.code) ≡ none) × (new_row input by ∷ table ≡ t)
unfolding create
create-ok input by table t c h = ground arith

create-IsTable :
    (input : NewCoupon) (by : String) (table t : List Coupon) (c : Coupon)
    → IsTable table
    → create input by table ≡ ok (c, t)
    → IsTable t
create-IsTable input by table t c valid h =
    let (fresh, e) = create-ok input by table t c h in
    rw (← e) (
      unfold new_row in
      (record { within = λ m p. omega arith; normal = normalise_idem input.code }, fresh, valid))

IsTable-switch :
    (table : List Coupon) (k : String) (active : Bool)
    → IsTable table
    → IsTable (switch k active table)
unfolding find_code switch
IsTable-switch [] k active t = tt
IsTable-switch (d ∷ table) k active (row, fresh, t) =
    let still : find_code (switch k active table) d.code ≡ none =
      ground (arith, find_code-switch table k d.code active) in
    elim (Bool-cases (str_eq d.code k)) [
      | inl this ↦ rw this (
        record { within = row.within; normal = row.normal },
        still,
        IsTable-switch table k active t,
      )
      | inr other ↦ rw other (row, still, IsTable-switch table k active t)
    ]

set_active-IsTable :
    (code : String) (active : Bool) (table t : List Coupon) (c : Coupon)
    → IsTable table
    → set_active code active table ≡ ok (c, t)
    → IsTable t
unfolding set_active
set_active-IsTable code active table t c valid h =
    let (d, found, h') = returned (or_throw (find_code table (normalise code)) _) _ h in
    let e : switch d.code active table ≡ t = ground arith in
    rw (← e) (IsTable-switch table d.code active valid)

run_call-IsTable :
    (call : Call) (table : List Coupon) → IsTable table → IsTable (run_call call table)
run_call-IsTable (use_code code) table valid = after (consume code table) refl
  where
    after :
        (r : Result (List Coupon))
        → consume code table ≡ r
        → IsTable (run_call (use_code code) table)
    after (ok t) e = unfold run_call in rw e (consume-IsTable code table t valid e)
    after (err x) e = unfold run_call in rw e valid
run_call-IsTable (new_code input by) table valid = after (create input by table) refl
  where
    after :
        (r : Result (Coupon × List Coupon))
        → create input by table ≡ r
        → IsTable (run_call (new_code input by) table)
    after (ok (c, t)) e = unfold run_call in rw e (create-IsTable input by table t c valid e)
    after (err x) e = unfold run_call in rw e valid
run_call-IsTable (switch_code code active) table valid = after (set_active code active table) refl
  where
    after :
        (r : Result (Coupon × List Coupon))
        → set_active code active table ≡ r
        → IsTable (run_call (switch_code code active) table)
    after (ok (c, t)) e = unfold run_call in rw e (set_active-IsTable code active table t c valid e)
    after (err x) e = unfold run_call in rw e valid

-- From a table whose rows are keyed by normal codes and within their limits, whatever codes are used,
-- created and switched, every row stays so: no code is ever used more often than its limit.
pub run_calls-IsTable :
    (calls : List Call) (table : List Coupon) → IsTable table → IsTable (run_calls calls table)
unfolding run_calls
run_calls-IsTable [] table valid = valid
run_calls-IsTable (call ∷ calls) table valid =
    run_calls-IsTable calls (run_call call table) (run_call-IsTable call table valid)
