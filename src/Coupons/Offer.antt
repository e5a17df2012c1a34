-- ===== src/Coupons/Offer.antt =====
-- coupons/coupons.service.ts: the offer shown, the use that follows it, and a race for the last uses.
use valle_web_backend.Prelude.{
  ◌≤◌, ◌<◌, refl, Option, none, not, Option-cases, ℕ, zero, suc, ◌-◌, ◌≡◌, ap, ◌∙◌, ◌↔◌, String,
  some, List, true, false, min, arith, str_eq, eq_iff, if◌then◌else◌, Bool-cases, inl, inr,
}
use valle_web_backend.Prelude.Text.{is_filled}
use valle_web_backend.Prelude.Http.{
  conflict, ok, err, returned, throw_if, or_throw, throw_if-eq-ok, or_throw-eq-ok, eq_of_ok,
}
use valle_web_backend.Day.{Day}
use valle_web_backend.Coupons.{
  Coupon, CouponOffer, normalise, find_code, coupon_used_message, starts_after, ended_before,
  used_up, offer_of, resolve, increment, consume,
}
use valle_web_backend.Coupons.Table.{
  bump, on_row, IsTable, code-find_code, IsRow-find_code, find_code-increment,
}

-- The first day, the last day and the number of uses, where there is one.
abbrev HasCome : Option Day → Day → Type 0
HasCome none today = Unit
HasCome (some first) today = first ≤ today

abbrev IsNotOver : Option Day → Day → Type 0
IsNotOver none today = Unit
IsNotOver (some last) today = today ≤ last

abbrev HasUseLeft : Option ℕ → ℕ → Type 0
HasUseLeft none uses = Unit
HasUseLeft (some m) uses = uses < m

-- A code that can be used on a day: switched on, within its dates, with a use left.
pub record IsUsable (c : Coupon) (today : Day) : Type 0 where
  pub active : c.active ≡ true
  pub started : HasCome c.valid_from today
  pub running : IsNotOver c.valid_to today
  pub left : HasUseLeft c.max_uses c.uses

HasCome-iff :
    (first : Option Day) (today : Day) → (starts_after first today ≡ false) ↔ HasCome first today
HasCome-iff none today = (λ h. tt, λ h. refl)
HasCome-iff (some first) today = ground arith

IsNotOver-iff :
    (last : Option Day) (today : Day) → (ended_before last today ≡ false) ↔ IsNotOver last today
IsNotOver-iff none today = (λ h. tt, λ h. refl)
IsNotOver-iff (some last) today = ground arith

HasUseLeft-iff : (c : Coupon) → (used_up c ≡ false) ↔ HasUseLeft c.max_uses c.uses
HasUseLeft-iff c = elim (Option-cases c.max_uses) [
  | inl none_set ↦ rw none_set (λ h. tt, λ h. refl)
  | inr (m, set) ↦ rw set (ground arith)
]

resolve-IsUsable :
    (table : List Coupon) (today : Day) (raw : String) (o : CouponOffer)
    → resolve table today raw ≡ ok o
    → (c : Coupon) × (is_filled (normalise raw) ≡ true)
      × (find_code table (normalise raw) ≡ some c)
      × IsUsable c today
      × (offer_of c ≡ o)
unfolding resolve
resolve-IsUsable table today raw o h =
    let (u0, filled, h0) = returned (throw_if (not (is_filled (normalise raw))) _) _ h in
    let (c, found, h1) = returned (or_throw (find_code table (normalise raw)) _) _ h0 in
    let (u1, live, h2) = returned (throw_if (not c.active) _) _ h1 in
    let (u2, begun, h3) = returned (throw_if (starts_after c.valid_from today) _) _ h2 in
    let (u3, runs, h4) = returned (throw_if (ended_before c.valid_to today) _) _ h3 in
    let (u4, left, h5) = returned (throw_if (used_up c) _) _ h4 in
    (
      c,
      ground (arith, throw_if-eq-ok (not (is_filled (normalise raw))) _ filled),
      or_throw-eq-ok _ _ found,
      record {
        active = ground (arith, throw_if-eq-ok (not c.active) _ live);
        started = (HasCome-iff c.valid_from today).0 (throw_if-eq-ok _ _ begun);
        running = (IsNotOver-iff c.valid_to today).0 (throw_if-eq-ok _ _ runs);
        left = (HasUseLeft-iff c).0 (throw_if-eq-ok _ _ left);
      },
      eq_of_ok _ _ h5,
    )

consume_room :
    (table : List Coupon) (code : String) (c : Coupon)
    → find_code table (normalise code) ≡ some c
    → c.active ≡ true
    → used_up c ≡ false
    → consume code table ≡ ok (increment c.code table)
unfolding consume
consume_room table code c found active room = rw (found, room) (ground arith)

consume_full :
    (table : List Coupon) (code : String) (c : Coupon)
    → find_code table (normalise code) ≡ some c
    → c.active ≡ true
    → used_up c ≡ true
    → consume code table ≡ err (conflict coupon_used_message)
unfolding consume
consume_full table code c found live full = rw (found, full) (ground arith)

IsUsable-resolve :
    (table : List Coupon) (today : Day) (raw : String) (c : Coupon)
    → is_filled (normalise raw) ≡ true
    → find_code table (normalise raw) ≡ some c
    → IsUsable c today
    → resolve table today raw ≡ ok (offer_of c)
unfolding resolve
IsUsable-resolve table today raw c filled found u =
    let begun = (HasCome-iff c.valid_from today).1 u.started in
    let runs = (IsNotOver-iff c.valid_to today).1 u.running in
    let left = (HasUseLeft-iff c).1 u.left in
    rw (filled, found) (rw (u.active, begun, runs, left) refl)

-- A code that a guest enters has an offer exactly when it names a row of the table that is switched
-- on, whose first day has come, whose last day has not passed and which has a use left.
pub resolve_iff :
    (table : List Coupon) (today : Day) (raw : String) (o : CouponOffer)
    → (resolve table today raw ≡ ok o) ↔ (
        (c : Coupon) × (is_filled (normalise raw) ≡ true)
        × (find_code table (normalise raw) ≡ some c)
        × IsUsable c today
        × (offer_of c ≡ o))
resolve_iff table today raw o = (
  resolve-IsUsable table today raw o,
  λ (c, filled, found, u, same). IsUsable-resolve table today raw c filled found u ∙ ap ok same,
)

-- How many of a number of bookings that use a code, one after the other, are let through.
unfoldable pub uses_granted : ℕ → String → List Coupon → ℕ
uses_granted zero code table = 0
uses_granted (suc n) code table = elim (consume code table) [
  | ok t ↦ suc (uses_granted n code t)
  | err e ↦ uses_granted n code table
]

found-bump :
    (table : List Coupon) (k : String) (c : Coupon)
    → find_code table k ≡ some c
    → find_code (increment c.code table) k ≡ some (bump c)
found-bump table k c found =
    let same = code-find_code table k c found in
    ground (arith, find_code-increment table c.code k, eq_iff c.code k)

-- Of any number of bookings that use a code that is switched on and has a limit, one after the other,
-- exactly as many are let through as uses are left.
pub uses_granted_lem :
    (n : ℕ) (table : List Coupon) (code : String) (c : Coupon) (m : ℕ)
    → find_code table (normalise code) ≡ some c
    → c.active ≡ true
    → c.max_uses ≡ some m
    → uses_granted n code table ≡ min n (m - c.uses)
unfolding uses_granted
uses_granted_lem zero table code c m found live limit = ground arith
uses_granted_lem (suc n) table code c m found live limit = elim (Bool-cases (used_up c)) [
  | inl full ↦
      rw (uses_granted, consume_full table code c found live full)
        (ground (arith, uses_granted_lem n table code c m found live limit))
  | inr room ↦
      let next = found-bump table (normalise code) c found in
      rw (uses_granted, consume_room table code c found live room)
        (ground
          (arith, uses_granted_lem n (increment c.code table) code (bump c) m next live limit))
]

-- An offer shown to a guest can be used: when a code resolves, the next use of the offer's code is
-- let through, adds one to the uses of that code's row and leaves every other row as it was.
pub resolve-consume :
    (table : List Coupon) (today : Day) (raw : String) (o : CouponOffer)
    → IsTable table
    → resolve table today raw ≡ ok o
    → (t : List Coupon) × (consume o.code table ≡ ok t)
      × ((j : String)
          → find_code t j
            ≡ (if str_eq o.code j then on_row bump (find_code table j) else find_code table j))
unfolding offer_of
resolve-consume table today raw o valid h =
    let (c, filled, found, u, same) = resolve-IsUsable table today raw o h in
    let row = IsRow-find_code table (normalise raw) c valid found in
    let code : c.code ≡ o.code = ap (λ (p : CouponOffer). p.code) same in
    let key : find_code table (normalise o.code) ≡ some c =
      rw (← code) (rw row.normal (rw (code-find_code table (normalise raw) c found) found)) in
    (
      increment c.code table,
      consume_room table o.code c key u.active ((HasUseLeft-iff c).1 u.left),
      λ j. rw (← code) (find_code-increment table c.code j),
    )
