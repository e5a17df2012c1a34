-- ===== src/Coupons/Table.antt =====
-- coupons/coupons.service.ts: the rows that the writes change, and those that they leave.
use mathlib.Core.Path.{subst}
use valle_web_backend.Prelude.{
  ℕ, ◌+◌, ◌≤◌, ◌≡◌, refl, String, Option, none, some, List, [], ◌∷◌, Bool, arith, str_eq, eq_iff,
  if◌then◌else◌, Bool-cases, inl, inr,
}
use valle_web_backend.Coupons.{Coupon, normalise, find_code, increment, switch}

abbrev pub bump : Coupon → Coupon
bump c = record c { uses = c.uses + 1 }

abbrev pub turned : Bool → Coupon → Coupon
turned active c = record c { active = active }

abbrev pub on_row : (Coupon → Coupon) → Option Coupon → Option Coupon
on_row f none = none
on_row f (some c) = some (f c)

-- A row's uses are within its limit, and its code is in normal form.
pub record IsRow (c : Coupon) : Type 0 where
  pub within : (m : ℕ) → c.max_uses ≡ some m → c.uses ≤ m
  pub normal : normalise c.code ≡ c.code

-- The code is the primary key.
abbrev pub IsTable : List Coupon → Type 0
IsTable [] = Unit
IsTable (c ∷ table) = IsRow c × (find_code table c.code ≡ none) × IsTable table

pub code-find_code :
    (table : List Coupon) (k : String) (c : Coupon) → find_code table k ≡ some c → c.code ≡ k
unfolding find_code
code-find_code [] k c h = cc
code-find_code (d ∷ table) k c h = ground (arith, eq_iff d.code k, code-find_code table k c)

pub IsRow-find_code :
    (table : List Coupon) (k : String) (c : Coupon)
    → IsTable table
    → find_code table k ≡ some c
    → IsRow c
unfolding find_code
IsRow-find_code [] k c t h = cc
IsRow-find_code (d ∷ table) k c (row, _, t) h = elim (Bool-cases (str_eq d.code k)) [
  | inl this ↦ let same : d ≡ c = ground arith in subst IsRow same row
  | inr other ↦ IsRow-find_code table k c t (ground arith)
]

pub find_code-increment :
    (table : List Coupon) (k j : String)
    → find_code (increment k table) j
      ≡ (if str_eq k j then on_row bump (find_code table j) else find_code table j)
unfolding find_code increment
find_code-increment [] k j = ground arith
find_code-increment (c ∷ table) k j =
    ground (arith, find_code-increment table k j, eq_iff c.code k, eq_iff c.code j, eq_iff k j)

pub find_code-switch :
    (table : List Coupon) (k j : String) (active : Bool)
    → find_code (switch k active table) j
      ≡ (if str_eq k j then on_row (turned active) (find_code table j) else find_code table j)
unfolding find_code switch
find_code-switch [] k j active = ground arith
find_code-switch (c ∷ table) k j active =
    ground (arith, find_code-switch table k j active, eq_iff c.code k, eq_iff c.code j, eq_iff k j)

-- A code that the table does not hold counts no use.
pub increment_absent :
    (table : List Coupon) (k : String) → find_code table k ≡ none → increment k table ≡ table
unfolding find_code increment
increment_absent [] k h = refl
increment_absent (c ∷ table) k h = ground (arith, increment_absent table k)
