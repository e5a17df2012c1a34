-- ===== src/Prelude/Integers.antt =====
-- Integers over the native numbers, for amounts that may be negative.
use Prim.Native.Nat.{ℕ, suc, ◌+◌, ◌-◌}
use mathlib.Core.Path.{◌≡◌}
use mathlib.Core.Bool.{Bool, false}
use mathlib.Core.Logic.{◌↔◌}
use native.Mathlib.Omega.{arith}
use valle_web_backend.Prelude.Tests.{leb, ◌==◌, if◌then◌else◌}

pub data ℤ : Type 0 where
  pos negsuc : ℕ → ℤ

-- a - b on integers.
abbrev pub diff : ℕ → ℕ → ℤ
diff a b = if leb b a then pos (a - b) else negsuc (b - a - 1)

infixl 60 ◌+ℤ◌
abbrev pub ◌+ℤ◌ : ℤ → ℤ → ℤ
pos a +ℤ pos b = pos (a + b)
pos a +ℤ negsuc b = diff a (suc b)
negsuc a +ℤ pos b = diff b (suc a)
negsuc a +ℤ negsuc b = negsuc (suc (a + b))

abbrev pub is_zero : ℤ → Bool
is_zero (pos n) = n == 0
is_zero (negsuc n) = false

pub diff-+ : (a b c d : ℕ) → diff a b +ℤ diff c d ≡ diff (a + c) (b + d)
diff-+ a b c d = ground arith

pub diff_iff : (a b c d : ℕ) → (diff a b ≡ diff c d) ↔ (a + d ≡ c + b)
diff_iff a b c d = ground arith

pub +ℤ-assoc : (x y z : ℤ) → (x +ℤ y) +ℤ z ≡ x +ℤ (y +ℤ z)
+ℤ-assoc x y z = ground arith

pub +ℤ-comm : (x y : ℤ) → x +ℤ y ≡ y +ℤ x
+ℤ-comm x y = ground arith

pub zero-+ℤ : (x : ℤ) → pos 0 +ℤ x ≡ x
zero-+ℤ x = ground arith
