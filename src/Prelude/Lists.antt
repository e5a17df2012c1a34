-- ===== src/Prelude/Lists.antt =====
-- Lists measured by native numbers, and the Boolean list functions of the language.
use Prim.Native.Nat.{ℕ, suc, ◌+◌, ◌≤◌}
use mathlib.Core.Path.{◌≡◌, refl, ap}
use mathlib.Core.Bool.{Bool, false, ◌||◌, not}
use mathlib.Core.List.{List, [], ◌∷◌, ◌++◌, map}
use mathlib.Core.Option.{Option, none, some}
use native.Mathlib.Omega.{arith}
use valle_web_backend.Prelude.Tests.{if◌then◌else◌}

module _ {ℓ} {A : Type ℓ} where
  abbrev pub length : List A → ℕ
  length [] = 0
  length (x ∷ xs) = suc (length xs)

  abbrev pub filter : (A → Bool) → List A → List A
  filter p [] = []
  filter p (x ∷ xs) = let rest = filter p xs in if p x then x ∷ rest else rest

  abbrev pub find : (A → Bool) → List A → Option A
  find p [] = none
  find p (x ∷ xs) = let rest = find p xs in if p x then some x else rest

  abbrev pub any : (A → Bool) → List A → Bool
  any p [] = false
  any p (x ∷ xs) = p x || any p xs

  abbrev pub sum_of : (A → ℕ) → List A → ℕ
  sum_of f [] = 0
  sum_of f (x ∷ xs) = f x + sum_of f xs

module _ {ℓ κ} {A : Type ℓ} where
  -- A predicate at every item.
  abbrev pub All : (A → Type κ) → List A → Type κ
  All P [] = Unit
  All P (x ∷ xs) = P x × All P xs

module _ {ℓ} {A : Type ℓ} where
  pub length-append : (xs ys : List A) → length (xs ++ ys) ≡ length xs + length ys
  length-append [] ys = omega arith
  length-append (x ∷ xs) ys = omega (arith, length-append xs ys)

  pub sum_of-append : (f : A → ℕ) (xs ys : List A) → sum_of f (xs ++ ys) ≡ sum_of f xs + sum_of f ys
  sum_of-append f [] ys = omega arith
  sum_of-append f (x ∷ xs) ys = omega (arith, sum_of-append f xs ys)

  -- A filter splits a sum in two.
  pub sum_of-filter-le :
      (f : A → ℕ) (p : A → Bool) (xs : List A) → sum_of f (filter p xs) ≤ sum_of f xs
  sum_of-filter-le f p [] = omega arith
  sum_of-filter-le f p (x ∷ xs) = ground (arith, sum_of-filter-le f p xs)

module _ {ℓ κ} {A : Type ℓ} {B : Type κ} where
  pub length-map : (f : A → B) (xs : List A) → length (map f xs) ≡ length xs
  length-map f [] = refl
  length-map f (x ∷ xs) = ap suc (length-map f xs)

  pub sum_of-map :
      (g : B → ℕ) (f : A → B) (xs : List A) → sum_of g (map f xs) ≡ sum_of (λ x. g (f x)) xs
  sum_of-map g f [] = refl
  sum_of-map g f (x ∷ xs) = ap (λ n. g (f x) + n) (sum_of-map g f xs)

module _ {ℓ} {A : Type ℓ} where
  -- A sum over a list is that over the items that pass a test and that over the others.
  pub sum_of-split :
      (p : A → Bool) (f g : A → ℕ) (xs : List A)
      → sum_of (λ x. if p x then f x else g x) xs
        ≡ sum_of f (filter p xs) + sum_of g (filter (λ x. not (p x)) xs)
  sum_of-split p f g [] = omega arith
  sum_of-split p f g (x ∷ xs) = ground (arith, sum_of-split p f g xs)

module _ {ℓ κ μ} {A : Type ℓ} (P : A → Type κ) (Q : A → Type μ) where
  pub All-mono : ((x : A) → P x → Q x) → (xs : List A) → All P xs → All Q xs
  All-mono f [] t = tt
  All-mono f (x ∷ xs) (p, t) = (f x p, All-mono f xs t)
