-- ===== src/Prelude/Traverse.antt =====
-- Successful traversals of a list by code that may throw.
use Prim.Native.Nat.{ℕ}
use mathlib.Core.Path.{◌≡◌, refl}
use mathlib.Core.List.{List, [], ◌∷◌}
use native.Mathlib.Omega.{arith}
use valle_web_backend.Prelude.Lists.{All, sum_of}
use valle_web_backend.Prelude.Http.{Result, ok, returned, traverse}

module _ {ℓ κ} {A : Type ℓ} {B : Type κ} (f : A → Result B) where
  -- The head's and the tail's results.
  pub traverse-cons :
      (x : A) (xs : List A) {ys : List B}
      → traverse f (x ∷ xs) ≡ ok ys
      → (y : B) × (rest : List B) × (f x ≡ ok y) × (traverse f xs ≡ ok rest) × (y ∷ rest ≡ ys)
  unfolding traverse
  traverse-cons x xs h =
      let (y, fy, h') = returned (f x) _ h in
      let (rest, r, h'') = returned (traverse f xs) _ h' in (y, rest, fy, r, cc h'')

  pub traverse-nil : {ys : List B} → traverse f [] ≡ ok ys → [] ≡ ys
  unfolding traverse
  traverse-nil p = cc

  -- A measure of the results is summed over the items.
  pub traverse-sum :
      (g : B → ℕ) (h : A → ℕ)
      → ((x : A) (y : B) → f x ≡ ok y → g y ≡ h x)
      → (xs : List A) (ys : List B) → traverse f xs ≡ ok ys
      → sum_of g ys ≡ sum_of h xs
  traverse-sum g h e [] ys p = rw (← traverse-nil p) refl
  traverse-sum g h e (x ∷ xs) ys p =
      let (y, rest, fy, r, q) = traverse-cons x xs p in
      rw (← q) (omega (arith, e x y fy, traverse-sum g h e xs rest r))

  pub traverse-All :
      (xs : List A) {ys : List B} → traverse f xs ≡ ok ys → All (λ x. (y : B) × (f x ≡ ok y)) xs
  traverse-All [] p = tt
  traverse-All (x ∷ xs) p =
      let (y, rest, fy, r, q) = traverse-cons x xs p in ((y, fy), traverse-All xs r)

  pub traverse-total :
      (xs : List A) → All (λ x. (y : B) × (f x ≡ ok y)) xs → (ys : List B) × (traverse f xs ≡ ok ys)
  unfolding traverse
  traverse-total [] p = ([], refl)
  traverse-total (x ∷ xs) ((y, fy), p) =
      let (ys, r) = traverse-total xs p in (y ∷ ys, rw (fy, r) refl)
