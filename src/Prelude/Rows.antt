-- ===== src/Prelude/Rows.antt =====
-- A table as a list of rows with a text as primary key: the repository calls of the code.
use mathlib.Core.Path.{subst, ◌≡◌, refl, ap, sym, ◌∙◌}
use mathlib.Core.Logic.{inl, inr}
use mathlib.Core.Bool.{Bool}
use mathlib.Core.Option.{Option, none, some}
use mathlib.Core.List.{List, [], ◌∷◌}
use Prim.Native.Nat.{ℕ, ◌+◌}
use Prim.Native.String.{String}
use native.Mathlib.Omega.{arith}
use text.Mathlib.Text.{◌==◌ as str_eq}
use text.Mathlib.TextEquality.{eq_iff}
use valle_web_backend.Prelude.Tests.{if◌then◌else◌, Bool-cases}
use valle_web_backend.Prelude.Lists.{All, sum_of, find}

abbrev pub instead {ℓ} : {A : Type ℓ} → A → Option A → Option A
instead a none = none
instead a (some old) = some a

module _ {ℓ} {A : Type ℓ} (key : A → String) where
  -- repo.findOne by the primary key.
  unfoldable pub row : List A → String → Option A
  row rows k = find (λ r. str_eq (key r) k) rows

  -- repo.save of a row that the table has.
  unfoldable pub save : A → List A → List A
  save a [] = []
  save a (r ∷ rows) = (if str_eq (key r) (key a) then a else r) ∷ save a rows

  -- No two rows have the same key.
  abbrev pub IsKeyed : List A → Type ℓ
  IsKeyed [] = Unit
  IsKeyed (r ∷ rows) = (row rows (key r) ≡ none) × IsKeyed rows

  pub key-row : (rows : List A) (k : String) (a : A) → row rows k ≡ some a → key a ≡ k
  unfolding row
  key-row [] k a h = cc
  key-row (r ∷ rows) k a h = ground (arith, eq_iff (key r) k, key-row rows k a)

  pub row-save :
      (a : A) (rows : List A) (j : String)
      → row (save a rows) j ≡ (if str_eq (key a) j then instead a (row rows j) else row rows j)
  unfolding row save
  row-save a [] j = ground arith
  row-save a (r ∷ rows) j =
      ground (arith, row-save a rows j, eq_iff (key r) (key a), eq_iff (key r) j, eq_iff (key a) j)

  pub save_absent : (a : A) (rows : List A) → row rows (key a) ≡ none → save a rows ≡ rows
  unfolding row save
  save_absent a [] h = refl
  save_absent a (r ∷ rows) h = ground (arith, save_absent a rows)

  pub IsKeyed-save : (a : A) (rows : List A) → IsKeyed rows → IsKeyed (save a rows)
  unfolding save
  IsKeyed-save a [] t = tt
  IsKeyed-save a (r ∷ rows) (fresh, t) = elim (Bool-cases (str_eq (key r) (key a))) [
    | inl this ↦
        let none_left : row (save a rows) (key a) ≡ none =
          ground (arith, row-save a rows (key a), eq_iff (key r) (key a)) in
        rw this (none_left, IsKeyed-save a rows t)
    | inr other ↦
        let none_left : row (save a rows) (key r) ≡ none =
          ground (arith, row-save a rows (key r), eq_iff (key a) (key r)) in
        rw other (none_left, IsKeyed-save a rows t)
  ]

  -- A saved row changes a sum by the difference of its measures.
  pub sum-save :
      (f : A → ℕ) (a old : A) (rows : List A)
      → IsKeyed rows
      → row rows (key a) ≡ some old
      → sum_of f (save a rows) + f old ≡ sum_of f rows + f a
  unfolding row save
  sum-save f a old [] t h = cc
  sum-save f a old (r ∷ rows) (fresh, t) h = elim (Bool-cases (str_eq (key r) (key a))) [
    | inl this ↦
        let same : r ≡ old = ground arith in
        let gone =
          save_absent a rows
            (ap (row rows) (sym (ground (arith, eq_iff (key r) (key a)))) ∙ fresh) in
        rw (this, gone, same) (omega arith)
    | inr other ↦
        let rest : row rows (key a) ≡ some old = ground arith in
        rw other (omega (arith, sum-save f a old rows t rest))
  ]

module _ {ℓ κ} {A : Type ℓ} (key : A → String) (P : A → Type κ) where
  pub All-save : (a : A) (rows : List A) → P a → All P rows → All P (save key a rows)
  unfolding save
  All-save a [] p t = tt
  All-save a (r ∷ rows) p (q, t) = elim (Bool-cases (str_eq (key r) (key a))) [
    | inl this ↦ rw this (p, All-save a rows p t)
    | inr other ↦ rw other (q, All-save a rows p t)
  ]

  pub All-row : (rows : List A) (k : String) (a : A) → All P rows → row key rows k ≡ some a → P a
  unfolding row
  All-row [] k a t h = cc
  All-row (r ∷ rows) k a (p, t) h = elim (Bool-cases (str_eq (key r) k)) [
    | inl this ↦ let same : r ≡ a = ground arith in subst P same p
    | inr other ↦ All-row rows k a t (ground arith)
  ]

module _ {ℓ} {A : Type ℓ} (key : A → String) where
  -- What a search finds is what its own key names.
  pub row-find :
      (p : A → Bool) (rows : List A) (a : A)
      → IsKeyed key rows
      → find p rows ≡ some a
      → row key rows (key a) ≡ some a
  unfolding row
  row-find p [] a t h = cc
  row-find p (r ∷ rows) a (fresh, t) h = elim (Bool-cases (p r)) [
    | inl this ↦ let same : r ≡ a = ground arith in rw same (ground (arith, eq_iff (key a) (key a)))
    | inr other ↦
        let rest = row-find p rows a t (ground arith) in ground (arith, eq_iff (key r) (key a))
  ]

  -- A saved row leaves the keys that the table has.
  pub row-save-some :
      (a b : A) (rows : List A) (k : String)
      → row key rows k ≡ some b
      → (c : A) × (row key (save key a rows) k ≡ some c)
  row-save-some a b rows k h = elim (Bool-cases (str_eq (key a) k)) [
    | inl this ↦ (a, ground (arith, row-save key a rows k))
    | inr other ↦ (b, ground (arith, row-save key a rows k))
  ]

module _ {ℓ} {A : Type ℓ} (key : A → String) where
  pub row-save_same :
      (a b : A) (rows : List A) (k : String)
      → row key rows k ≡ some b
      → key a ≡ k
      → row key (save key a rows) k ≡ some a
  row-save_same a b rows k h e = ground (arith, row-save key a rows k, eq_iff (key a) k)

  pub row-head : (a : A) (rows : List A) → row key (a ∷ rows) (key a) ≡ some a
  unfolding row
  row-head a rows = ground (arith, eq_iff (key a) (key a))
