-- ===== src/Prelude/Lists.antt =====
-- Lists measured by native numbers, and predicates over lists by recursion.
use Prim.Native.Nat.{ℕ, suc, ◌+◌}
use mathlib.Core.Path.{◌≡◌, refl, subst}
use mathlib.Core.Logic.{◌⊎◌, inl, inr}
use mathlib.Core.Option.{Option, none, some}
use mathlib.Core.List.{List, [], ◌∷◌, ◌++◌}
use native.Mathlib.Omega.{arith}

module _ {ℓ} {A : Type ℓ} where
  abbrev pub length : List A → ℕ
  length [] = 0
  length (x ∷ xs) = suc (length xs)

  -- Python's `xs[-1]`, when there is one.
  abbrev pub get_last? : List A → Option A
  get_last? [] = none
  get_last? (x ∷ []) = some x
  get_last? (x ∷ y ∷ ys) = get_last? (y ∷ ys)

  abbrev pub All {κ} : (A → Type κ) → List A → Type κ
  All P [] = Unit
  All P (x ∷ xs) = P x × All P xs

  pub length-append : (xs ys : List A) → length (xs ++ ys) ≡ length xs + length ys
  length-append [] ys = omega arith
  length-append (x ∷ xs) ys = omega (arith, length-append xs ys)

-- Membership that a proof can take apart.
abbrev pub IsIn : {A : Type 0} → A → List A → Type 0
IsIn a [] = ⊥
IsIn a (x ∷ xs) = (a ≡ x) ⊎ IsIn a xs

module _ {A : Type 0} (P : A → Type 0) where
  pub All-append : (xs ys : List A) → All P xs → All P ys → All P (xs ++ ys)
  All-append [] ys px py = py
  All-append (x ∷ xs) ys px py = (px.0, All-append xs ys px.1 py)

  pub All-tabulate : (xs : List A) → ((x : A) → IsIn x xs → P x) → All P xs
  All-tabulate [] p = tt
  All-tabulate (x ∷ xs) p = (p x (inl refl), All-tabulate xs (λ y i. p y (inr i)))

  pub All-last : (xs : List A) (a : A) → All P xs → get_last? xs ≡ some a → P a
  All-last [] a ps e = absurd (ground arith)
  All-last (x ∷ []) a ps e = let p : x ≡ a = ground arith in subst P p ps.0
  All-last (x ∷ y ∷ ys) a ps e = All-last (y ∷ ys) a ps.1 e

module _ {A : Type 0} where
  pub get_last?-snoc : (xs : List A) (a : A) → get_last? (xs ++ a ∷ []) ≡ some a
  get_last?-snoc [] a = refl
  get_last?-snoc (x ∷ []) a = refl
  get_last?-snoc (x ∷ y ∷ ys) a = get_last?-snoc (y ∷ ys) a

  pub get_last?-none : (xs : List A) → get_last? xs ≡ none → xs ≡ []
  get_last?-none [] e = refl
  get_last?-none (x ∷ []) e = absurd (ground arith)
  get_last?-none (x ∷ y ∷ ys) e = absurd (ground (arith, get_last?-none (y ∷ ys) e))
