-- ===== src/Prelude/Equality.antt =====
-- `==` of values whose equality can be decided, dataclasses and tuples among them.
use Prim.Native.String.{String}
use mathlib.Core.Path.{◌≡◌, refl}
use mathlib.Core.Logic.{dite}
use mathlib.Core.Bool.{Bool, true, false, Bool-discrete, false≢true}
use text.Mathlib.Text.{◌==◌ as text_eq}
use text.Mathlib.TextEquality.{eq_iff}

unfoldable pub String-discrete : Discrete String
String-discrete s t =
    dite (Bool-discrete (text_eq s t) true) (λ same. yes ((eq_iff s t).0 same))
      (λ differ. no (λ e. differ ((eq_iff s t).1 e)))

-- The answer of a decision.
abbrev does {ℓ} : {P : Type ℓ} → Dec P → Bool
does (yes p) = true
does (no n) = false

does-true {ℓ} : {P : Type ℓ} (x : Dec P) → does x ≡ true → P
does-true (yes p) e = p
does-true (no n) e = absurd (false≢true e)

true-does {ℓ} : {P : Type ℓ} (x : Dec P) → P → does x ≡ true
true-does (yes p) q = refl
true-does (no n) q = absurd (n q)

module _ {ℓ} {A : Type ℓ} (d : Discrete A) where
  unfoldable pub equal : A → A → Bool
  equal a b = does (d a b)

  pub equal_refl : (a : A) → equal a a ≡ true
  unfolding equal
  equal_refl a = true-does (d a a) refl

  pub equal→≡ : (a b : A) → equal a b ≡ true → a ≡ b
  unfolding equal
  equal→≡ a b e = does-true (d a b) e
