-- ===== src/Prelude/Members.antt =====
-- Membership in a list as a Boolean, and lists without repetition.
use mathlib.Core.Path.{◌≡◌, refl}
use mathlib.Core.Logic.{ite}
use mathlib.Core.Bool.{Bool, true, false, ◌||◌}
use mathlib.Core.List.{List, [], ◌∷◌, ◌++◌}
use native.Mathlib.Omega.{arith}
use goctopus.Prelude.Tests.{decide}
use goctopus.Prelude.Strings.{Key}

module _ {ℓ} {K : Type ℓ} ⦃e : Key K⦄ where
  -- The entry of a `map[K]bool` that a loop fills from the list.
  unfoldable pub has : K → List K → Bool
  has k [] = false
  has k (x ∷ xs) = ite (e.dec x k) true (has k xs)

  pub has-cons : (k x : K) (xs : List K) → has k (x ∷ xs) ≡ (decide (e.dec x k) || has k xs)
  unfolding has
  has-cons k x xs = ground arith

  pub has-append : (k : K) (xs ys : List K) → has k (xs ++ ys) ≡ (has k xs || has k ys)
  unfolding has
  has-append k [] ys = refl
  has-append k (x ∷ xs) ys = ground (arith, has-append k xs ys)

  -- No element stands twice.
  abbrev pub Distinct : List K → Type 0
  Distinct [] = Unit
  Distinct (x ∷ xs) = (has x xs ≡ false) × Distinct xs

  pub Distinct-snoc :
      (xs : List K) (k : K) → has k xs ≡ false → Distinct xs → Distinct (xs ++ k ∷ [])
  unfolding has
  Distinct-snoc [] k h d = ground arith
  Distinct-snoc (x ∷ xs) k h d = ground (arith, has-append x xs (k ∷ []), Distinct-snoc xs k)
