-- ===== src/Prelude/Strings.antt =====
-- Go strings: sequences of bytes.
use Prim.Native.Nat.{ℕ}
use Prim.Native.Char.{code}
use Prim.Native.String.{String}
use mathlib.Core.Path.{◌≡◌, refl, ap₂}
use mathlib.Core.Logic.{◌≢◌}
use mathlib.Core.List.{List, [], ◌∷◌}
use native.Mathlib.Decide.{ℕ_discrete}

abbrev pub Text : Type 0
Text = List ℕ

-- The bytes of an ASCII literal.
abbrev pub codes : String → Text
codes String.[] = []
codes (String.◌∷◌ c s) = code c ∷ codes s

pub nil-ne-cons : {b : ℕ} {t : Text} → ◌≢◌ {A = Text} [] (b ∷ t)
nil-ne-cons e = cc

pub cons-ne-nil : {b : ℕ} {t : Text} → ◌≢◌ {A = Text} (b ∷ t) []
cons-ne-nil e = cc

pub cons_heads : {a b : ℕ} {s t : Text} → ◌≡◌ {A = Text} (a ∷ s) (b ∷ t) → a ≡ b
cons_heads e = cc

pub cons_tails : {a b : ℕ} {s t : Text} → ◌≡◌ {A = Text} (a ∷ s) (b ∷ t) → s ≡ t
cons_tails e = cc

-- A type of map keys.
pub record Key {ℓ} (K : Type ℓ) : Type ℓ where
  pub dec : Discrete K

abbrev pub both_equal : {a b : ℕ} {s t : Text} → Dec (a ≡ b) → Dec (s ≡ t) → Dec (a ∷ s ≡ b ∷ t)
both_equal (yes p) (yes q) = yes (ap₂ ◌∷◌ p q)
both_equal (yes p) (no q) = no (λ e. q (cons_tails e))
both_equal (no p) d = no (λ e. p (cons_heads e))

unfoldable pub Text-discrete : Discrete Text
Text-discrete [] [] = yes refl
Text-discrete [] (b ∷ t) = no nil-ne-cons
Text-discrete (a ∷ s) [] = no cons-ne-nil
Text-discrete (a ∷ s) (b ∷ t) = both_equal (ℕ_discrete a b) (Text-discrete s t)

instance abbrev pub text_key : Key Text
text_key = record { dec = Text-discrete }

instance abbrev pub nat_key : Key ℕ
nat_key = record { dec = ℕ_discrete }
