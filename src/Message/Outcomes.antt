-- ===== src/Message/Outcomes.antt =====
-- Chains of results.
use goctopus.Message.{◌>>=◌, Outcome, ok, err, panic}
use goctopus.Prelude.{◌≡◌, refl, arith}

module _ {ℓ} {E A B : Type ℓ} where
  -- A chain that succeeds succeeds at its first part.
  pub bind_ok :
      (m : Outcome E A) (f : A → Outcome E B) (b : B)
      → (m >>= f) ≡ ok b
      → (a : A) × (m ≡ ok a) × (f a ≡ ok b)
  bind_ok (ok a) f b e = (a, refl, e)
  bind_ok (err x) f b e = absurd (ground arith)
  bind_ok panic f b e = absurd (ground arith)
