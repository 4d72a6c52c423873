-- ===== src/Message/Expiry.antt =====
-- When a message is expired.
use goctopus.Prelude.{◌+ℤ◌, ◌<ℤ◌, pos, ℕ, ◌≤◌, ◌≡◌, ◌↔◌, true, arith}
use goctopus.Message.{expiry, is_expired, Message, Platform}

module _ (p : Platform) where
  -- The integers between which `isExpired` compares: a message is expired exactly when its
  -- lifetime, added to its date, lies before the present.
  pub is_expired_iff :
      (now : ℕ) (m : Message)
      → (is_expired p now m ≡ true) ↔ (expiry p m.expire +ℤ pos m.date <ℤ pos now)
  unfolding is_expired ◌+ℤ◌
  is_expired_iff now m = ground arith

  -- What is expired stays so while the clock runs on.
  pub is_expired_mono :
      (now later : ℕ) (m : Message)
      → now ≤ later
      → is_expired p now m ≡ true
      → is_expired p later m ≡ true
  unfolding is_expired
  is_expired_mono now later m h e = ground arith
