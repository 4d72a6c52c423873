-- ===== src/Message/Reading.antt =====
-- What `unmarshal` accepts, and what it does with a body that it does not.
use goctopus.Prelude.{
  if◌then◌else◌, Option-cases, Text, ℕ, ◌≡◌, refl, ◌≢◌, ◌↔◌, inl, inr, Option, none, some, [],
  arith, text_key,
}
use goctopus.Message.{
  is_empty, targets, complete, unmarshal, Message, Posted, Platform, null, ok, panic,
}

module _ (p : Platform) (default_expire : Text) (now : ℕ) (random_id : Option ℕ) where
  -- What a message that `unmarshal` returns without an error is known to satisfy.
  pub record IsReceived (posted : Posted) (m : Message) : Type 0 where
    pub addressed : targets m ≢ []
    pub valued : m.value ≢ null
    pub valued_as_posted : m.value ≡ posted.value
    pub lasting : p.parse_duration m.expire ≢ none
    pub defaulted : m.expire ≡ (if is_empty posted.expire then default_expire else posted.expire)
    pub dated : m.date ≡ now
    pub identified :
        (if is_empty posted.message_id then random_id else p.parse_uuid posted.message_id)
        ≡ some m.id

  complete-IsReceived :
      (posted : Posted) (m : Message)
      → complete p default_expire now random_id posted ≡ ok m
      → IsReceived posted m × (m.key ≡ posted.key) × (m.keys ≡ posted.keys)
  unfolding complete
  complete-IsReceived posted m h = (
    record {
      addressed = ground arith;
      valued = ground arith;
      valued_as_posted = ground arith;
      lasting = ground arith;
      defaulted = ground arith;
      dated = ground arith;
      identified = ground arith;
    },
    ground arith,
    ground arith,
  )

  -- A message that is returned is what the body names, with the defaults filled in, and passed every
  -- test.
  pub unmarshal-IsReceived :
      (body : Option Text) (m : Message)
      → unmarshal p default_expire now random_id body ≡ ok m
      → (b : Text) × (posted : Posted) × (body ≡ some b)
        × (p.unmarshal_posted b ≡ some (some posted))
        × IsReceived posted m
        × (m.key ≡ posted.key)
        × (m.keys ≡ posted.keys)
  unfolding unmarshal
  unmarshal-IsReceived none m h = cc
  unmarshal-IsReceived (some b) m h = elim (Option-cases (p.unmarshal_posted b)) [
    | inl e ↦ absurd (ground arith)
    | inr (none, e) ↦ absurd (ground arith)
    | inr (some posted, e) ↦
        let (r, k, ks) = complete-IsReceived posted m (ground arith) in
        (b, posted, refl, e, r, k, ks)
  ]

  -- Reading a message panics exactly on a body that is JSON `null`, which sets the pointer to
  -- nil.
  pub unmarshal-eq-panic_iff :
      (b : Text)
      → (unmarshal p default_expire now random_id (some b) ≡ panic)
        ↔ (p.unmarshal_posted b ≡ some none)
  unfolding unmarshal
  unmarshal-eq-panic_iff b = ground arith
