-- ===== src/Storage/Redis/Setting.antt =====
-- What `SetQueue` of the Redis storage leaves, and what `GetQueue` then returns.
use goctopus.Storage.Redis.Reading.{get_queue_lem}
use goctopus.Storage.Redis.Sorting.{InDateOrder}
use mathlib.Core.Path.{fun_ext}
use goctopus.Storage.Redis.Contents.{redis_contents, OwnFields, queue_key_injective}
use goctopus.Storage.Redis.Server.{Hashes, apply, apply_all, exec_succeeded, IsRedis}
use goctopus.Storage.Redis.{
  queue_key, hsets, expire_commands, set_queue, get_queue, Command, RedisClient, hset, del,
}
use goctopus.Storage.Queue.{find, ids, find_absent}
use goctopus.Message.Stored.{kept, decode_message-encode, IsCodec}
use goctopus.Message.{is_empty, encode, decode_message, Message, Platform}
use goctopus.Prelude.{
  if◌then◌else◌, Bool-cases, Option-cases, decide, ltb_ℤ, ℤ, pos, Text, Text-discrete, Distinct, ℕ,
  ◌≡◌, refl, sym, ap, subst, ◌∙◌, ◌≢◌, inl, inr, true, not, ◌&&◌, Option, none, some, List, [], ◌∷◌,
  ◌++◌, arith, ℕ_discrete, text_key, nat_key,
}

apply_all-append :
    (cs ds : List Command) (h : Hashes) → apply_all (cs ++ ds) h ≡ apply_all ds (apply_all cs h)
apply_all-append [] ds h = refl
apply_all-append (c ∷ cs) ds h = apply_all-append cs ds (apply c h)

-- The stored form of the message with an id.
abbrev pub kept_of : Option Message → Option Message
kept_of none = none
kept_of (some m) = some (kept m)

module _ {R : Type 0} (rc : RedisClient R) (hashes : R → Hashes) (law : IsRedis rc hashes)
    (p : Platform) (codec : IsCodec p) (key_ttl : ℤ) where
  at_hashes : Hashes → Text → ℕ → Option Message
  at_hashes h key id = elim (h (queue_key key) (p.uuid_text id)) [
    | none ↦ none
    | some b ↦ decode_message p b
  ]

  Owned : Hashes → Type 0
  Owned h =
      (k f v : Text) (m : Message)
      → h k f ≡ some v
      → decode_message p v ≡ some m
      → f ≡ p.uuid_text m.id

  hset_at :
      (k : Text) (m : Message) (b : Text) (h : Hashes) (j : Text) (i : ℕ)
      → encode p m ≡ some b
      → at_hashes (apply (hset (queue_key k) (p.uuid_text m.id) b) h) j i ≡ (
          if decide (Text-discrete k j) && decide (ℕ_discrete m.id i)
          then some (kept m)
          else at_hashes h j i)
  unfolding at_hashes
  hset_at k m b h j i e =
      ground
        (arith, queue_key_injective k j, codec.one_id m.id i, decode_message-encode p m b codec e)

  hset-Owned :
      (qk : Text) (m : Message) (b : Text) (h : Hashes)
      → encode p m ≡ some b
      → Owned h
      → Owned (apply (hset qk (p.uuid_text m.id) b) h)
  unfolding Owned
  hset-Owned qk m b h e own j f v n stands d =
      ground (arith, decode_message-encode p m b codec e, own j f v n)

  hsets_parts :
      (qk : Text) (m : Message) (queue : List Message) (commands : List Command)
      → hsets rc p key_ttl qk (m ∷ queue) ≡ some commands
      → (b : Text) × (cs : List Command) × (encode p m ≡ some b)
        × (hsets rc p key_ttl qk queue ≡ some cs)
        × (hset qk (p.uuid_text m.id) b ∷ cs ≡ commands)
  unfolding hsets
  hsets_parts qk m queue commands e = elim (Option-cases (encode p m)) [
    | inl no_text ↦ absurd (ground arith)
    | inr (b, encoded) ↦ elim (Option-cases (hsets rc p key_ttl qk queue)) [
      | inl no_rest ↦ absurd (ground arith)
      | inr (cs, rest) ↦ (b, cs, encoded, rest, ground arith)
    ]
  ]

  hsets_at :
      (k : Text) (queue : List Message) (commands : List Command) (h : Hashes)
      → hsets rc p key_ttl (queue_key k) queue ≡ some commands
      → Distinct (ids queue)
      → Owned h
      → Owned (apply_all commands h)
        × ((j : Text) (i : ℕ)
            → at_hashes (apply_all commands h) j i ≡ (
                if decide (Text-discrete k j)
                then elim (find i queue) [ none ↦ at_hashes h j i | some m ↦ some (kept m) ]
                else at_hashes h j i))
  unfolding find ids hsets
  hsets_at k [] commands h e d own =
      let same : [] ≡ commands = ground arith in
      (subst (λ cs. Owned (apply_all cs h)) same own, λ j i. rw (sym same) (ground arith))
  hsets_at k (m ∷ queue) commands h e d own =
      let (b, cs, encoded, rest, same) = hsets_parts (queue_key k) m queue commands e in
      let h' = apply (hset (queue_key k) (p.uuid_text m.id) b) h in
      let (own', at) =
        hsets_at k queue cs h' rest d.1 (hset-Owned (queue_key k) m b h encoded own) in
      (
        subst (λ cs'. Owned (apply_all cs' h)) same own',
        λ j i.
            ap (λ cs'. at_hashes (apply_all cs' h) j i) (sym same)
            ∙ at j i
            ∙ ground (arith, hset_at k m b h j i encoded, find_absent m.id queue, d.0),
      )

  del_at :
      (k : Text) (h : Hashes) (j : Text) (i : ℕ)
      → at_hashes (apply (del (queue_key k)) h) j i
        ≡ (if decide (Text-discrete k j) then none else at_hashes h j i)
  unfolding at_hashes
  del_at k h j i = ground (arith, queue_key_injective k j)

  del-Owned : (qk : Text) (h : Hashes) → Owned h → Owned (apply (del qk) h)
  unfolding Owned
  del-Owned qk h own j f v n stands d = ground (arith, own j f v n)

  apply_expire :
      (qk : Text) (queue : List Message) (h : Hashes)
      → apply_all (expire_commands rc p key_ttl qk queue) h ≡ h
  unfolding expire_commands
  apply_expire qk queue h = elim (Bool-cases (ltb_ℤ (pos 0) key_ttl && not (is_empty queue))) [
    | inl e ↦ rw (e, expire_commands) refl
    | inr e ↦ rw (e, expire_commands) refl
  ]

  -- What a successful call leaves, of each key.
  set_queue_contents :
      (k : Text) (queue : List Message) (r : R)
      → (set_queue rc p key_ttl k queue r).0 ≡ true
      → Distinct (ids queue)
      → OwnFields hashes p r
      → OwnFields hashes p (set_queue rc p key_ttl k queue r).1
        × ((j : Text) (i : ℕ)
            → redis_contents hashes p (set_queue rc p key_ttl k queue r).1 j i ≡ (
                if decide (Text-discrete k j)
                then kept_of (find i queue)
                else redis_contents hashes p r j i))
  unfolding set_queue Owned at_hashes
  set_queue_contents k queue r h d own =
      let qk = queue_key k in
      elim (Option-cases (hsets rc p key_ttl qk queue)) [
        | inl e ↦ absurd (ground arith)
        | inr (cs, e) ↦
            let commands = del qk ∷ cs ++ expire_commands rc p key_ttl qk queue in
            let before = hashes r in
            let cleared = apply (del qk) before in
            let ran : (rc.exec commands r).0 ≡ true = ground arith in
            let after : hashes (rc.exec commands r).1 ≡ apply_all cs cleared =
              (fun_ext λ j. fun_ext λ f. exec_succeeded rc hashes law commands r j f ran)
              ∙ apply_all-append cs (expire_commands rc p key_ttl qk queue) cleared
              ∙ apply_expire qk queue (apply_all cs cleared) in
            let (own', at) = hsets_at k queue cs cleared e d (del-Owned qk before own) in
            let left : hashes (set_queue rc p key_ttl k queue r).1 ≡ apply_all cs cleared =
              ap hashes (ground arith) ∙ after in
            (
              λ j f v m n. own' j f v m (sym (ap (λ h'. h' j f) left) ∙ n),
              λ j i.
                  ap (λ h'. at_hashes h' j i) left
                  ∙ at j i
                  ∙ ground (arith, del_at k before j i, Option-cases (find i queue)),
            )
      ]

  -- Where what decodes stands under its own id: after a call of `SetQueue` that succeeds, if the
  -- server answers, `GetQueue` returns, in the order of their dates, a queue that has under each id
  -- the message that was set with it, in its stored form, and nothing else. The messages of the
  -- queue that was set have distinct ids.
  pub get-set_queue :
      (k : Text) (queue : List Message) (r : R)
      → (set_queue rc p key_ttl k queue r).0 ≡ true
      → (rc.hgetall (queue_key k) (set_queue rc p key_ttl k queue r).1).0 ≢ none
      → Distinct (ids queue)
      → OwnFields hashes p r
      → (q : List Message) × ((get_queue rc p key_ttl k (set_queue rc p key_ttl k queue r).1).0
          ≡ some q)
        × InDateOrder 0 q
        × ((id : ℕ) → find id q ≡ kept_of (find id queue))
  get-set_queue k queue r h answered d own =
      let (own', contents) = set_queue_contents k queue r h d own in
      let (q, e, o, found, left) =
        get_queue_lem rc hashes law p codec key_ttl k (set_queue rc p key_ttl k queue r).1 answered
          own' in
      (q, e, o, λ id. found id ∙ contents k id ∙ ground arith)
