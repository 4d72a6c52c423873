-- ===== src/Storage/Redis/Contents.antt =====
-- The Redis storage implements the same map from a key and an id to a message as the memory storage.
use goctopus.Storage.Memory.Refinement.{Contents, act, act_all}
use goctopus.Storage.Memory.Tidy.{Call, adds, deletes, clears}
use goctopus.Storage.Redis.Server.{Hashes, apply, run_succeeded, exec_succeeded, IsRedis}
use goctopus.Storage.Redis.{
  queue_prefix, queue_key, behind, trim_prefix, delete_queue, add_encoded, add_message,
  delete_message, RedisClient, hset, hdel, del, expire,
}
use goctopus.Message.Stored.{kept, decode_message-encode, IsCodec}
use goctopus.Message.{encode, decode_message, Message, Platform}
use mathlib.Core.Path.{fun_ext}
use goctopus.Prelude.{
  if◌then◌else◌, Bool-cases, Option-cases, ℤ, Text, ℕ, ◌≡◌, refl, sym, ap, subst, ◌∙◌, inl, inr,
  Bool, true, Option, none, some, List, [], ◌∷◌, ◌++◌, map, arith, text_key,
}

module _ {R : Type 0} (hashes : R → Hashes) (p : Platform) where
  -- The message under a key and an id; none where the entry does not decode.
  abbrev pub redis_contents : R → Contents
  redis_contents r key id = elim (hashes r (queue_key key) (p.uuid_text id)) [
    | none ↦ none
    | some b ↦ decode_message p b
  ]

  -- What decodes stands under its own id.
  abbrev pub OwnFields : R → Type 0
  OwnFields r =
      (k f v : Text) (m : Message)
      → hashes r k f ≡ some v
      → decode_message p v ≡ some m
      → f ≡ p.uuid_text m.id

behind-append : (pre s : Text) → behind pre (pre ++ s) ≡ some s
unfolding behind
behind-append [] s = refl
behind-append (b ∷ pre) s = ground (arith, behind-append pre s)

pub trim_prefix-append : (pre s : Text) → trim_prefix pre (pre ++ s) ≡ s
unfolding trim_prefix
trim_prefix-append pre s = ground (arith, behind-append pre s)

pub queue_key_injective : (k j : Text) → queue_key k ≡ queue_key j → k ≡ j
unfolding queue_key
queue_key_injective k j e =
    sym (trim_prefix-append queue_prefix k)
    ∙ ap (trim_prefix queue_prefix) e
    ∙ trim_prefix-append queue_prefix j

-- The call that the abstract map sees.
abbrev pub kept_call : Call → Call
kept_call (adds k m) = adds k (kept m)
kept_call (deletes k id) = deletes k id
kept_call (clears k) = clears k

module _ {R : Type 0} (rc : RedisClient R) (hashes : R → Hashes) (law : IsRedis rc hashes)
    (p : Platform) (codec : IsCodec p) (key_ttl : ℤ) where
  add_message-hashes :
      (k : Text) (m : Message) (r : R)
      → (add_message rc p key_ttl k m r).0 ≡ true
      → (b : Text) × (encode p m ≡ some b)
        × ((j f : Text)
            → hashes (add_message rc p key_ttl k m r).1 j f
              ≡ apply (hset (queue_key k) (p.uuid_text m.id) b) (hashes r) j f)
  unfolding add_message add_encoded
  add_message-hashes k m r h = elim (Option-cases (encode p m)) [
    | inl e ↦ absurd (ground arith)
    | inr (b, e) ↦
        let write = hset (queue_key k) (p.uuid_text m.id) b in
        let both = write ∷ expire (queue_key k) key_ttl ∷ [] in
        (
          b,
          e,
          λ j f. ground (
            arith,
            run_succeeded rc hashes law write r j f,
            exec_succeeded rc hashes law both r j f,
          ),
        )
  ]

  add_contents :
      (k : Text) (m : Message) (r : R)
      → (add_message rc p key_ttl k m r).0 ≡ true
      → (j : Text) (i : ℕ)
      → redis_contents hashes p (add_message rc p key_ttl k m r).1 j i
        ≡ act (adds k (kept m)) (redis_contents hashes p r) j i
  add_contents k m r h j i =
      let (b, e, after) = add_message-hashes k m r h in
      ground (
        arith,
        after (queue_key j) (p.uuid_text i),
        queue_key_injective k j,
        codec.one_id m.id i,
        decode_message-encode p m b codec e,
      )

  delete_contents :
      (k : Text) (id : ℕ) (r : R)
      → (delete_message rc p key_ttl k id r).0 ≡ true
      → (j : Text) (i : ℕ)
      → redis_contents hashes p (delete_message rc p key_ttl k id r).1 j i
        ≡ act (deletes k id) (redis_contents hashes p r) j i
  unfolding delete_message
  delete_contents k id r h j i = ground (
    arith,
    queue_key_injective k j,
    codec.one_id id i,
    run_succeeded rc hashes law (hdel (queue_key k) (p.uuid_text id)) r (queue_key j)
        (p.uuid_text i) h,
  )

  clear_contents :
      (k : Text) (r : R)
      → (delete_queue rc p key_ttl k r).0 ≡ true
      → (j : Text) (i : ℕ)
      → redis_contents hashes p (delete_queue rc p key_ttl k r).1 j i
        ≡ act (clears k) (redis_contents hashes p r) j i
  unfolding delete_queue
  clear_contents k r h j i = ground (
    arith,
    queue_key_injective k j,
    run_succeeded rc hashes law (del (queue_key k)) r (queue_key j) (p.uuid_text i) h,
  )

  add_message-OwnFields :
      (k : Text) (m : Message) (r : R)
      → (add_message rc p key_ttl k m r).0 ≡ true
      → OwnFields hashes p r
      → OwnFields hashes p (add_message rc p key_ttl k m r).1
  add_message-OwnFields k m r h own j f v n e d =
      let (b, encoded, after) = add_message-hashes k m r h in
      ground (arith, after j f, decode_message-encode p m b codec encoded, own j f v n)

  delete_message-OwnFields :
      (k : Text) (id : ℕ) (r : R)
      → (delete_message rc p key_ttl k id r).0 ≡ true
      → OwnFields hashes p r
      → OwnFields hashes p (delete_message rc p key_ttl k id r).1
  unfolding delete_message
  delete_message-OwnFields k id r h own j f v n e d = ground (
    arith,
    own j f v n,
    run_succeeded rc hashes law (hdel (queue_key k) (p.uuid_text id)) r j f h,
  )

  delete_queue-OwnFields :
      (k : Text) (r : R)
      → (delete_queue rc p key_ttl k r).0 ≡ true
      → OwnFields hashes p r
      → OwnFields hashes p (delete_queue rc p key_ttl k r).1
  unfolding delete_queue
  delete_queue-OwnFields k r h own j f v n e d =
      ground (arith, own j f v n, run_succeeded rc hashes law (del (queue_key k)) r j f h)

  call : Call → R → Bool × R
  call (adds k m) r = add_message rc p key_ttl k m r
  call (deletes k id) r = delete_message rc p key_ttl k id r
  call (clears k) r = delete_queue rc p key_ttl k r

  -- The calls one after the other, to the first that fails.
  unfoldable pub run_calls : List Call → R → Option R
  unfolding call
  run_calls [] r = some r
  run_calls (c ∷ calls) r =
      let rest = run_calls calls (call c r).1 in if (call c r).0 then rest else none

  call_contents :
      (c : Call) (r : R)
      → (call c r).0 ≡ true
      → redis_contents hashes p (call c r).1 ≡ act (kept_call c) (redis_contents hashes p r)
  unfolding call
  call_contents (adds k m) r h = fun_ext λ j. fun_ext λ i. add_contents k m r h j i
  call_contents (deletes k id) r h = fun_ext λ j. fun_ext λ i. delete_contents k id r h j i
  call_contents (clears k) r h = fun_ext λ j. fun_ext λ i. clear_contents k r h j i

  call-OwnFields :
      (c : Call) (r : R)
      → (call c r).0 ≡ true
      → OwnFields hashes p r
      → OwnFields hashes p (call c r).1
  unfolding call
  call-OwnFields (adds k m) r h own = add_message-OwnFields k m r h own
  call-OwnFields (deletes k id) r h own = delete_message-OwnFields k id r h own
  call-OwnFields (clears k) r h own = delete_queue-OwnFields k r h own

  -- Over a Redis server on which what decodes stands under its own id, after any calls that succeed
  -- the storage holds what the abstract map, the same as that of the memory storage, holds after
  -- them, but for the parts of a message that its storage form drops; and what decodes still stands
  -- under its own id.
  pub run_calls-act_all :
      (calls : List Call) (r r' : R)
      → run_calls calls r ≡ some r'
      → OwnFields hashes p r
      → (redis_contents hashes p r' ≡ act_all (map kept_call calls) (redis_contents hashes p r))
        × OwnFields hashes p r'
  unfolding run_calls
  run_calls-act_all [] r r' e own =
      let same : r ≡ r' = ground arith in (rw same refl, subst (OwnFields hashes p) same own)
  run_calls-act_all (c ∷ calls) r r' e own = elim (Bool-cases (call c r).0) [
    | inr failed ↦ absurd (ground arith)
    | inl h ↦
        let later =
          run_calls-act_all calls (call c r).1 r' (ground arith) (call-OwnFields c r h own) in
        (later.0 ∙ ap (act_all (map kept_call calls)) (call_contents c r h), later.1)
  ]
