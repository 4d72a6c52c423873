-- ===== src/Storage/Redis/Reading.antt =====
-- What `GetQueue` of the Redis storage returns, and what it leaves.
use goctopus.Storage.Redis.Entries.{lookup_absent, decoded, AllOwn, decoded-Distinct, find-decoded}
use goctopus.Storage.Redis.Sorting.{InDateOrder, sort_by_date-InDateOrder, find-sort_by_date}
use goctopus.Storage.Redis.Contents.{redis_contents, OwnFields}
use goctopus.Storage.Redis.Server.{Hashes, fields, IsRedis}
use goctopus.Storage.Redis.{
  queue_key, sort_by_date, read_entries, read_reply, get_queue, RedisClient, hdel,
}
use goctopus.Storage.Queue.{find}
use goctopus.Message.Stored.{IsCodec}
use goctopus.Message.{decode_message, Message, Platform}
use goctopus.Prelude.GoMap.{Map, lookup}
use goctopus.Prelude.{
  Option-cases, ℤ, Text, Text-discrete, has, Distinct, ℕ, ◌≡◌, refl, sym, ap, ◌∙◌, ◌≢◌, ◌⊎◌, inl,
  inr, false, Option, none, some, List, [], ◌∷◌, arith, text_key, nat_key,
}

module _ {R : Type 0} (rc : RedisClient R) (hashes : R → Hashes) (law : IsRedis rc hashes)
    (p : Platform) (codec : IsCodec p) (key_ttl : ℤ) where
  read_entries-decoded :
      (key : Text) (entries : Map Text Text) (r : R)
      → (read_entries rc p key_ttl key entries r).0 ≡ decoded p entries
  unfolding read_entries decoded
  read_entries-decoded key [] r = refl
  read_entries-decoded key ((f, v) ∷ entries) r = ground (
    arith,
    read_entries-decoded key entries (rc.run (hdel (queue_key key) f) r).1,
    read_entries-decoded key entries r,
  )

  -- The entries that are still to be read stand in the hash.
  abbrev Stands : Text → Map Text Text → R → Type 0
  Stands key [] r = Unit
  Stands key ((f, v) ∷ entries) r = (hashes r (queue_key key) f ≡ some v) × Stands key entries r

  hdel_value :
      (k f : Text) (r : R) (j g : Text)
      → (hashes (rc.run (hdel k f) r).1 j g ≡ hashes r j g)
        ⊎ ((k ≡ j) × (f ≡ g) × (hashes (rc.run (hdel k f) r).1 j g ≡ none))
  hdel_value k f r j g = elim (law.run_effect (hdel k f) r) [
    | inr (failed, same) ↦ inl (same j g)
    | inl e ↦ elim (Text-discrete k j) [
      | no n ↦ inl (ground (arith, e j g))
      | yes y ↦ elim (Text-discrete f g) [
        | no n ↦ inl (ground (arith, e j g))
        | yes y' ↦ inr (y, y', ground (arith, e j g))
      ]
    ]
  ]

  Stands-hdel :
      (key f : Text) (entries : Map Text Text) (r : R)
      → has f (fields entries) ≡ false
      → Stands key entries r
      → Stands key entries (rc.run (hdel (queue_key key) f) r).1
  unfolding fields has
  Stands-hdel key f [] r h s = tt
  Stands-hdel key f ((g, v) ∷ entries) r h s = (
    elim (hdel_value (queue_key key) f r (queue_key key) g) [
      | inl same ↦ same ∙ s.0
      | inr (_, e, _) ↦ absurd (ground arith)
    ],
    Stands-hdel key f entries r (ground arith) s.1,
  )

  -- An entry that does not decode is no message: to drop it changes no contents.
  hdel_contents :
      (key f v : Text) (r : R)
      → hashes r (queue_key key) f ≡ some v
      → decode_message p v ≡ none
      → (j : Text) (i : ℕ)
      → redis_contents hashes p (rc.run (hdel (queue_key key) f) r).1 j i
        ≡ redis_contents hashes p r j i
  hdel_contents key f v r stands poison j i =
      elim (hdel_value (queue_key key) f r (queue_key j) (p.uuid_text i)) [
        | inl same ↦ ground (arith, same)
        | inr (same_key, same_field, gone) ↦
            let there : hashes r (queue_key j) (p.uuid_text i) ≡ some v =
              ap (hashes r (queue_key j)) (sym same_field)
              ∙ ap (λ k. hashes r k f) (sym same_key)
              ∙ stands in
            ground (arith, gone, there, poison)
      ]

  read_entries_contents :
      (key : Text) (entries : Map Text Text) (r : R)
      → Distinct (fields entries)
      → Stands key entries r
      → (j : Text) (i : ℕ)
      → redis_contents hashes p (read_entries rc p key_ttl key entries r).1 j i
        ≡ redis_contents hashes p r j i
  unfolding read_entries fields
  read_entries_contents key [] r d s j i = refl
  read_entries_contents key ((f, v) ∷ entries) r d s j i =
      elim (Option-cases (decode_message p v)) [
        | inr (m, e) ↦ rw (e, read_entries) (read_entries_contents key entries r d.1 s.1 j i)
        | inl e ↦
            rw (e, read_entries)
              (read_entries_contents key entries (rc.run (hdel (queue_key key) f) r).1 d.1
                  (Stands-hdel key f entries r d.0 s.1) j i
                ∙ hdel_contents key f v r s.0 e j i)
      ]

  found_Stands :
      (key : Text) (entries : Map Text Text) (r : R)
      → Distinct (fields entries)
      → ((f v : Text) → lookup f entries ≡ some v → hashes r (queue_key key) f ≡ some v)
      → Stands key entries r
  unfolding fields has lookup
  found_Stands key [] r d h = tt
  found_Stands key ((f, v) ∷ entries) r d h = (
    h f v (ground arith),
    found_Stands key entries r d.1 λ g w e. h g w (ground (arith, lookup_absent f entries)),
  )

  Stands-AllOwn :
      (key : Text) (entries : Map Text Text) (r : R)
      → OwnFields hashes p r
      → Stands key entries r
      → AllOwn p entries
  Stands-AllOwn key [] r own s = tt
  Stands-AllOwn key ((f, v) ∷ entries) r own s =
      ((λ m e. own (queue_key key) f v m s.0 e), Stands-AllOwn key entries r own s.1)

  read_reply_lem :
      (key : Text) (reply : Option (Map Text Text)) (r : R)
      → reply ≢ none
      → ((entries : Map Text Text)
          → reply ≡ some entries
          → Distinct (fields entries)
            × ((f : Text) → lookup f entries ≡ hashes r (queue_key key) f))
      → OwnFields hashes p r
      → (q : List Message) × ((read_reply rc p key_ttl key reply r).0 ≡ some q)
        × InDateOrder 0 q
        × ((id : ℕ) → find id q ≡ redis_contents hashes p r key id)
        × ((j : Text) (id : ℕ)
            → redis_contents hashes p (read_reply rc p key_ttl key reply r).1 j id
              ≡ redis_contents hashes p r j id)
  unfolding read_reply
  read_reply_lem key none r answered found own = absurd (answered refl)
  read_reply_lem key (some entries) r answered found own =
      let (d, same) = found entries refl in
      let stands = found_Stands key entries r d λ f v e. sym (same f) ∙ e in
      let all = Stands-AllOwn key entries r own stands in
      let q = decoded p entries in
      (
        sort_by_date q,
        ap (λ x. some (sort_by_date x)) (read_entries-decoded key entries r),
        sort_by_date-InDateOrder q,
        (λ id.
            find-sort_by_date id q (decoded-Distinct p entries all d)
            ∙ find-decoded p codec entries id all d
            ∙ ground (arith, same (p.uuid_text id))),
        read_entries_contents key entries r d stands,
      )

  contents_same :
      (r r' : R)
      → ((j f : Text) → hashes r' j f ≡ hashes r j f)
      → (j : Text) (id : ℕ) → redis_contents hashes p r' j id ≡ redis_contents hashes p r j id
  contents_same r r' same j id = ground (arith, same (queue_key j) (p.uuid_text id))

  -- Where the server answers and what decodes stands under its own id, `GetQueue` returns, in the
  -- order of their dates, a queue that has under each id the message that the storage holds under the
  -- key and that id, and none where the entry does not decode. The contents of every key stay.
  pub get_queue_lem :
      (key : Text) (r : R)
      → (rc.hgetall (queue_key key) r).0 ≢ none
      → OwnFields hashes p r
      → (q : List Message) × ((get_queue rc p key_ttl key r).0 ≡ some q)
        × InDateOrder 0 q
        × ((id : ℕ) → find id q ≡ redis_contents hashes p r key id)
        × ((j : Text) (id : ℕ)
            → redis_contents hashes p (get_queue rc p key_ttl key r).1 j id
              ≡ redis_contents hashes p r j id)
  unfolding get_queue
  get_queue_lem key r answered own =
      let qk = queue_key key in
      let r' = (rc.hgetall qk r).1 in
      let same = law.hgetall_effect qk r in
      let (q, e, o, found, left) =
        read_reply_lem key (rc.hgetall qk r).0 r' answered
          (λ entries e. (
            (law.hgetall_result qk r entries e).0,
            λ f. (law.hgetall_result qk r entries e).1 f ∙ sym (same qk f),
          ))
          (λ k f v m e d. own k f v m (sym (same k f) ∙ e) d) in
      (
        q,
        e,
        o,
        (λ id. found id ∙ contents_same r r' same key id),
        λ j id. left j id ∙ contents_same r r' same j id,
      )
