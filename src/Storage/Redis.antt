-- ===== src/Storage/Redis.antt =====
-- src/redis_storage.go: the storage in a Redis hash for each key. The Redis server is a parameter.
pub mod Server
pub mod Contents
pub mod Sorting
pub mod Entries
pub mod Reading
pub mod Scanning
pub mod Setting
use goctopus.Config.{Config}
use goctopus.Message.{is_empty, encode, decode_message, Message, Platform}
use goctopus.Prelude.GoMap.{Map}
use goctopus.Prelude.{
  ltb, ◌==◌, if◌then◌else◌, ltb_ℤ, leb_ℤ, ℤ, pos, Text, codes, ℕ, zero, suc, ◌*◌, Bool, false, not,
  ◌&&◌, Option, none, some, List, [], ◌∷◌, ◌++◌, text_key,
}

-- The commands that write, as they are queued in a transaction.
pub data Command : Type 0 where
  hset : Text → Text → Text → Command
  hdel : Text → Text → Command
  del : Text → Command
  expire : Text → ℤ → Command

-- A client of a server with the state `R`. `false` and `none` stand for a non-nil error.
pub record RedisClient (R : Type 0) : Type 0 where
  pub run : Command → R → Bool × R
  -- the commands of a `TxPipeline`
  pub exec : List Command → R → Bool × R
  pub hgetall : Text → R → Option (Map Text Text) × R
  -- a batch of keys that match the pattern, and the next cursor
  pub scan : ℕ → Text → R → Option (List Text × ℕ) × R
  pub publish : Text → Text → R → Bool × R
  pub ping : R → Bool

abbrev pub queue_prefix : Text
queue_prefix = codes "goctopus:q:"

unfoldable pub queue_key : Text → Text
queue_key key = queue_prefix ++ key

-- `sort.Slice` by the date. Go leaves open how it orders equal dates.
unfoldable pub insert_by_date : Message → List Message → List Message
insert_by_date m [] = m ∷ []
insert_by_date m (x ∷ q) =
    let rest = insert_by_date m q in if ltb x.date m.date then x ∷ rest else m ∷ x ∷ q

unfoldable pub sort_by_date : List Message → List Message
unfolding insert_by_date
sort_by_date [] = []
sort_by_date (m ∷ q) = insert_by_date m (sort_by_date q)

-- The rest of a text behind a prefix, if it has it.
unfoldable pub behind : Text → Text → Option Text
behind [] s = some s
behind (b ∷ pre) [] = none
behind (b ∷ pre) (c ∷ s) = let rest = behind pre s in if b == c then rest else none

-- strings.TrimPrefix
unfoldable pub trim_prefix : Text → Text → Text
unfolding behind
trim_prefix pre s = elim (behind pre s) [ none ↦ s | some rest ↦ rest ]

unfoldable pub trim_all : List Text → List Text
unfolding trim_prefix
trim_all [] = []
trim_all (k ∷ keys) = trim_prefix queue_prefix k ∷ trim_all keys

-- `connect` stands for `redis.ParseURL` and `redis.NewClient`. The result is the connection and `keyTTL`,
-- `none` where the URL does not parse or the server does not answer.
unfoldable pub init_redis :
    {R : Type 0} → RedisClient R → (Text → Option R) → Config → Option (R × ℤ)
init_redis rc connect cfg =
    let url = if is_empty cfg.redis_url then codes "redis://localhost:6379/0" else cfg.redis_url in
    elim (connect url) [
      | none ↦ none
      | some r ↦ if rc.ping r then some (r, cfg.redis_key_ttl) else none
    ]

-- The loop of `Subscribe`, over the events until the context is done or the channel is closed.
unfoldable pub subscribe : {X : Type 0} → (Text → X → X) → List Text → X → X
subscribe handler [] x = x
subscribe handler (key ∷ events) x = subscribe handler events (handler key x)

module _ {R : Type 0} (rc : RedisClient R) (p : Platform) (key_ttl : ℤ) where
  -- The commands that `SetQueue` queues for the messages; `none` where one does not encode.
  unfoldable pub hsets : Text → List Message → Option (List Command)
  hsets qk [] = some []
  hsets qk (m ∷ queue) =
      let rest = hsets qk queue in
      elim (encode p m) [
        | none ↦ none
        | some b ↦ elim rest [
          | none ↦ none
          | some commands ↦ some (hset qk (p.uuid_text m.id) b ∷ commands)
        ]
      ]

  unfoldable pub expire_commands : Text → List Message → List Command
  expire_commands qk queue =
      if ltb_ℤ (pos 0) key_ttl && not (is_empty queue) then expire qk key_ttl ∷ [] else []

  unfoldable pub set_queue : Text → List Message → R → Bool × R
  unfolding hsets expire_commands
  set_queue key queue r =
      let qk = queue_key key in
      elim (hsets qk queue) [
        | none ↦ (false, r)
        | some commands ↦ rc.exec (del qk ∷ commands ++ expire_commands qk queue) r
      ]

  -- The loop of `GetQueue`: what does not decode is dropped from the hash.
  unfoldable pub read_entries : Text → Map Text Text → R → List Message × R
  read_entries key [] r = ([], r)
  read_entries key ((f, v) ∷ entries) r = elim (decode_message p v) [
    | none ↦ read_entries key entries (rc.run (hdel (queue_key key) f) r).1
    | some m ↦ let (queue, r') = read_entries key entries r in (m ∷ queue, r')
  ]

  unfoldable pub read_reply : Text → Option (Map Text Text) → R → Option (List Message) × R
  unfolding read_entries sort_by_date
  read_reply key none r = (none, r)
  read_reply key (some entries) r =
      let (queue, r') = read_entries key entries r in (some (sort_by_date queue), r')

  unfoldable pub get_queue : Text → R → Option (List Message) × R
  unfolding read_reply
  get_queue key r = let (reply, r') = rc.hgetall (queue_key key) r in read_reply key reply r'

  unfoldable pub delete_queue : Text → R → Bool × R
  delete_queue key r = rc.run (del (queue_key key)) r

  unfoldable pub add_encoded : Text → Message → Option Text → R → Bool × R
  add_encoded key m none r = (false, r)
  add_encoded key m (some b) r =
      let write = hset (queue_key key) (p.uuid_text m.id) b in
      if leb_ℤ key_ttl (pos 0)
      then rc.run write r
      else rc.exec (write ∷ expire (queue_key key) key_ttl ∷ []) r

  unfoldable pub add_message : Text → Message → R → Bool × R
  unfolding add_encoded
  add_message key m r = add_encoded key m (encode p m) r

  unfoldable pub delete_message : Text → ℕ → R → Bool × R
  delete_message key id r = rc.run (hdel (queue_key key) (p.uuid_text id)) r

  -- The loop of `GetKeys`, with fuel; the outer `none` is that the fuel ran out.
  unfoldable pub scan_keys : ℕ → ℕ → List Text → R → Option (Option (List Text) × R)
  unfolding trim_all
  scan_keys zero cursor keys r = none
  scan_keys (suc fuel) cursor keys r =
      let (reply, r') = rc.scan cursor (queue_prefix ++ codes "*") r in
      elim reply [
        | none ↦ some (none, r')
        | some (batch, zero) ↦ some (some (keys ++ trim_all batch), r')
        | some (batch, suc next) ↦ scan_keys fuel (suc next) (keys ++ trim_all batch) r'
      ]

  unfoldable pub get_keys : ℕ → R → Option (Option (List Text) × R)
  unfolding scan_keys
  get_keys fuel r = scan_keys fuel 0 [] r

  unfoldable pub notify : Text → R → Bool × R
  notify key r = rc.publish (codes "goctopus:events") key r

  unfoldable pub ping_context : R → Bool
  ping_context r = rc.ping r
