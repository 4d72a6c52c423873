-- ===== src/Message.antt =====
-- src/message.go: a published message, its targets, its payload, its expiry, and the reading of a
-- request body.
pub mod Targets
pub mod Reading
pub mod Expiry
pub mod Stored
pub mod Outcomes
use goctopus.Prelude.{
  if◌then◌else◌, sub_ℕ, ltb_ℤ, ℤ, pos, Text, codes, ℕ, Bool, true, false, Option, none, some, List,
  [], ◌∷◌, text_key,
}
use goctopus.Prelude.GoMap.{Map}
use goctopus.Prelude.Collect.{collect, nothing_collected, Collected}

-- A Go `any` that came from JSON. A number is kept by its literal: the program computes with none.
mutual
  pub data Value : Type 0 where
    null : Value
    boolean : Bool → Value
    number : Text → Value
    text : Text → Value
    array : Items → Value
    object : Fields → Value

  pub data Items : Type 0 where
    nil : Items
    cons : Value → Items → Items

  pub data Fields : Type 0 where
    end : Fields
    field : Text → Value → Fields → Fields

-- `id` is a UUID as a 128-bit number, `date` a reading of the clock in nanoseconds.
pub record Message : Type 0 where
  pub id : ℕ
  pub key : Text
  pub keys : List Text
  pub message_id : Text
  pub value : Value
  pub expire : Text
  pub date : ℕ

-- What is put under a name of a payload.
pub data Entry : Type 0 where
  uuid : ℕ → Entry
  any : Value → Entry
  string : Text → Entry
  time : ℕ → Entry

-- The exported fields of a message, as JSON sets them.
pub record Posted : Type 0 where
  pub key : Text
  pub keys : List Text
  pub message_id : Text
  pub value : Value
  pub expire : Text

-- A message as a persistent storage holds it: `storedMessage`.
pub record StoredMessage : Type 0 where
  pub id : ℕ
  pub key : Text
  pub value : Value
  pub expire : Text
  pub date : ℕ

-- The packages that the program calls: time, google/uuid, encoding/json, path and
-- net.
pub record Platform : Type 0 where
  pub parse_duration : Text → Option ℤ
  pub parse_uuid : Text → Option ℕ
  -- `json.Unmarshal` through a pointer to a pointer: JSON `null` sets that pointer to nil, which
  -- is `some none`
  pub unmarshal_posted : Text → Option (Option Posted)
  -- path.Match; `none` is a malformed pattern
  pub path_match : Text → Text → Option Bool
  pub unmarshal_object : Text → Option (Map Text Value)
  pub marshal_payload : Map Text Entry → Option Text
  pub marshal_payloads : List (Map Text Entry) → Option Text
  pub marshal_keys : List Text → Option Text
  pub marshal_counts : Map Text ℕ → Option Text
  pub marshal_stored : StoredMessage → Option Text
  pub unmarshal_stored : Text → Option StoredMessage
  -- `id.String()`
  pub uuid_text : ℕ → Text
  -- net.SplitHostPort, the host
  pub split_host_port : Text → Option Text

-- The result of a function that may return an error, or panic.
pub data Outcome {ℓ} (E A : Type ℓ) : Type ℓ where
  ok : A → Outcome E A
  err : E → Outcome E A
  panic : Outcome E A

infixl 5 ◌>>=◌ ◌>>◌
abbrev pub ◌>>=◌ {ℓ} : {E A B : Type ℓ} → Outcome E A → (A → Outcome E B) → Outcome E B
ok a >>= f = f a
err e >>= f = err e
panic >>= f = panic

abbrev pub ◌>>◌ {ℓ} : {E A B : Type ℓ} → Outcome E A → Outcome E B → Outcome E B
m >> k = m >>= λ _. k

pub data ReadError : Type 0 where
  io json invalid_key invalid_value invalid_expire invalid_message_id random : ReadError

-- `len(xs) == 0`, and a text's comparison with EMPTY_STR
abbrev pub is_empty {ℓ} : {A : Type ℓ} → List A → Bool
is_empty [] = true
is_empty (x ∷ xs) = false

-- The closure `add`.
unfoldable pub add_target : Collected Text → Text → Collected Text
add_target c k = if is_empty k then c else collect c k

unfoldable pub add_targets : Collected Text → List Text → Collected Text
unfolding add_target
add_targets c [] = c
add_targets c (k ∷ ks) = add_targets (add_target c k) ks

unfoldable pub targets : Message → List Text
unfolding add_targets
targets m = (add_targets (add_target nothing_collected m.key) m.keys).out

unfoldable pub to_map : Message → Bool → Map Text Entry
to_map m extended =
    (codes "id", uuid m.id)
    ∷ (codes "payload", any m.value)
    ∷ (if extended
        then (codes "key", string m.key)
          ∷ (codes "exp", string m.expire)
          ∷ (codes "date", time m.date)
          ∷ []
        else [])

abbrev pub or_fail {ℓ} : {E A : Type ℓ} → Option A → E → Outcome E A
or_fail none e = err e
or_fail (some a) e = ok a

abbrev pub is_null : Value → Bool
is_null null = true
is_null _ = false

-- The pointer that `json.Unmarshal` leaves; a nil one panics at its first use, in `targets`.
abbrev pub dereference {ℓ} : {E A : Type ℓ} → Option A → Outcome E A
dereference none = panic
dereference (some a) = ok a

abbrev pub check : Bool → ReadError → Outcome ReadError (Unit {0})
check true e = err e
check false e = ok tt

-- The message that the JSON fields give before the rest of `unmarshal` fills it in.
abbrev pub received : Posted → Message
received q = record {
  id = 0;
  key = q.key;
  keys = q.keys;
  message_id = q.message_id;
  value = q.value;
  expire = q.expire;
  date = 0;
}

module _ (p : Platform) where
  unfoldable pub marshal : Message → Bool → Option Text
  unfolding to_map
  marshal m extended = p.marshal_payload (to_map m extended)

  -- `exp, _ := time.ParseDuration(…)`: 0 where the text does not parse.
  unfoldable pub expiry : Text → ℤ
  expiry s = elim (p.parse_duration s) [ none ↦ pos 0 | some d ↦ d ]

  unfoldable pub is_expired : ℕ → Message → Bool
  unfolding expiry
  is_expired now m = ltb_ℤ (expiry m.expire) (sub_ℕ now m.date)

  -- A caller's id is parsed; otherwise `random` is what `uuid.NewRandom` returned.
  unfoldable pub choose_id : Text → Option ℕ → Outcome ReadError ℕ
  choose_id message_id random_id =
      if is_empty message_id
      then or_fail random_id random
      else or_fail (p.parse_uuid message_id) invalid_message_id

  -- The part of `unmarshal` that follows the JSON.
  unfoldable pub complete : Text → ℕ → Option ℕ → Posted → Outcome ReadError Message
  unfolding choose_id targets
  complete default_expire now random_id posted = do
    let m = received posted
    check (is_empty (targets m)) invalid_key
    check (is_null m.value) invalid_value
    let expire = if is_empty m.expire then default_expire else m.expire
    or_fail (p.parse_duration expire) invalid_expire
    id ← choose_id m.message_id random_id
    ok (record m { id = id; expire = expire; date = now })

  -- `unmarshal` on a new message. The body is `none` where reading it fails.
  unfoldable pub unmarshal : Text → ℕ → Option ℕ → Option Text → Outcome ReadError Message
  unfolding complete
  unmarshal default_expire now random_id body = do
    b ← or_fail body io
    pointer ← or_fail (p.unmarshal_posted b) json
    posted ← dereference pointer
    complete default_expire now random_id posted

  unfoldable pub encode : Message → Option Text
  encode m =
      p.marshal_stored
        (record { id = m.id; key = m.key; value = m.value; expire = m.expire; date = m.date })

  unfoldable pub decode_message : Text → Option Message
  decode_message b = elim (p.unmarshal_stored b) [
    | none ↦ none
    | some s ↦ some (record {
      id = s.id;
      key = s.key;
      keys = [];
      message_id = [];
      value = s.value;
      expire = s.expire;
      date = s.date;
    })
  ]
