-- ===== src/Tests.antt =====
-- Sample states, and the theorems at them.
mod Delivery
mod Storing
mod Serving
mod Limits
mod Reading
mod Interleaving
mod Receiving
mod Granting
mod Codec
mod Redis
mod Running
mod Configured
mod Goroutines
mod Ending
use goctopus.Prelude.{
  ◌==◌, if◌then◌else◌, decide, pos, Text, codes, Text-discrete, ℕ, zero, suc, ◌*◌, Bool, true,
  false, ◌&&◌, Option, none, some, [], ◌∷◌, text_key, nat_key,
}
use goctopus.Message.{received, Value, Message, Posted, StoredMessage, Platform, text}
use goctopus.Client.{Client}
use goctopus.Config.{Config}
use goctopus.Delivery.{written, Flush}
use goctopus.Engine.{Metrics, Goctopus}
use goctopus.Storage.Memory.{MemoryStorage}

abbrev pub alice : Text
alice = codes "a"

abbrev pub topic : Text
topic = codes "t"

abbrev pub all_topics : Text
all_topics = codes "*"

abbrev pub hello : Message
hello = record {
  id = 7;
  key = alice;
  keys = topic ∷ alice ∷ [];
  message_id = [];
  value = Value.text (codes "hi");
  expire = codes "1m";
  date = 10;
}

abbrev pub old : Message
old = record hello { id = 8; expire = [] }

abbrev pub posted_hello : Posted
posted_hello = record {
  key = alice;
  keys = topic ∷ [];
  message_id = [];
  value = Value.text (codes "hi");
  expire = [];
}

-- The stored messages that are written: those with the key, the value and the lifetime of `hello`.
abbrev pub stored_hi : ℕ → ℕ → StoredMessage
stored_hi id date = record {
  id = id;
  key = alice;
  value = Value.text (codes "hi");
  expire = codes "1m";
  date = date;
}

abbrev pub says_hi : Value → Bool
says_hi (Value.text t) = decide (Text-discrete t (codes "hi"))
says_hi _ = false

abbrev pub is_hi : StoredMessage → Bool
is_hi s =
    says_hi s.value
    && decide (Text-discrete s.key alice)
    && decide (Text-discrete s.expire (codes "1m"))

abbrev pub read_hi : Text → Option StoredMessage
read_hi (id ∷ date ∷ []) = some (stored_hi id date)
read_hi _ = none

-- Durations: the empty text does not parse, any other is 60. The body `n` is JSON null.
abbrev pub platform : Platform
platform = record {
  parse_duration = λ s. elim s [ [] ↦ none | c ∷ rest ↦ some (pos 60) ];
  parse_uuid = λ s. elim s [ [] ↦ none | c ∷ rest ↦ some c ];
  unmarshal_posted = λ b. elim b [
    | [] ↦ none
    | c ∷ rest ↦ if c == b'n' then some none else some (some posted_hello)
  ];
  path_match = λ pattern_key key. some true;
  unmarshal_object = λ b. some ((codes "id", Value.text b) ∷ []);
  marshal_stored = λ s. if is_hi s then some (s.id ∷ s.date ∷ []) else none;
  unmarshal_stored = read_hi;
  uuid_text = λ id. id ∷ [];
  marshal_payload = λ payload. some (codes "{}");
  marshal_payloads = λ payloads. some (codes "[]");
  marshal_keys = λ keys. some (codes "[]");
  marshal_counts = λ counts. some (codes "{}");
  split_host_port = λ address. some address;
}

-- An open connection for `a`, and one for every topic.
abbrev pub first : Client
first = record {
  keys = alice ∷ [];
  compress = false;
  inflight = [];
  closed = false;
  done = 0;
  written = [];
}

abbrev pub second : Client
second = record first { keys = all_topics ∷ [] }

abbrev pub clients : ℕ → Client
clients zero = first
clients (suc n) = second

abbrev pub metrics : Metrics
metrics = record { received = 0; delivered = 0; expired = 0; auth_fail = 0; delivery = [] }

abbrev pub queues : MemoryStorage
queues = (alice, hello ∷ old ∷ []) ∷ (topic, hello ∷ []) ∷ []

abbrev pub server : Goctopus MemoryStorage
server = record {
  conns = (alice, 0 ∷ []) ∷ (all_topics, 1 ∷ []) ∷ [];
  patterns = (all_topics, true) ∷ [];
  clients = clients;
  next = 2;
  storage = queues;
  history = none;
  metrics = metrics;
  notified = [];
  limiter = none;
}

abbrev pub flush : Flush
flush = record { clock = λ id. 20; writes = λ cid id. true }

abbrev pub later_flush : Flush
later_flush = record { clock = λ id. 30; writes = λ cid id. false }

abbrev pub config : Config
config = record {
  host = codes "0.0.0.0";
  port = codes "7890";
  workers = pos 2;
  default_expire = codes "30m";
  verbose = false;
  log_json = false;
  login = codes "admin";
  password = codes "secret";
  insecure_no_auth = false;
  storage_engine = codes "memory";
  authorizer_engine = codes "dummy";
  auth_url = alice;
  auth_timeout = pos 10;
  auth_cache_ttl = pos 0;
  redis_url = [];
  redis_key_ttl = pos 0;
  sweep_interval = pos 60;
  ping_interval = pos 30;
  read_timeout = pos 70;
  write_timeout = pos 10;
  history_size = pos 5;
  history_ttl = pos 60;
  reconcile_interval = pos 60;
  max_message_bytes = 100;
  rate_limit = record { numerator = pos 5; denominator = 2 };
  rate_burst = pos 3;
  trust_proxy_headers = false;
  tls_cert = [];
  tls_key = [];
  compression = true;
  allowed_origins = codes "b" ∷ [];
}
