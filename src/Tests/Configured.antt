-- ===== src/Tests/Configured.antt =====
-- The theorems on the settings, the rounds and the Go client, at samples.
use goctopus.Delivery.Flushes.{receivers}
use goctopus.Delivery.Settled.{AllSettled}
use goctopus.Lifecycle.Redelivery.{reconcile-Delivered}
use goctopus.Prelude.GoMap.{Map, lookup}
use goctopus.GoClient.Retries.{AllBelow, run_ends}
use goctopus.GoClient.Session.{run, Turn, Running}
use goctopus.GoClient.{new_subscriber}
use goctopus.Settings.Limits.{launch_positive}
use goctopus.Settings.Precedence.{first_source, keys_given, value_of_first, Listed, here}
use goctopus.Settings.Launch.{value_of, make_config, launch, serves}
use goctopus.Settings.{
  Environment, env_flag, flag_table, parse_texts, file_values, apply_config_file, Parsers,
  FileValue, Flag, Flags, sequence,
}
use goctopus.Topics.{has_wildcard}
use goctopus.Registry.Invariant.{register-IsRegistry, IsRegistry}
use goctopus.Registry.{register}
use goctopus.Message.{is_empty, Value, ok}
use goctopus.Lifecycle.{reconcile}
use goctopus.Storage.Memory.Laws.{memory, memory-IsStorage}
use goctopus.Storage.Memory.{MemoryStorage, queue_of, get_queue, get_keys}
use goctopus.Engine.{Goctopus}
use goctopus.Server.Soundness.{Reach-IsSound}
use goctopus.Server.{started, starts}
use goctopus.Tests.{alice, topic, all_topics, platform, queues, flush, config}
use goctopus.Prelude.{
  if◌then◌else◌, decide, ◌<ℤ◌, pos, Text, codes, Text-discrete, ℕ, zero, suc, ◌≤◌, ◌<◌, ◌≡◌, refl,
  ◌≢◌, true, false, Option, none, some, [], ◌∷◌, arith, ℕ_discrete, text_key, nat_key,
}

-- A server with a connection for `t` and every topic.
abbrev served_server : Goctopus MemoryStorage
served_server = register (topic ∷ all_topics ∷ []) false (started queues none none)

served_server-IsRegistry : IsRegistry served_server
served_server-IsRegistry =
    register-IsRegistry (topic ∷ all_topics ∷ []) false _
      (Reach-IsSound memory platform config (starts queues none none)).registry

lists_always : (s : MemoryStorage) → (memory.get_keys s).0 ≢ none
unfolding get_keys
lists_always s e = ground arith

topic_plain : has_wildcard topic ≡ false
unfolding has_wildcard
topic_plain = refl

answers_always : (k : Text) (s : MemoryStorage) → (memory.get_queue k s).0 ≢ none
unfolding get_queue
answers_always k s e = cc

-- The times at which the round looks are those of the sample flush.
reconcile-Delivered_example :
    AllSettled platform flush.clock
      (receivers memory queue_of memory-IsStorage platform topic served_server)
      (queue_of served_server.storage topic)
      (reconcile memory platform config (λ k. flush) served_server).clients
reconcile-Delivered_example =
    reconcile-Delivered memory queue_of memory-IsStorage platform config lists_always answers_always
      (λ k. flush) served_server topic served_server-IsRegistry topic_plain

-- Parsers that know one text each.
abbrev parsers : Parsers
parsers = record {
  parse_duration = λ s. if decide (Text-discrete s (codes "1m")) then some (pos 60) else none;
  parse_bool = λ s. some (decide (Text-discrete s (codes "true")));
  atoi = λ s. if is_empty s then (pos 0, false) else (pos 4, true);
  parse_int = λ s. none;
  parse_float = λ s. record { numerator = pos 0; denominator = 1 };
  set_bool = λ s b. decide (Text-discrete s (codes "true"));
}

abbrev environment : Environment
environment name = if decide (Text-discrete name (codes "WS_HOST")) then some alice else none

abbrev given : Map Text Text
given = (codes "port", codes "80") ∷ (codes "auth", alice) ∷ []

abbrev file : Map Text FileValue
file = (codes "allowed-origins", sequence (alice ∷ topic ∷ [])) ∷ []

abbrev host_flag : Flag
host_flag = env_flag (codes "host") (codes "WS_HOST") (codes "0.0.0.0")

host_flag-Listed : Listed host_flag flag_table
unfolding flag_table
host_flag-Listed = here

value_of_first_example :
    value_of
      (apply_config_file parsers
        (keys_given given)
        file
        (record { texts = parse_texts environment given flag_table; healthcheck = false }))
      (codes "host")
    ≡ first_source
        (lookup (codes "host") given)
        (lookup (codes "host") (file_values file))
        (environment (codes "WS_HOST"))
        (codes "0.0.0.0")
value_of_first_example =
    value_of_first parsers environment given file false host_flag host_flag-Listed

abbrev flags : Flags
flags = record {
  texts = (codes "auth", alice) ∷ (codes "workers", alice) ∷ [];
  healthcheck = false;
}

abbrev no_file : Text → Option (Map Text FileValue)
no_file path = none

launch-flags : launch parsers no_file [] flags ≡ ok (serves (make_config parsers flags (pos 4)))
unfolding launch lookup Text-discrete ℕ_discrete
launch-flags = refl

launch_positive_example :
    (0 < (make_config parsers flags (pos 4)).max_message_bytes)
    × (pos 0 <ℤ (make_config parsers flags (pos 4)).sweep_interval)
    × (pos 0 <ℤ (make_config parsers flags (pos 4)).ping_interval)
    × (pos 0 <ℤ (make_config parsers flags (pos 4)).read_timeout)
    × (pos 0 <ℤ (make_config parsers flags (pos 4)).write_timeout)
    × (is_empty (make_config parsers flags (pos 4)).auth_url ≡ false)
launch_positive_example =
    launch_positive parsers no_file [] flags (make_config parsers flags (pos 4)) launch-flags

-- A client that always receives one message before its connection is lost.
abbrev turns : ℕ → Turn
turns n = record {
  context_done = false;
  dials = true;
  reads = record { message = some (alice, Value.null); ack_writes = true } ∷ [];
  cancelled = false;
}

abbrev halves : ℕ → ℕ
halves zero = 0
halves (suc n) = n

halves_in_range : (m : ℕ) → 0 < m → halves m < m
halves_in_range zero h = absurd (omega arith)
halves_in_range (suc n) h = omega arith

run_ends_example :
    (r : Running) × (run 5 100 (pos 3) halves 4 turns new_subscriber ≡ some r)
    × (r.sessions ≤ 4)
    × AllBelow 100 r.delays
run_ends_example =
    run_ends 5 100 3 100 halves halves_in_range (omega arith) (omega arith) 4 turns new_subscriber
      (omega arith) (omega arith)
