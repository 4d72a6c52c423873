-- ===== src/Settings/Launch.antt =====
-- src/main.go: `main`, up to the start of the instance.
use goctopus.Request.{get_text}
use goctopus.Message.{◌>>=◌, is_empty, Outcome, ok, err}
use goctopus.Config.{Config}
use goctopus.Prelude.GoMap.{Map}
use goctopus.Settings.{
  apply_config_file, parse_duration_or, parse_bool, split_csv, max_message, second, Parsers,
  FileValue, Flags,
}
use goctopus.Prelude.{
  if◌then◌else◌, decide, leb_ℤ, ℤ, pos, Text, codes, Text-discrete, ◌*◌, Bool, not, Option, none,
  some, List, text_key,
}

-- What ends the program before it serves: the file does not load, no URL, no number of workers.
pub data LaunchError : Type 0 where
  config_file no_auth_url workers_not_found : LaunchError

-- The program probes a port, or serves.
pub data Launch : Type 0 where
  probes : Text → Launch
  serves : Config → Launch

-- The value behind the pointer of a flag.
unfoldable pub value_of : Flags → Text → Text
unfolding get_text
value_of flags name = get_text name flags.texts

-- The literal of type Config.
unfoldable pub make_config : Parsers → Flags → ℤ → Config
unfolding value_of parse_duration_or parse_bool split_csv max_message
make_config ps flags workers = record {
  host = value_of flags (codes "host");
  port = value_of flags (codes "port");
  workers = workers;
  default_expire = value_of flags (codes "expire");
  verbose = parse_bool ps (value_of flags (codes "verbose"));
  log_json = decide (Text-discrete (value_of flags (codes "log-format")) (codes "json"));
  login = value_of flags (codes "login");
  password = value_of flags (codes "password");
  insecure_no_auth = parse_bool ps (value_of flags (codes "insecure-no-auth"));
  storage_engine = value_of flags (codes "storage");
  authorizer_engine = value_of flags (codes "authorizer");
  auth_url = value_of flags (codes "auth");
  auth_timeout = parse_duration_or ps (value_of flags (codes "auth-timeout")) (pos (10 * second));
  auth_cache_ttl = parse_duration_or ps (value_of flags (codes "auth-cache-ttl")) (pos 0);
  redis_url = value_of flags (codes "redis-url");
  redis_key_ttl = parse_duration_or ps (value_of flags (codes "redis-key-ttl")) (pos 0);
  sweep_interval =
      parse_duration_or ps (value_of flags (codes "sweep-interval")) (pos (60 * second));
  ping_interval = parse_duration_or ps (value_of flags (codes "ping-interval")) (pos (30 * second));
  read_timeout = parse_duration_or ps (value_of flags (codes "read-timeout")) (pos (70 * second));
  write_timeout = parse_duration_or ps (value_of flags (codes "write-timeout")) (pos (10 * second));
  reconcile_interval = parse_duration_or ps (value_of flags (codes "reconcile-interval")) (pos 0);
  history_size = (ps.atoi (value_of flags (codes "history-size"))).0;
  history_ttl = parse_duration_or ps (value_of flags (codes "history-ttl")) (pos (3600 * second));
  tls_cert = value_of flags (codes "tls-cert");
  tls_key = value_of flags (codes "tls-key");
  allowed_origins = split_csv (value_of flags (codes "allowed-origins"));
  max_message_bytes = max_message ps (value_of flags (codes "max-message-size"));
  compression = parse_bool ps (value_of flags (codes "compress"));
  rate_limit = ps.parse_float (value_of flags (codes "rate-limit"));
  rate_burst = (ps.atoi (value_of flags (codes "rate-burst"))).0;
  trust_proxy_headers = parse_bool ps (value_of flags (codes "trust-proxy-headers"));
}

-- `explicit` has the flags of the command line; `load` reads and parses a file, `none` where that fails.
module _ (ps : Parsers) (load : Text → Option (Map Text FileValue)) where
  unfoldable pub load_config : List Text → Flags → Outcome LaunchError Flags
  unfolding value_of apply_config_file
  load_config explicit flags =
      let path = value_of flags (codes "config") in
      if is_empty path then ok flags else elim (load path) [
        | none ↦ err config_file
        | some raw ↦ ok (apply_config_file ps explicit raw flags)
      ]

  unfoldable pub configure : Flags → Outcome LaunchError Launch
  unfolding value_of make_config
  configure flags =
      let (workers, parses) = ps.atoi (value_of flags (codes "workers")) in
      if flags.healthcheck
      then ok (probes (value_of flags (codes "port")))
      else if is_empty (value_of flags (codes "auth"))
      then err no_auth_url
      else if not parses
      then err workers_not_found
      else ok (serves (make_config ps flags workers))

  unfoldable pub launch : List Text → Flags → Outcome LaunchError Launch
  unfolding load_config configure
  launch explicit flags = do loaded ← load_config explicit flags; configure loaded

-- The warning of `validateConfig`.
unfoldable pub warns : Config → Bool
warns cfg = leb_ℤ cfg.read_timeout cfg.ping_interval
