-- ===== src/Settings.antt =====
-- src/main.go: the flags, the environment and the configuration file, and the settings that they give.
-- `parseDurationOr` and `parseBool` of src/config.go.
pub mod Launch
pub mod Precedence
pub mod Splitting
pub mod Limits
use goctopus.Constants.{
  ws_workers, ws_verbose, ws_log_format, ws_host, ws_port, ws_msg_expire, ws_authorizer, ws_storage,
  ws_login, ws_password, ws_auth_url, ws_insecure_no_auth, ws_auth_timeout, ws_auth_cache_ttl,
  ws_sweep_interval, ws_ping_interval, ws_read_timeout, ws_write_timeout, ws_reconcile_interval,
  ws_history_size, ws_history_ttl, ws_redis_url, ws_redis_key_ttl, ws_tls_cert, ws_tls_key,
  ws_allowed_origins, ws_max_message_size, ws_compress, ws_config, ws_rate_limit, ws_rate_burst,
  ws_trust_proxy_headers, engine_default,
}
use goctopus.Message.{is_empty, text}
use goctopus.Auth.{trim_space}
use goctopus.Config.{Fraction}
use goctopus.Prelude.GoMap.{Map, lookup}
use goctopus.Prelude.{
  ◌==◌, if◌then◌else◌, pos_part, leb_ℤ, ℤ, pos, Text, codes, has, ℕ, ◌^◌, Bool, false, Option, none,
  some, List, [], ◌∷◌, ◌++◌, text_key,
}

-- What the program calls: strconv, and fmt.Sprint on the values of the YAML file. `atoi` also gives the
-- value that is left when it fails, and `parse_float` has the value alone.
pub record Parsers : Type 0 where
  pub parse_duration : Text → Option ℤ
  pub parse_bool : Text → Option Bool
  pub atoi : Text → ℤ × Bool
  pub parse_int : Text → Option ℤ
  pub parse_float : Text → Fraction
  -- `Set` of a flag of type bool
  pub set_bool : Text → Bool → Bool

-- A value of the YAML file, printed.
pub data FileValue : Type 0 where
  sequence : List Text → FileValue
  single : Text → FileValue

-- The environment, as os.LookupEnv reads it.
abbrev pub Environment : Type 0
Environment = Text → Option Text

unfoldable pub env_or : Environment → Text → Text → Text
env_or env name default_text = elim (env name) [ none ↦ default_text | some v ↦ v ]

-- A flag, its variable and its default; `bare_flag` is one with os.Getenv.
pub record Flag : Type 0 where
  pub name : Text
  pub variable : Text
  pub fallback : Text

abbrev pub env_flag : Text → Text → Text → Flag
env_flag name variable fallback = record { name = name; variable = variable; fallback = fallback }

abbrev pub bare_flag : Text → Text → Flag
bare_flag name variable = env_flag name variable []

unfoldable pub flag_table : List Flag
flag_table =
    env_flag (codes "host") ws_host (codes "0.0.0.0")
    ∷ env_flag (codes "port") ws_port (codes "7890")
    ∷ env_flag (codes "workers") ws_workers (codes "1024")
    ∷ env_flag (codes "expire") ws_msg_expire (codes "30m")
    ∷ bare_flag (codes "login") ws_login
    ∷ bare_flag (codes "password") ws_password
    ∷ bare_flag (codes "auth") ws_auth_url
    ∷ env_flag (codes "verbose") ws_verbose (codes "false")
    ∷ env_flag (codes "log-format") ws_log_format (codes "text")
    ∷ env_flag (codes "storage") ws_storage engine_default
    ∷ env_flag (codes "authorizer") ws_authorizer engine_default
    ∷ env_flag (codes "insecure-no-auth") ws_insecure_no_auth (codes "false")
    ∷ env_flag (codes "auth-timeout") ws_auth_timeout (codes "10s")
    ∷ env_flag (codes "auth-cache-ttl") ws_auth_cache_ttl (codes "0")
    ∷ env_flag (codes "sweep-interval") ws_sweep_interval (codes "1m")
    ∷ env_flag (codes "ping-interval") ws_ping_interval (codes "30s")
    ∷ env_flag (codes "read-timeout") ws_read_timeout (codes "70s")
    ∷ env_flag (codes "write-timeout") ws_write_timeout (codes "10s")
    ∷ env_flag (codes "reconcile-interval") ws_reconcile_interval (codes "0")
    ∷ env_flag (codes "history-size") ws_history_size (codes "0")
    ∷ env_flag (codes "history-ttl") ws_history_ttl (codes "1h")
    ∷ env_flag (codes "redis-url") ws_redis_url (codes "redis://localhost:6379/0")
    ∷ env_flag (codes "redis-key-ttl") ws_redis_key_ttl (codes "24h")
    ∷ bare_flag (codes "tls-cert") ws_tls_cert
    ∷ bare_flag (codes "tls-key") ws_tls_key
    ∷ bare_flag (codes "allowed-origins") ws_allowed_origins
    ∷ env_flag (codes "max-message-size") ws_max_message_size (codes "1048576")
    ∷ env_flag (codes "compress") ws_compress (codes "false")
    ∷ env_flag (codes "rate-limit") ws_rate_limit (codes "0")
    ∷ env_flag (codes "rate-burst") ws_rate_burst (codes "0")
    ∷ env_flag (codes "trust-proxy-headers") ws_trust_proxy_headers (codes "false")
    ∷ bare_flag (codes "config") ws_config
    ∷ []

-- The values of the flags of type string, and that of `healthcheck`.
pub record Flags : Type 0 where
  pub texts : Map Text Text
  pub healthcheck : Bool

-- The values that `flag.Parse` leaves; `given` has the flags of the command line.
unfoldable pub parse_texts : Environment → Map Text Text → List Flag → Map Text Text
unfolding env_or
parse_texts env given [] = []
parse_texts env given (f ∷ flags) =
    (f.name, elim (lookup f.name given) [ none ↦ env_or env f.variable f.fallback | some v ↦ v ])
    ∷ parse_texts env given flags

-- strings.Join(parts, ",")
unfoldable pub join_commas : List Text → Text
join_commas [] = []
join_commas (x ∷ []) = x
join_commas (x ∷ y ∷ parts) = x ++ b',' ∷ join_commas (y ∷ parts)

unfoldable pub file_text : FileValue → Text
unfolding join_commas
file_text (sequence parts) = join_commas parts
file_text (single v) = v

-- The end of `loadConfigFile`.
unfoldable pub file_values : Map Text FileValue → Map Text Text
unfolding file_text
file_values [] = []
file_values ((k, v) ∷ raw) = (k, file_text v) ∷ file_values raw

-- Its body: the value that a flag has then.
unfoldable pub chosen : List Text → Map Text Text → Text → Text → Text
chosen explicit file name v =
    if has name explicit then v else elim (lookup name file) [ none ↦ v | some w ↦ w ]

-- The loop of `applyConfigFile` over the flags; `explicit` has those of the command line.
unfoldable pub overlay : List Text → Map Text Text → Map Text Text → Map Text Text
unfolding chosen
overlay explicit file [] = []
overlay explicit file ((name, v) ∷ texts) =
    (name, chosen explicit file name v) ∷ overlay explicit file texts

unfoldable pub apply_config_file : Parsers → List Text → Map Text FileValue → Flags → Flags
unfolding overlay file_values
apply_config_file ps explicit raw flags =
    let file = file_values raw in
    record {
      texts = overlay explicit file flags.texts;
      healthcheck =
          if has (codes "healthcheck") explicit
          then flags.healthcheck
          else elim (lookup (codes "healthcheck") file) [
            | none ↦ flags.healthcheck
            | some v ↦ ps.set_bool v flags.healthcheck
          ];
    }

unfoldable pub parse_duration_or : Parsers → Text → ℤ → ℤ
parse_duration_or ps s default_value = elim (ps.parse_duration s) [
  | none ↦ default_value
  | some d ↦ if leb_ℤ d (pos 0) then default_value else d
]

unfoldable pub parse_bool : Parsers → Text → Bool
parse_bool ps s = elim (ps.parse_bool s) [ none ↦ false | some b ↦ b ]

-- strings.Split(s, ",")
unfoldable pub split_commas : Text → List Text
split_commas [] = [] ∷ []
split_commas (c ∷ s) =
    let rest = split_commas s in
    if c == b',' then [] ∷ rest else elim rest [ [] ↦ (c ∷ []) ∷ [] | x ∷ xs ↦ (c ∷ x) ∷ xs ]

-- The loop of `splitCSV`.
unfoldable pub trim_parts : List Text → List Text
unfolding trim_space
trim_parts [] = []
trim_parts (x ∷ parts) =
    let rest = trim_parts parts in
    let trimmed = trim_space x in if is_empty trimmed then rest else trimmed ∷ rest

unfoldable pub split_csv : Text → List Text
unfolding trim_parts split_commas
split_csv s = trim_parts (split_commas s)

-- `maxMsg`
unfoldable pub max_message : Parsers → Text → ℕ
max_message ps s = elim (ps.parse_int s) [
  | none ↦ 2 ^ 20
  | some n ↦ if leb_ℤ n (pos 0) then 2 ^ 20 else pos_part n
]

abbrev pub second : ℕ
second = 10 ^ 9
