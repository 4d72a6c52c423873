-- ===== src/Constants.antt =====
-- src/const.go: the names and literals on which the program decides.
use goctopus.Prelude.{Text, codes}

-- Environment variables
abbrev pub ws_workers : Text
ws_workers = codes "WS_WORKERS"

abbrev pub ws_verbose : Text
ws_verbose = codes "WS_VERBOSE"

abbrev pub ws_log_format : Text
ws_log_format = codes "WS_LOG_FORMAT"

abbrev pub ws_host : Text
ws_host = codes "WS_HOST"

abbrev pub ws_port : Text
ws_port = codes "WS_PORT"

abbrev pub ws_msg_expire : Text
ws_msg_expire = codes "WS_MSG_EXPIRE"

abbrev pub ws_authorizer : Text
ws_authorizer = codes "WS_AUTHORIZER"

abbrev pub ws_storage : Text
ws_storage = codes "WS_STORAGE"

abbrev pub ws_login : Text
ws_login = codes "WS_LOGIN"

abbrev pub ws_password : Text
ws_password = codes "WS_PASSWORD"

abbrev pub ws_auth_url : Text
ws_auth_url = codes "WS_AUTH_URL"

abbrev pub ws_insecure_no_auth : Text
ws_insecure_no_auth = codes "WS_INSECURE_NO_AUTH"

abbrev pub ws_auth_timeout : Text
ws_auth_timeout = codes "WS_AUTH_TIMEOUT"

abbrev pub ws_auth_cache_ttl : Text
ws_auth_cache_ttl = codes "WS_AUTH_CACHE_TTL"

abbrev pub ws_sweep_interval : Text
ws_sweep_interval = codes "WS_SWEEP_INTERVAL"

abbrev pub ws_ping_interval : Text
ws_ping_interval = codes "WS_PING_INTERVAL"

abbrev pub ws_read_timeout : Text
ws_read_timeout = codes "WS_READ_TIMEOUT"

abbrev pub ws_write_timeout : Text
ws_write_timeout = codes "WS_WRITE_TIMEOUT"

abbrev pub ws_reconcile_interval : Text
ws_reconcile_interval = codes "WS_RECONCILE_INTERVAL"

abbrev pub ws_history_size : Text
ws_history_size = codes "WS_HISTORY_SIZE"

abbrev pub ws_history_ttl : Text
ws_history_ttl = codes "WS_HISTORY_TTL"

abbrev pub ws_redis_url : Text
ws_redis_url = codes "WS_REDIS_URL"

abbrev pub ws_redis_key_ttl : Text
ws_redis_key_ttl = codes "WS_REDIS_KEY_TTL"

abbrev pub ws_tls_cert : Text
ws_tls_cert = codes "WS_TLS_CERT"

abbrev pub ws_tls_key : Text
ws_tls_key = codes "WS_TLS_KEY"

abbrev pub ws_allowed_origins : Text
ws_allowed_origins = codes "WS_ALLOWED_ORIGINS"

abbrev pub ws_max_message_size : Text
ws_max_message_size = codes "WS_MAX_MESSAGE_SIZE"

abbrev pub ws_compress : Text
ws_compress = codes "WS_COMPRESS"

abbrev pub ws_config : Text
ws_config = codes "WS_CONFIG"

abbrev pub ws_rate_limit : Text
ws_rate_limit = codes "WS_RATE_LIMIT"

abbrev pub ws_rate_burst : Text
ws_rate_burst = codes "WS_RATE_BURST"

abbrev pub ws_trust_proxy_headers : Text
ws_trust_proxy_headers = codes "WS_TRUST_PROXY_HEADERS"

-- Engines
abbrev pub engine_default : Text
engine_default = codes "default"

abbrev pub engine_memory : Text
engine_memory = codes "memory"

abbrev pub engine_redis : Text
engine_redis = codes "redis"

abbrev pub engine_dummy : Text
engine_dummy = codes "dummy"

abbrev pub engine_proxy : Text
engine_proxy = codes "proxy"

-- Query parameters
abbrev pub query_key : Text
query_key = codes "key"

abbrev pub query_id : Text
query_id = codes "id"

abbrev pub query_presence : Text
query_presence = codes "presence"

abbrev pub query_history : Text
query_history = codes "history"

-- Routes
abbrev pub route_root : Text
route_root = codes "/"

abbrev pub route_ws : Text
route_ws = codes "/ws"

abbrev pub route_ws_slash : Text
route_ws_slash = codes "/ws/"

abbrev pub route_healthz : Text
route_healthz = codes "/healthz"

abbrev pub route_readyz : Text
route_readyz = codes "/readyz"

abbrev pub route_metrics : Text
route_metrics = codes "/metrics"

abbrev pub route_version : Text
route_version = codes "/version"

-- Headers
abbrev pub header_origin : Text
header_origin = codes "Origin"
