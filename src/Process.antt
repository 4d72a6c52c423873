-- ===== src/Process.antt =====
-- src/main.go: the health check, and `main` from the start of the instance to its end. The HTTP
-- server is net/http's: of it stands here what its documentation says of the calls.
pub mod Ending
use goctopus.RateLimit.{RateLimiter}
use goctopus.History.{HistoryStore}
use goctopus.Server.{started, Step}
use goctopus.Engine.{Goctopus}
use goctopus.Config.{tls_enabled, Config}
use goctopus.Storage.{Storage}
use goctopus.Message.{Platform}
use goctopus.Lifecycle.{stop}
use goctopus.Constants.{route_healthz}
use goctopus.Prelude.{
  ◌==◌, if◌then◌else◌, Text, codes, ℕ, ◌*◌, ◌^◌, ◌≡◌, ◌≢◌, Bool, true, false, not, Option, none,
  some, ◌++◌, text_key, nat_key,
}
use goctopus.Prelude.{
  ◌==◌, if◌then◌else◌, Text, codes, ℕ, ◌*◌, ◌^◌, ◌≡◌, ◌≢◌, Bool, true, false, not, Option, none,
  some, ◌++◌,
}

-- The exit status of `runHealthcheck`; `fetch` is http.Client.Get, the status or none for an error.
unfoldable pub health_url : Text → Text
health_url port = codes "http://127.0.0.1:" ++ port ++ route_healthz

unfoldable pub run_healthcheck : (Text → Option ℕ) → Text → ℕ
unfolding health_url
run_healthcheck fetch port = elim (fetch (health_url port)) [
  | none ↦ 1
  | some status ↦ if not (status == 200) then 1 else 0
]

-- `http.Server`, its times in nanoseconds.
pub record HttpServer : Type 0 where
  pub addr : Text
  pub read_header_timeout : ℕ
  pub read_timeout : ℕ
  pub idle_timeout : ℕ

unfoldable pub http_server : Config → HttpServer
http_server cfg = record {
  addr = cfg.host ++ codes ":" ++ cfg.port;
  read_header_timeout = 10 * 10 ^ 9;
  read_timeout = 30 * 10 ^ 9;
  idle_timeout = 120 * 10 ^ 9;
}

-- `ListenAndServeTLS` with its files, or `ListenAndServe`.
pub data Listening : Type 0 where
  over_tls : Text → Text → Listening
  plain : Listening

unfoldable pub listening : Config → Listening
unfolding tls_enabled
listening cfg = if tls_enabled cfg then over_tls cfg.tls_cert cfg.tls_key else plain

-- What the call returns: http.ErrServerClosed, or another error.
pub data ServeError : Type 0 where
  server_closed other_error : ServeError

-- Where the main goroutine stands: in that call, in log.Fatal, at `<-idleClosed`, or returned.
pub data MainAt : Type 0 where
  serving fatal waiting returned_from : MainAt

-- Where the other one stands: at `<-sigs`, in `Shutdown`, at `app.Stop()`, at `close(idleClosed)`, or
-- done.
pub data SignalAt : Type 0 where
  awaiting shutting stopping closing_idle signalled : SignalAt

unfoldable pub after_serve : Option ServeError → MainAt
after_serve none = waiting
after_serve (some server_closed) = waiting
after_serve (some other_error) = fatal

-- `last` is what `app.Stop` found, once it ran.
pub record Process (S : Type 0) : Type 0 where
  pub main : MainAt
  pub signals : SignalAt
  pub app : Goctopus S
  pub last : Option (Goctopus S)

-- The call always returns an error, and http.ErrServerClosed only after `Shutdown`.
abbrev pub MayReturn : SignalAt → Option ServeError → Type 0
MayReturn at none = ⊥
MayReturn at (some server_closed) = at ≢ awaiting
MayReturn at (some other_error) = Unit

unfoldable pub is_live : MainAt → Bool
is_live serving = true
is_live waiting = true
is_live fatal = false
is_live returned_from = false

module _ {S : Type 0} (st : Storage S) (p : Platform) (cfg : Config) where
  -- A step of either goroutine, or of the instance, while the program runs.
  pub data Runs (s : Process S) : Process S → Type 0 where
    works :
        {g : Goctopus S}
        → is_live s.main ≡ true
        → Step st p cfg s.app g
        → Runs s (record s { app = g })
    interrupted :
        is_live s.main ≡ true → s.signals ≡ awaiting → Runs s (record s { signals = shutting })
    shut_down :
        is_live s.main ≡ true → s.signals ≡ shutting → Runs s (record s { signals = stopping })
    stops :
        is_live s.main ≡ true
        → s.signals ≡ stopping
        → Runs s (record s { signals = closing_idle; app = stop s.app; last = some s.app })
    closes_idle :
        is_live s.main ≡ true → s.signals ≡ closing_idle → Runs s (record s { signals = signalled })
    returns :
        (e : Option ServeError)
        → s.main ≡ serving
        → MayReturn s.signals e
        → Runs s (record s { main = after_serve e })
    leaves_main :
        s.main ≡ waiting → s.signals ≡ signalled → Runs s (record s { main = returned_from })

  abbrev pub launched : Goctopus S → Process S
  launched g = record { main = serving; signals = awaiting; app = g; last = none }

  pub data Lives : Process S → Type 0 where
    begins :
        (x : S) (history : Option HistoryStore) (limiter : Option RateLimiter)
        → Lives (launched (started x history limiter))
    goes_on : {s t : Process S} → Lives s → Runs s t → Lives t
