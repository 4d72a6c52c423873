-- ===== src/Health.antt =====
-- src/metrics.go: the gauges and the probes; src/version.go; and `ServeHTTP` of src/server.go. The
-- metrics endpoint itself is the Prometheus library's.
pub mod Gauges
use goctopus.Constants.{
  route_root, route_ws, route_ws_slash, route_healthz, route_readyz, route_metrics, route_version,
}
use goctopus.Connect.{handle_ws, Upgrade, Connection}
use goctopus.Api.{handle_http, Moment}
use goctopus.Config.{listed, Config}
use goctopus.Storage.{Storage}
use goctopus.Engine.{Goctopus}
use goctopus.Message.{marshal, Message, Platform, ok}
use goctopus.Request.{Request, Response, status, written}
use goctopus.Prelude.GoMap.{Map}
use goctopus.Prelude.{
  if◌then◌else◌, decide, length, sub_ℕ, ltb_ℤ, pos, Text, codes, Text-discrete, ℕ, ◌+◌, ◌*◌, ◌^◌,
  Bool, false, not, ◌||◌, Option, none, some, List, [], ◌∷◌, text_key,
}

-- The gauge `goctopus_connections`.
unfoldable pub connections : Map Text (List ℕ) → ℕ
connections [] = 0
connections ((key, c) ∷ conns) = length c + connections conns

-- `keysVal` and `keysAt`, which is `none` while it is zero.
pub record KeysGauge : Type 0 where
  pub value : ℕ
  pub at : Option ℕ

unfoldable pub is_fresh : ℕ → Option ℕ → Bool
is_fresh now none = false
is_fresh now (some at) = ltb_ℤ (sub_ℕ now at) (pos (10 * 10 ^ 9))

module _ {S : Type 0} (st : Storage S) where
  unfoldable pub count_keys : Option (List Text) → ℕ → ℕ
  count_keys none value = value
  count_keys (some keys) value = length keys

  -- The gauge `goctopus_keys`; `listed` is the time behind the listing.
  unfoldable pub read_keys : ℕ → ℕ → KeysGauge × Goctopus S → ℕ × KeysGauge × Goctopus S
  unfolding is_fresh count_keys
  read_keys now listed (gauge, g) =
      let (keys, s) = st.get_keys g.storage in
      let value = count_keys keys gauge.value in
      if is_fresh now gauge.at
      then (gauge.value, gauge, g)
      else (value, record { value = value; at = some listed }, record g { storage = s })

unfoldable pub handle_healthz : Response
handle_healthz = written (codes "ok")

-- Whether the storage and the authorizer are there; and of a storage that is a Pinger, whether it
-- answers.
unfoldable pub handle_readyz : Bool → Bool → Option Bool → Response
handle_readyz has_storage has_authorizer ping =
    if not has_storage || not has_authorizer then status 503 else elim ping [
      | none ↦ written (codes "ready")
      | some answers ↦ if answers then written (codes "ready") else status 503
    ]

-- The build information; `marshal` stands for the JSON encoder and `runtime` for runtime.Version().
unfoldable pub handle_version : (Map Text Text → Text) → Text → Text → Text → Response
handle_version marshal version commit runtime =
    written
      (marshal ((codes "version", version) ∷ (codes "commit", commit) ∷ (codes "go", runtime) ∷ []))

-- What the instance answers: the JSON API with the message that it took, a connection, or a page.
pub data Answer : Type 0 where
  replies : Response → Option Message → Answer
  connects : Connection → Answer
  shows : Response → Answer

-- What the pages need: the readiness, the metrics page and the version.
pub record Pages : Type 0 where
  pub ready : Bool × Bool × Option Bool
  pub metrics_page : Response
  pub version_page : Response

module _ {S : Type 0} (st : Storage S) (p : Platform) (cfg : Config) where
  unfoldable pub serve_http : Moment → Upgrade → Pages → Request → Goctopus S → Answer × Goctopus S
  unfolding handle_http handle_ws handle_healthz handle_readyz
  serve_http t u pages r g =
      let is : Text → Bool = λ path. decide (Text-discrete r.path path) in
      let (response, task, g1) = handle_http st p cfg t r g in
      let (connection, g2) = handle_ws st p cfg r u g in
      let (has_storage, has_authorizer, ping) = pages.ready in
      if is route_root
      then (replies response task, g1)
      else if is route_ws || is route_ws_slash
      then (connects connection, g2)
      else if is route_healthz
      then (shows handle_healthz, g)
      else if is route_readyz
      then (shows (handle_readyz has_storage has_authorizer ping), g)
      else if is route_metrics
      then (shows pages.metrics_page, g)
      else if is route_version
      then (shows pages.version_page, g)
      else (shows (status 404), g)
