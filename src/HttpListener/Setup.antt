-- ===== src/HttpListener/Setup.antt =====
-- httpkit/http_listener.go: `NewListenerHTTP`, with the routes that it puts on the router. Whether
-- chi can mount a pattern beside those that are there, without a panic, is a parameter.
use servekit.Prelude.{
  ℕ, Bool, true, false, not, ◌&&◌, Option, none, some, List, [], ◌∷◌, ◌++◌, is_empty, if◌then◌else◌,
  Bytes, map,
}
use servekit.GoText.{ascii}
use servekit.GoText.Trim.{has_prefix}
use servekit.HttpListener.Config.{
  TimeoutsConfig, HealthReport, report_none, report_json, report_html, HealthChecker, Logger,
  ListenerOption, ListenerConfig, apply_options_http,
}

pub data Handler : Type 0 where
  health_plain : Handler
  health_json : Handler
  health_html : Handler
  prometheus : Handler
  profiler : Handler

pub data Method : Type 0 where
  get : Method
  head : Method
  any_method : Method

-- A route with its own middlewares and handlers.
pub record Route : Type 0 where
  pub pattern : Bytes
  -- LoggingMiddleware, and not NoAccessLogMiddleware
  pub logged : Bool
  -- MetricsMiddleware
  pub measured : Bool
  pub handlers : List (Method × Handler)

pub record Listener : Type 0 where
  pub addr : Bytes
  pub timeouts : TimeoutsConfig
  pub enable_tls : Bool
  pub cert : Bytes
  pub key : Bytes
  pub health : Option HealthChecker
  pub logger : Option Logger
  pub middlewares : List ℕ
  pub routes : List Route

pub data TlsError : Type 0 where
  cert_path_required : TlsError
  private_key_path_required : TlsError

pub data RouteError : Type 0 where
  empty_route : RouteError
  no_slash : Bytes → RouteError

pub data SetupError : Type 0 where
  tls_error : TlsError → SetupError
  health_error : RouteError → SetupError
  metrics_error : RouteError → SetupError
  profiler_error : RouteError → SetupError

-- A listener, an error, or a panic of the router.
pub data Made : Type 0 where
  made : Listener → Made
  failed : SetupError → Made
  panicked : Bytes → Made

unfoldable pub and_then : Made → (Listener → Made) → Made
and_then (made l) f = f l
and_then (failed e) f = failed e
and_then (panicked s) f = panicked s

-- `configureTLS`, for cfg.cert and cfg.key.
unfoldable pub configure_tls : Bytes → Bytes → Listener → Made
configure_tls cert key l =
    if is_empty cert
    then failed (tls_error cert_path_required)
    else if is_empty key
    then failed (tls_error private_key_path_required)
    else made (record l { enable_tls = true; cert = cert; key = key })

unfoldable pub tls_or_not : Bytes → Bytes → Listener → Made
unfolding configure_tls
tls_or_not cert key l =
    let configured = configure_tls cert key l in
    if is_empty cert && is_empty key then made l else configured

unfoldable pub check_route : Bytes → Option RouteError
unfolding has_prefix
check_route route =
    if is_empty route
    then some empty_route
    else if not (has_prefix route (ascii "/"))
    then some (no_slash route)
    else none

unfoldable pub health_handlers : HealthReport → List (Method × Handler)
health_handlers report_json = (get, health_json) ∷ (head, health_plain) ∷ []
health_handlers report_html = (get, health_html) ∷ (head, health_plain) ∷ []
health_handlers report_none = (get, health_plain) ∷ (head, health_plain) ∷ []

unfoldable pub set_health : Option HealthChecker → Listener → Listener
set_health none l = l
set_health (some h) l = record l { health = some h }

unfoldable pub health_route : ListenerConfig → Route
unfolding health_handlers
health_route cfg = record {
  pattern = cfg.health.route;
  logged = cfg.health.access_logs;
  measured = cfg.health.metrics_for_endpoint;
  handlers = health_handlers cfg.health.report;
}

unfoldable pub metrics_route : ListenerConfig → Route
metrics_route cfg = record {
  pattern = cfg.metrics.route;
  logged = cfg.metrics.access_logs;
  measured = cfg.metrics.metrics_for_endpoint;
  handlers = (get, prometheus) ∷ [];
}

unfoldable pub profiler_route : ListenerConfig → Route
profiler_route cfg = record {
  pattern = cfg.profiler.route;
  logged = cfg.profiler.access_logs;
  measured = false;
  handlers = (any_method, profiler) ∷ [];
}

-- The listener before TLS and the routes.
unfoldable pub plain_listener : Bytes → ListenerConfig → Listener
plain_listener addr cfg = record {
  addr = addr;
  timeouts = cfg.timeouts;
  enable_tls = false;
  cert = [];
  key = [];
  health = none;
  logger = cfg.logger;
  middlewares = [];
  routes = [];
}

-- l.router.Use(cfg.globalMiddlewares...)
unfoldable pub use_middlewares : ListenerConfig → Listener → Made
use_middlewares cfg l = made (record l { middlewares = l.middlewares ++ cfg.global_middlewares })

module _ (can_mount : List Bytes → Bytes → Bool) where
  -- l.router.Route
  unfoldable pub mount : Route → Listener → Made
  mount r l =
      if can_mount (map (λ (q : Route). q.pattern) l.routes) r.pattern
      then made (record l { routes = l.routes ++ (r ∷ []) })
      else panicked r.pattern

  unfoldable pub mount_checked :
      (RouteError → SetupError) → Option RouteError → Route → Listener → Made
  unfolding mount
  mount_checked wrap (some e) r l = failed (wrap e)
  mount_checked wrap none r l = mount r l

  unfoldable pub configure_health : ListenerConfig → Listener → Made
  unfolding mount_checked check_route set_health health_route
  configure_health cfg l =
      if not cfg.health.enable
      then made l
      else mount_checked health_error (check_route cfg.health.route) (health_route cfg)
          (set_health cfg.health.checker l)

  unfoldable pub configure_metrics : ListenerConfig → Listener → Made
  unfolding mount_checked check_route metrics_route
  configure_metrics cfg l =
      if not cfg.metrics.enable
      then made l
      else mount_checked metrics_error (check_route cfg.metrics.route) (metrics_route cfg) l

  unfoldable pub configure_profiler : ListenerConfig → Listener → Made
  unfolding mount_checked check_route profiler_route
  configure_profiler cfg l =
      if cfg.profiler.enable
      then mount_checked profiler_error (check_route cfg.profiler.route) (profiler_route cfg) l
      else made l

  unfoldable pub configure : ListenerConfig → Listener → Made
  unfolding and_then tls_or_not use_middlewares configure_health configure_metrics
      configure_profiler
  configure cfg l =
      and_then
        (and_then
          (and_then (and_then (tls_or_not cfg.cert cfg.key l) (use_middlewares cfg))
            (configure_health cfg))
          (configure_metrics cfg))
        (configure_profiler cfg)

  unfoldable pub new_listener_http : Bytes → List ListenerOption → Made
  unfolding configure plain_listener apply_options_http
  new_listener_http addr options =
      let cfg = apply_options_http options in configure cfg (plain_listener addr cfg)
