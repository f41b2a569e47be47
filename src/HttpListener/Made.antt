-- ===== src/HttpListener/Made.antt =====
-- `NewListenerHTTP` of httpkit/http_listener.go succeeds exactly on what it needs.
use servekit.Prelude.{◌≡◌, sym, ap, ◌∙◌, ◌↔◌, Bool, List, Bytes, subst}
use servekit.HttpListener.Config.{ListenerOption, ListenerConfig, apply_options_http}
use servekit.HttpListener.Setup.{
  Listener, Made, made, and_then, tls_or_not, configure_health, configure_metrics,
  configure_profiler, plain_listener, use_middlewares, configure, new_listener_http,
}
use servekit.HttpListener.Configured.{
  IsConfigured, IsMountable, IsTls-of, tls_made, and_then_made, patterns_of, listener_of, patterns,
}
use servekit.HttpListener.Stages.{
  with_middlewares, with_health, with_metrics, middlewares_eq, made_injective, HealthNeeds,
  MetricsNeeds, ProfilerNeeds, health_of, metrics_of, profiler_of, health_made, metrics_made,
  profiler_made,
}

module _ (can_mount : List Bytes → Bytes → Bool) (addr : Bytes) (cfg : ListenerConfig) where
  start : Made
  start = tls_or_not cfg.cert cfg.key (plain_listener addr cfg)

  configure_of :
      (l : Listener)
      → configure can_mount cfg (plain_listener addr cfg) ≡ made l
      → IsConfigured can_mount cfg × (l ≡ listener_of addr cfg)
  unfolding configure HealthNeeds MetricsNeeds ProfilerNeeds IsMountable with_health with_metrics
      listener_of patterns patterns_of start
  configure_of l h =
      let used = and_then start (use_middlewares cfg) in
      let healthy = and_then used (configure_health can_mount cfg) in
      let measured = and_then healthy (configure_metrics can_mount cfg) in
      let p = and_then_made measured (configure_profiler can_mount cfg) l h in
      let m = and_then_made healthy (configure_metrics can_mount cfg) p.0 p.1 in
      let c = and_then_made used (configure_health can_mount cfg) m.0 m.1 in
      let u = and_then_made start (use_middlewares cfg) c.0 c.1 in
      let tls = IsTls-of cfg.cert cfg.key (plain_listener addr cfg) u.0 u.1 in
      let c_eq : c.0 ≡ with_middlewares addr cfg =
        made_injective
          (sym u.2 ∙ (ap (use_middlewares cfg) tls.1 ∙ middlewares_eq addr cfg tls.0)) in
      let health =
        health_of can_mount addr cfg m.0
          (subst (λ x. configure_health can_mount cfg x ≡ made m.0) c_eq c.2) in
      let metrics =
        metrics_of can_mount addr cfg p.0
          (subst (λ x. configure_metrics can_mount cfg x ≡ made p.0) health.1 m.2) in
      let profiler =
        profiler_of can_mount addr cfg l
          (subst (λ x. configure_profiler can_mount cfg x ≡ made l) metrics.1 p.2) in
      (
        record { tls = tls.0; health = health.0; metrics = metrics.0; profiler = profiler.0 },
        profiler.1,
      )

  configure_made :
      IsConfigured can_mount cfg
      → configure can_mount cfg (plain_listener addr cfg) ≡ made (listener_of addr cfg)
  unfolding configure HealthNeeds MetricsNeeds ProfilerNeeds IsMountable with_health with_metrics
      listener_of patterns patterns_of start and_then
  configure_made v =
      let used : and_then start (use_middlewares cfg) ≡ made (with_middlewares addr cfg) =
        ap (λ m. and_then m (use_middlewares cfg))
          (tls_made cfg.cert cfg.key (plain_listener addr cfg) v.tls)
        ∙ middlewares_eq addr cfg v.tls in
      let healthy =
        ap (λ m. and_then m (configure_health can_mount cfg)) used
        ∙ health_made can_mount addr cfg v.health in
      let measured =
        ap (λ m. and_then m (configure_metrics can_mount cfg)) healthy
        ∙ metrics_made can_mount addr cfg v.metrics in
      ap (λ m. and_then m (configure_profiler can_mount cfg)) measured
      ∙ profiler_made can_mount addr cfg v.profiler

-- NewListenerHTTP returns a listener exactly if the certificate and the key are both given or both
-- not, and each endpoint that is turned on has a route that starts with a slash and that the router
-- can mount beside the endpoints before; it is the listener that the configuration describes.
pub new_listener_http_made_iff :
    (can_mount : List Bytes → Bytes → Bool) (addr : Bytes) (options : List ListenerOption)
    (l : Listener)
    → (new_listener_http can_mount addr options ≡ made l) ↔ (
        IsConfigured can_mount (apply_options_http options)
        × (l ≡ listener_of addr (apply_options_http options)))
unfolding new_listener_http
new_listener_http_made_iff can_mount addr options l =
    let cfg = apply_options_http options in
    (
      configure_of can_mount addr cfg l,
      λ v. configure_made can_mount addr cfg v.0 ∙ ap made (sym v.1),
    )
