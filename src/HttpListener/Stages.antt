-- ===== src/HttpListener/Stages.antt =====
-- The stages of `NewListenerHTTP` of httpkit/http_listener.go, one after the other.
use servekit.Prelude.{
  ◌≡◌, refl, sym, ap, ◌∙◌, Bool, true, false, not, Option, none, some, List, [], ◌∷◌, ◌++◌, arith,
  is_empty, if◌then◌else◌, Bytes, Bool-cases, inl, inr, subst,
}
use servekit.HttpListener.Config.{HealthChecker, ListenerConfig}
use servekit.HttpListener.Setup.{
  Route, Listener, made, set_health, health_route, configure_health, metrics_route,
  configure_metrics, profiler_route, configure_profiler, plain_listener, use_middlewares,
  health_error, metrics_error, profiler_error,
}
use servekit.HttpListener.Configured.{
  IsTls, IsMountable, IsRoute, after_tls, route_if, mount_if, mount_if_of, mount_if_made, pick,
  health_routes, metrics_routes, profiler_routes, listener_of, with_route, patterns, append_nil,
}

health_set : ListenerConfig → Listener → Listener
health_set cfg l = if cfg.health.enable then set_health cfg.health.checker l else l

-- The listeners between the stages.
unfoldable pub with_middlewares : Bytes → ListenerConfig → Listener
with_middlewares addr cfg = record (listener_of addr cfg) { health = none; routes = [] }

unfoldable pub with_health : Bytes → ListenerConfig → Listener
with_health addr cfg = record (listener_of addr cfg) { routes = health_routes cfg }

unfoldable pub with_metrics : Bytes → ListenerConfig → Listener
with_metrics addr cfg = record (listener_of addr cfg) {
  routes = health_routes cfg ++ metrics_routes cfg;
}

after_tls_eq :
    (cert key : Bytes) (l : Listener)
    → IsTls cert key
    → after_tls cert key (record l { enable_tls = false; cert = []; key = [] })
      ≡ record l { enable_tls = not (is_empty cert); cert = cert; key = key }
unfolding after_tls IsTls
after_tls_eq [] [] l v = refl
after_tls_eq [] (d ∷ key) l v = absurd (grind arith)
after_tls_eq (c ∷ cert) key l v = refl

pub middlewares_eq :
    (addr : Bytes) (cfg : ListenerConfig)
    → IsTls cfg.cert cfg.key
    → use_middlewares cfg (after_tls cfg.cert cfg.key (plain_listener addr cfg))
      ≡ made (with_middlewares addr cfg)
unfolding with_middlewares listener_of plain_listener use_middlewares
middlewares_eq addr cfg v =
    ap (use_middlewares cfg) (after_tls_eq cfg.cert cfg.key (plain_listener addr cfg) v)

health_stage :
    (b : Bool) (r : Route) (checker : Option HealthChecker) (l : Listener)
    → route_if b r (
        if b
        then set_health checker (record l { health = none; routes = [] })
        else record l { health = none; routes = [] })
      ≡ record l { health = if b then checker else none; routes = pick b r }
unfolding route_if with_route pick set_health
health_stage true r none l = refl
health_stage true r (some h) l = refl
health_stage false r checker l = refl

route_stage :
    (b : Bool) (r : Route) (rs : List Route) (l : Listener)
    → route_if b r (record l { routes = rs }) ≡ record l { routes = rs ++ pick b r }
unfolding route_if with_route pick
route_stage true r rs l = refl
route_stage false r rs l = ap (λ qs. record l { routes = qs }) (sym (append_nil rs))

patterns-set_health :
    (h : Option HealthChecker) (l : Listener) → patterns (set_health h l) ≡ patterns l
unfolding set_health patterns
patterns-set_health none l = refl
patterns-set_health (some h) l = refl

pub made_injective : {l m : Listener} → made l ≡ made m → l ≡ m
made_injective h = cc

module _ (can_mount : List Bytes → Bytes → Bool) (addr : Bytes) (cfg : ListenerConfig) where
  health_if :
      (l : Listener)
      → configure_health can_mount cfg l
        ≡ mount_if can_mount cfg.health.enable health_error (health_route cfg) (health_set cfg l)
  unfolding configure_health mount_if health_set health_route
  health_if l = elim (Bool-cases cfg.health.enable) [ inl e ↦ rw e refl | inr e ↦ rw e refl ]

  metrics_if :
      (l : Listener)
      → configure_metrics can_mount cfg l
        ≡ mount_if can_mount cfg.metrics.enable metrics_error (metrics_route cfg) l
  unfolding configure_metrics mount_if metrics_route
  metrics_if l = elim (Bool-cases cfg.metrics.enable) [ inl e ↦ rw e refl | inr e ↦ rw e refl ]

  profiler_if :
      (l : Listener)
      → configure_profiler can_mount cfg l
        ≡ mount_if can_mount cfg.profiler.enable profiler_error (profiler_route cfg) l
  unfolding configure_profiler mount_if profiler_route
  profiler_if l = elim (Bool-cases cfg.profiler.enable) [ inl e ↦ rw e refl | inr e ↦ rw e refl ]

  health_eq :
      route_if cfg.health.enable (health_route cfg) (health_set cfg (with_middlewares addr cfg))
      ≡ with_health addr cfg
  unfolding health_set with_middlewares with_health listener_of health_routes
  health_eq =
      health_stage cfg.health.enable (health_route cfg) cfg.health.checker (listener_of addr cfg)

  metrics_eq :
      route_if cfg.metrics.enable (metrics_route cfg) (with_health addr cfg) ≡ with_metrics addr cfg
  unfolding with_health with_metrics metrics_routes
  metrics_eq =
      route_stage cfg.metrics.enable (metrics_route cfg) (health_routes cfg) (listener_of addr cfg)

  profiler_eq :
      route_if cfg.profiler.enable (profiler_route cfg) (with_metrics addr cfg)
      ≡ listener_of addr cfg
  unfolding with_metrics profiler_routes listener_of
  profiler_eq =
      route_stage cfg.profiler.enable (profiler_route cfg) (health_routes cfg ++ metrics_routes cfg)
        (listener_of addr cfg)

  -- What each stage needs of its route, after the routes before it.
  unfoldable pub HealthNeeds : Type 0
  HealthNeeds =
      cfg.health.enable ≡ true → IsRoute cfg.health.route × (can_mount [] cfg.health.route ≡ true)

  patterns-health_set :
      cfg.health.enable ≡ true → patterns (health_set cfg (with_middlewares addr cfg)) ≡ []
  unfolding health_set with_middlewares patterns listener_of
  patterns-health_set e = rw e (patterns-set_health cfg.health.checker (with_middlewares addr cfg))

  pub health_of :
      (m : Listener)
      → configure_health can_mount cfg (with_middlewares addr cfg) ≡ made m
      → HealthNeeds × (m ≡ with_health addr cfg)
  unfolding HealthNeeds IsMountable health_route
  health_of m h =
      let l = with_middlewares addr cfg in
      let v =
        mount_if_of can_mount cfg.health.enable health_error (health_route cfg) (health_set cfg l) m
          (sym (health_if l) ∙ h) in
      (
        λ e. (
          (v.0 e).0,
          subst (λ ps. can_mount ps cfg.health.route ≡ true) (patterns-health_set e) (v.0 e).1,
        ),
        v.1 ∙ health_eq,
      )

  pub health_made :
      HealthNeeds
      → configure_health can_mount cfg (with_middlewares addr cfg) ≡ made (with_health addr cfg)
  unfolding HealthNeeds IsMountable health_route
  health_made v =
      let l = with_middlewares addr cfg in
      let can : IsMountable can_mount cfg.health.enable (health_route cfg) (health_set cfg l) = λ e.
        (
          (v e).0,
          subst (λ ps. can_mount ps cfg.health.route ≡ true) (sym (patterns-health_set e)) (v e).1,
        ) in
      health_if l
      ∙ (mount_if_made can_mount cfg.health.enable health_error (health_route cfg)
            (health_set cfg l) can
          ∙ ap made health_eq)

  unfoldable pub MetricsNeeds : Type 0
  MetricsNeeds = IsMountable can_mount cfg.metrics.enable (metrics_route cfg) (with_health addr cfg)

  pub metrics_of :
      (m : Listener)
      → configure_metrics can_mount cfg (with_health addr cfg) ≡ made m
      → MetricsNeeds × (m ≡ with_metrics addr cfg)
  unfolding MetricsNeeds
  metrics_of m h =
      let l = with_health addr cfg in
      let v =
        mount_if_of can_mount cfg.metrics.enable metrics_error (metrics_route cfg) l m
          (sym (metrics_if l) ∙ h) in
      (v.0, v.1 ∙ metrics_eq)

  pub metrics_made :
      MetricsNeeds
      → configure_metrics can_mount cfg (with_health addr cfg) ≡ made (with_metrics addr cfg)
  unfolding MetricsNeeds
  metrics_made v =
      let l = with_health addr cfg in
      metrics_if l
      ∙ (mount_if_made can_mount cfg.metrics.enable metrics_error (metrics_route cfg) l v
          ∙ ap made metrics_eq)

  unfoldable pub ProfilerNeeds : Type 0
  ProfilerNeeds =
      IsMountable can_mount cfg.profiler.enable (profiler_route cfg) (with_metrics addr cfg)

  pub profiler_of :
      (m : Listener)
      → configure_profiler can_mount cfg (with_metrics addr cfg) ≡ made m
      → ProfilerNeeds × (m ≡ listener_of addr cfg)
  unfolding ProfilerNeeds
  profiler_of m h =
      let l = with_metrics addr cfg in
      let v =
        mount_if_of can_mount cfg.profiler.enable profiler_error (profiler_route cfg) l m
          (sym (profiler_if l) ∙ h) in
      (v.0, v.1 ∙ profiler_eq)

  pub profiler_made :
      ProfilerNeeds
      → configure_profiler can_mount cfg (with_metrics addr cfg) ≡ made (listener_of addr cfg)
  unfolding ProfilerNeeds
  profiler_made v =
      let l = with_metrics addr cfg in
      profiler_if l
      ∙ (mount_if_made can_mount cfg.profiler.enable profiler_error (profiler_route cfg) l v
          ∙ ap made profiler_eq)
