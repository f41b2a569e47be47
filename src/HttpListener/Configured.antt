-- ===== src/HttpListener/Configured.antt =====
-- When `NewListenerHTTP` of httpkit/http_listener.go makes a listener, and which one.
use servekit.Prelude.{
  ◌≤◌, ◌≡◌, refl, sym, ap, ◌∙◌, ◌↔◌, Bool, true, false, not, none, List, [], ◌∷◌, ◌++◌, arith,
  is_empty, length, if◌then◌else◌, Bytes, Bool-cases, Option-cases, inl, inr, ◌⊎◌, map,
}
use servekit.GoText.Trim.{has_prefix}
use servekit.HttpListener.Config.{ListenerConfig}
use servekit.HttpListener.Setup.{
  Route, Listener, RouteError, SetupError, Made, made, failed, panicked, and_then, configure_tls,
  tls_or_not, check_route, mount, mount_checked, health_route, metrics_route, profiler_route,
}

-- A route starts with a slash.
pub IsRoute : Bytes → Type 0
IsRoute route = (rest : Bytes) × (route ≡ b'/' ∷ rest)

IsRoute-iff : (route : Bytes) → (check_route route ≡ none) ↔ IsRoute route
unfolding check_route has_prefix IsRoute
IsRoute-iff [] = (λ h. absurd cc, λ v. absurd cc)
IsRoute-iff (c ∷ rest) = (λ h. (rest, grind arith), λ v. grind arith)

pub append_nil : {A : Type 0} (xs : List A) → xs ++ [] ≡ xs
append_nil [] = refl
append_nil (x ∷ xs) = ap (λ ys. x ∷ ys) (append_nil xs)

pub and_then_made :
    (m : Made) (f : Listener → Made) (l : Listener)
    → and_then m f ≡ made l
    → (before : Listener) × (m ≡ made before) × (f before ≡ made l)
unfolding and_then
and_then_made (made before) f l h = (before, refl, h)
and_then_made (failed e) f l h = absurd cc
and_then_made (panicked s) f l h = absurd cc

-- Both paths of a certificate and its key, or none of them.
unfoldable pub IsTls : Bytes → Bytes → Type 0
IsTls cert key = ((cert ≡ []) × (key ≡ [])) ⊎ ((1 ≤ length cert) × (1 ≤ length key))

unfoldable pub after_tls : Bytes → Bytes → Listener → Listener
after_tls [] key l = l
after_tls (c ∷ cert) key l = record l { enable_tls = true; cert = c ∷ cert; key = key }

pub IsTls-of :
    (cert key : Bytes) (l m : Listener)
    → tls_or_not cert key l ≡ made m
    → IsTls cert key × (m ≡ after_tls cert key l)
unfolding tls_or_not configure_tls after_tls IsTls
IsTls-of [] [] l m h = (inl (refl, refl), cc)
IsTls-of [] (d ∷ key) l m h = absurd cc
IsTls-of (c ∷ cert) [] l m h = absurd cc
IsTls-of (c ∷ cert) (d ∷ key) l m h = (inr (omega arith, omega arith), cc)

pub tls_made :
    (cert key : Bytes) (l : Listener)
    → IsTls cert key
    → tls_or_not cert key l ≡ made (after_tls cert key l)
unfolding tls_or_not configure_tls after_tls IsTls
tls_made [] [] l v = refl
tls_made [] (d ∷ key) l v = absurd (grind arith)
tls_made (c ∷ cert) [] l v = absurd (grind arith)
tls_made (c ∷ cert) (d ∷ key) l v = refl

-- The route, if it is wanted.
unfoldable pub pick : Bool → Route → List Route
pick true r = r ∷ []
pick false r = []

unfoldable pub patterns_of : List Route → List Bytes
patterns_of routes = map (λ (q : Route). q.pattern) routes

unfoldable pub health_routes : ListenerConfig → List Route
unfolding pick
health_routes cfg = pick cfg.health.enable (health_route cfg)

unfoldable pub metrics_routes : ListenerConfig → List Route
unfolding pick
metrics_routes cfg = pick cfg.metrics.enable (metrics_route cfg)

unfoldable pub profiler_routes : ListenerConfig → List Route
unfolding pick
profiler_routes cfg = pick cfg.profiler.enable (profiler_route cfg)

-- The listener that a configuration describes.
unfoldable pub listener_of : Bytes → ListenerConfig → Listener
unfolding health_routes metrics_routes profiler_routes
listener_of addr cfg = record {
  addr = addr;
  timeouts = cfg.timeouts;
  enable_tls = not (is_empty cfg.cert);
  cert = cfg.cert;
  key = cfg.key;
  health = if cfg.health.enable then cfg.health.checker else none;
  logger = cfg.logger;
  middlewares = cfg.global_middlewares;
  routes = (health_routes cfg ++ metrics_routes cfg) ++ profiler_routes cfg;
}

unfoldable pub patterns : Listener → List Bytes
patterns l = map (λ (q : Route). q.pattern) l.routes

unfoldable pub with_route : Route → Listener → Listener
with_route r l = record l { routes = l.routes ++ (r ∷ []) }

unfoldable pub route_if : Bool → Route → Listener → Listener
route_if true r l = with_route r l
route_if false r l = l

module _ (can_mount : List Bytes → Bytes → Bool) where
  mount_of :
      (r : Route) (l m : Listener)
      → mount can_mount r l ≡ made m
      → (can_mount (patterns l) r.pattern ≡ true) × (m ≡ with_route r l)
  unfolding mount patterns with_route
  mount_of r l m h = elim (Bool-cases (can_mount (patterns l) r.pattern)) [
    | inl e ↦ (e, cc)
    | inr e ↦ absurd cc
  ]

  mounted_of :
      (wrap : RouteError → SetupError) (r : Route) (l m : Listener)
      → mount_checked can_mount wrap (check_route r.pattern) r l ≡ made m
      → IsRoute r.pattern × (can_mount (patterns l) r.pattern ≡ true) × (m ≡ with_route r l)
  unfolding mount_checked
  mounted_of wrap r l m h = elim (Option-cases (check_route r.pattern)) [
    | inl fine ↦
        let v = mount_of r l m (sym (ap (λ e. mount_checked can_mount wrap e r l) fine) ∙ h) in
        ((IsRoute-iff r.pattern).0 fine, v.0, v.1)
    | inr (e, bad) ↦
        let refused = sym (ap (λ e. mount_checked can_mount wrap e r l) bad) ∙ h in absurd cc
  ]

  mounts :
      (wrap : RouteError → SetupError) (r : Route) (l : Listener)
      → IsRoute r.pattern
      → can_mount (patterns l) r.pattern ≡ true
      → mount_checked can_mount wrap (check_route r.pattern) r l ≡ made (with_route r l)
  unfolding mount_checked mount patterns with_route
  mounts wrap r l v can = rw ((IsRoute-iff r.pattern).1 v) (rw can refl)

  -- A route that is wanted is a route, and can be mounted after those that are there.
  unfoldable pub IsMountable : Bool → Route → Listener → Type 0
  IsMountable wanted r l =
      wanted ≡ true → IsRoute r.pattern × (can_mount (patterns l) r.pattern ≡ true)

  unfoldable pub mount_if : Bool → (RouteError → SetupError) → Route → Listener → Made
  mount_if true wrap r l = mount_checked can_mount wrap (check_route r.pattern) r l
  mount_if false wrap r l = made l

  pub mount_if_of :
      (wanted : Bool) (wrap : RouteError → SetupError) (r : Route) (l m : Listener)
      → mount_if wanted wrap r l ≡ made m
      → IsMountable wanted r l × (m ≡ route_if wanted r l)
  unfolding mount_if IsMountable route_if
  mount_if_of true wrap r l m h = let v = mounted_of wrap r l m h in (λ _. (v.0, v.1), v.2)
  mount_if_of false wrap r l m h = (λ e. absurd cc, cc)

  pub mount_if_made :
      (wanted : Bool) (wrap : RouteError → SetupError) (r : Route) (l : Listener)
      → IsMountable wanted r l
      → mount_if wanted wrap r l ≡ made (route_if wanted r l)
  unfolding mount_if IsMountable route_if
  mount_if_made true wrap r l v = mounts wrap r l (v refl).0 (v refl).1
  mount_if_made false wrap r l v = refl

-- What a configuration needs: TLS paths together, and for each endpoint that is turned on a route
-- that starts with a slash and that the router can mount beside the ones before.
pub record IsConfigured (can_mount : List Bytes → Bytes → Bool) (cfg : ListenerConfig)
    : Type 0 where
  pub tls : IsTls cfg.cert cfg.key
  pub health :
      cfg.health.enable ≡ true → IsRoute cfg.health.route × (can_mount [] cfg.health.route ≡ true)
  pub metrics :
      cfg.metrics.enable ≡ true
      → IsRoute cfg.metrics.route
        × (can_mount (patterns_of (health_routes cfg)) cfg.metrics.route ≡ true)
  pub profiler :
      cfg.profiler.enable ≡ true
      → IsRoute cfg.profiler.route
        × (can_mount (patterns_of (health_routes cfg ++ metrics_routes cfg)) cfg.profiler.route
            ≡ true)
