-- ===== src/HttpListener/Statuses.antt =====
-- The statuses that the health checks of httpkit/http_listener.go answer, and that their listener
-- has a checker.
use servekit.Prelude.{
  ℕ, ◌≡◌, refl, ap, ◌∙◌, Bool, true, false, Option, none, some, List, [], ◌∷◌, if◌then◌else◌, Bytes,
}
use servekit.HttpListener.Config.{
  nop_checker, default_logger, HealthConfig, HealthOption, health_checker, health_check_route,
  health_check_access_log, health_check_metrics, health_check_report_json, health_check_report_html,
  ListenerOption, with_tls, with_global_middlewares, with_http_server_timeouts, with_logger,
  with_health_check, with_metrics, with_profiler, ListenerConfig, apply_health, apply_option,
  apply_each, set_checker, set_logger, default_config, apply_options_http,
}
use servekit.HttpListener.Setup.{Listener, made, new_listener_http}
use servekit.HttpListener.Configured.{listener_of}
use servekit.HttpListener.Made.{new_listener_http_made_iff}
use servekit.HttpListener.Health.{
  Handled, handled, crashed, Request, health_check_handler, health_check_handler_json,
  health_check_handler_html, fresh,
}

-- The status that was sent.
unfoldable pub status_of : Handled → Option ℕ
status_of (crashed w) = none
status_of (handled w n) = elim w.sent [ none ↦ none | some s ↦ some s.0 ]

abbrev pub request_of : Bool → Option Bytes → Request
request_of healthy page = record { health = some healthy; has_hook = true; page = page }

-- With a health checker and a log hook, the plain health check answers 200 for a healthy service and
-- 503 for another; the JSON report answers 200 for both, and the HTML report does too if its page
-- is rendered, and else 500.
pub health_statuses :
    (healthy writable : Bool) (page : Option Bytes)
    → (status_of (health_check_handler (request_of healthy page) (fresh writable))
        ≡ some (if healthy then 200 else 503))
      × (status_of (health_check_handler_json (request_of healthy page) (fresh writable))
          ≡ some 200)
      × (status_of (health_check_handler_html (request_of healthy page) (fresh writable))
          ≡ elim page [ none ↦ some 500 | some p ↦ some 200 ])
unfolding status_of health_check_handler health_check_handler_json health_check_handler_html fresh
health_statuses true true none = (refl, refl, refl)
health_statuses true true (some p) = (refl, refl, refl)
health_statuses true false none = (refl, refl, refl)
health_statuses true false (some []) = (refl, refl, refl)
health_statuses true false (some (c ∷ p)) = (refl, refl, refl)
health_statuses false true none = (refl, refl, refl)
health_statuses false true (some p) = (refl, refl, refl)
health_statuses false false none = (refl, refl, refl)
health_statuses false false (some []) = (refl, refl, refl)
health_statuses false false (some (c ∷ p)) = (refl, refl, refl)

-- Something is there.
pub IsGiven : {A : Type 0} → Option A → Type 0
IsGiven {A} o = (a : A) × (o ≡ some a)

health_options-IsGiven :
    (options : List HealthOption) (c : HealthConfig)
    → IsGiven c.checker
    → IsGiven (apply_each apply_health options c).checker
unfolding apply_each apply_health set_checker IsGiven
health_options-IsGiven [] c h = h
health_options-IsGiven (health_checker none ∷ os) c h = health_options-IsGiven os c h
health_options-IsGiven (health_checker (some k) ∷ os) c h =
    health_options-IsGiven os (record c { checker = some k }) (k, refl)
health_options-IsGiven (health_check_route r ∷ os) c h =
    health_options-IsGiven os (record c { route = r }) h
health_options-IsGiven (health_check_access_log b ∷ os) c h =
    health_options-IsGiven os (record c { access_logs = b }) h
health_options-IsGiven (health_check_metrics b ∷ os) c h =
    health_options-IsGiven os (record c { metrics_for_endpoint = b }) h
health_options-IsGiven (health_check_report_json ∷ os) c h =
    health_options-IsGiven os (apply_health health_check_report_json c) h
health_options-IsGiven (health_check_report_html ∷ os) c h =
    health_options-IsGiven os (apply_health health_check_report_html c) h

IsReady : ListenerConfig → Type 0
IsReady c = IsGiven c.health.checker × IsGiven c.logger

option-IsReady : (o : ListenerOption) (c : ListenerConfig) → IsReady c → IsReady (apply_option o c)
unfolding apply_option IsReady set_logger IsGiven
option-IsReady (with_tls cert key) c h = h
option-IsReady (with_global_middlewares ms) c h = h
option-IsReady (with_http_server_timeouts os) c h = h
option-IsReady (with_logger none) c h = h
option-IsReady (with_logger (some l)) c h = (h.0, (l, refl))
option-IsReady (with_health_check os) c h =
    (health_options-IsGiven os (record c.health { enable = true }) h.0, h.1)
option-IsReady (with_metrics os) c h = h
option-IsReady (with_profiler cfg) c h = h

options-IsReady :
    (options : List ListenerOption) (c : ListenerConfig)
    → IsReady c
    → IsReady (apply_each apply_option options c)
unfolding apply_each
options-IsReady [] c h = h
options-IsReady (o ∷ os) c h = options-IsReady os (apply_option o c) (option-IsReady o c h)

-- A listener that NewListenerHTTP returns with the health check on has a logger and a health
-- checker, also when the options give nil ones: its handlers never call a nil checker.
new_listener-IsReady :
    (can_mount : List Bytes → Bytes → Bool) (addr : Bytes) (options : List ListenerOption)
    (l : Listener)
    → new_listener_http can_mount addr options ≡ made l
    → (apply_options_http options).health.enable ≡ true
    → IsGiven l.logger × IsGiven l.health
unfolding apply_options_http IsReady IsGiven listener_of default_config
new_listener-IsReady can_mount addr options l h e =
    let same = ((new_listener_http_made_iff can_mount addr options l).0 h).1 in
    let ready =
      options-IsReady options default_config ((nop_checker, refl), (default_logger, refl)) in
    (
      (ready.1.0, ap (λ (x : Listener). x.logger) same ∙ ready.1.1),
      (ready.0.0, ap (λ (x : Listener). x.health) same ∙ rw e ready.0.1),
    )
