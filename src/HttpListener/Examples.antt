-- ===== src/HttpListener/Examples.antt =====
-- Concrete listeners, health checks and runs of httpkit/http_listener.go.
use servekit.Prelude.{
  ℕ, ◌≡◌, refl, ◌↔◌, Bool, true, false, Option, none, some, List, [], ◌∷◌, if◌then◌else◌, not, any,
  bytes_eq, Bytes,
}
use servekit.GoText.{ascii}
use servekit.ErrGroup.{ErrGroup}
use servekit.ErrGroup.Example.{first_error_group}
use servekit.HttpListener.Config.{
  ListenerOption, with_tls, with_logger, with_health_check, with_metrics, health_checker,
  health_check_report_json, metrics_route, apply_options_http,
}
use servekit.HttpListener.Setup.{made, failed, no_slash, metrics_error, new_listener_http}
use servekit.HttpListener.Configured.{IsConfigured, listener_of}
use servekit.HttpListener.Made.{new_listener_http_made_iff}
use servekit.HttpListener.Health.{
  health_check_handler, health_check_handler_json, health_check_handler_html, fresh,
}
use servekit.HttpListener.Statuses.{status_of, request_of, health_statuses}
use servekit.HttpListener.Serve.{
  ServeError, server_closed, stopping, State, started, is_done, serve_returns, shutdown_returns,
  cancel, step, broke, close, begin, end, Run, here, later, served_result,
}
use servekit.HttpListener.Runs.{IsReturned, serve_none_iff}

-- A router that mounts every pattern once.
abbrev once : List Bytes → Bytes → Bool
once ps p = not (any (bytes_eq p) ps)

abbrev options : List ListenerOption
options =
    with_tls (ascii "c.pem") (ascii "k.pem")
    ∷ with_logger none
    ∷ with_health_check (health_checker none ∷ health_check_report_json ∷ [])
    ∷ with_metrics []
    ∷ []

abbrev address : Bytes
address = ascii ":80"

refuses_metrics :
    new_listener_http once address (with_metrics (metrics_route (ascii "m") ∷ []) ∷ [])
    ≡ failed (metrics_error (no_slash (ascii "m")))
unfolding new_listener_http
refuses_metrics = refl

makes_listener :
    new_listener_http once address options ≡ made (listener_of address (apply_options_http options))
unfolding new_listener_http listener_of
makes_listener = refl

new_listener_http_made_iff_example :
    (new_listener_http once address options
      ≡ made (listener_of address (apply_options_http options)))
    ↔ (IsConfigured once (apply_options_http options)
        × (listener_of address (apply_options_http options)
            ≡ listener_of address (apply_options_http options)))
new_listener_http_made_iff_example =
    new_listener_http_made_iff once address options
      (listener_of address (apply_options_http options))

health_enabled : (apply_options_http options).health.enable ≡ true
unfolding apply_options_http
health_enabled = refl

health_statuses_example :
    (status_of (health_check_handler (request_of false (some (ascii "down"))) (fresh true))
      ≡ some (if false then 200 else 503))
    × (status_of (health_check_handler_json (request_of false (some (ascii "down"))) (fresh true))
        ≡ some 200)
    × (status_of (health_check_handler_html (request_of false (some (ascii "down"))) (fresh true))
        ≡ some 200)
health_statuses_example = health_statuses false true (some (ascii "down"))

abbrev group : ErrGroup ServeError
unfolding first_error_group
group = first_error_group ServeError

abbrev canceled_state : State group.Group
unfolding started group
canceled_state = record (started group) { parent_canceled = true }

abbrev stopping_state : State group.Group
unfolding canceled_state group
stopping_state = record canceled_state { phase = stopping }

abbrev stopped_state : State group.Group
unfolding stopping_state group
stopped_state = shutdown_returns group none none stopping_state

abbrev returned_state : State group.Group
unfolding stopped_state group
returned_state = serve_returns group server_closed stopped_state

returned-Run : Run group (started group) returned_state
unfolding returned_state stopped_state stopping_state canceled_state started group shutdown_returns
    is_done
returned-Run =
    later (started group) stopped_state returned_state
      (later (started group) stopping_state stopped_state
        (later (started group) canceled_state stopping_state
          (later (started group) (started group) canceled_state (here (started group))
            (cancel (started group)))
          (step canceled_state stopping_state (begin canceled_state refl refl)))
        (step stopping_state stopped_state (end stopping_state none none refl)))
      (step stopped_state returned_state (close stopped_state refl (λ w. absurd cc)))

-- The server fails at once, and the caller cancels nothing.
abbrev broken_state : State group.Group
unfolding started group
broken_state = serve_returns group (broke 7) (started group)

IsReturned-both : IsReturned group returned_state server_closed none
unfolding IsReturned returned_state stopped_state serve_returns shutdown_returns
IsReturned-both = (refl, refl)

abbrev no_error : Option ℕ
no_error = none

serve_none_iff_example : (served_result group returned_state ≡ none) ↔ (
    (returned_state.parent_canceled ≡ true) × (server_closed ≡ server_closed) × (no_error ≡ none))
serve_none_iff_example =
    serve_none_iff group returned_state server_closed none returned-Run IsReturned-both
