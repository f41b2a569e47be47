-- ===== src/HttpClient/Options.antt =====
-- httpkit/http_client.go: the configuration of `NewClient`. Durations are in nanoseconds.
use servekit.Prelude.{ℕ, Bool, false, Option, none, some, List, [], ◌∷◌, ℤ, pos}
use servekit.Retry.Strategies.{Backoff}
use servekit.Retry
use servekit.Retry.{apply_options}
use servekit.HttpClient.{RoundTripper}

-- `net.Dialer`, by the fields that the options set.
pub record Dialer : Type 0 where
  pub timeout : ℤ
  pub keep_alive : ℤ

-- A custom dialer is known by a number.
pub record Config : Type 0 where
  pub custom_dialer : Option ℕ
  pub default_dialer : Dialer
  pub retry_backoff : Option Backoff
  pub retry_max_attempts : ℕ
  pub circuit_breaker : Bool
  pub disable_keep_alives : Bool
  pub tls_handshake_timeout : ℤ
  pub max_idle_conns : ℤ
  pub max_idle_conns_per_host : ℤ
  pub idle_conn_timeout : ℤ
  pub expect_continue_timeout : ℤ
  pub response_header_timeout : ℤ
  pub write_buffer_size : ℤ
  pub read_buffer_size : ℤ

abbrev pub ClientOption : Type 0
ClientOption = Config → Config

unfoldable pub with_tls_handshake_timeout : ℤ → ClientOption
with_tls_handshake_timeout timeout c = record c { tls_handshake_timeout = timeout }

unfoldable pub with_custom_dialer : Option ℕ → ClientOption
with_custom_dialer dialer c = record c { custom_dialer = dialer }

unfoldable pub with_dial_timeout : ℤ → ClientOption
with_dial_timeout timeout c =
    let d = c.default_dialer in
    record c { default_dialer = record { timeout = timeout; keep_alive = d.keep_alive } }

unfoldable pub with_keep_alive_timeout : ℤ → ClientOption
with_keep_alive_timeout timeout c =
    let d = c.default_dialer in
    record c { default_dialer = record { timeout = d.timeout; keep_alive = timeout } }

unfoldable pub with_keep_alive_disabled : Bool → ClientOption
with_keep_alive_disabled disabled c = record c { disable_keep_alives = disabled }

unfoldable pub with_max_idle_conns : ℤ → ClientOption
with_max_idle_conns maxn c = record c { max_idle_conns = maxn }

unfoldable pub with_max_idle_conns_per_host : ℤ → ClientOption
with_max_idle_conns_per_host maxn c = record c { max_idle_conns_per_host = maxn }

unfoldable pub with_response_header_timeout : ℤ → ClientOption
with_response_header_timeout timeout c = record c { response_header_timeout = timeout }

unfoldable pub with_write_buffer_size : ℤ → ClientOption
with_write_buffer_size size c = record c { write_buffer_size = size }

unfoldable pub with_read_buffer_size : ℤ → ClientOption
with_read_buffer_size size c = record c { read_buffer_size = size }

-- `WithRetries` starts from the zero Options, not from the defaults of `Do`.
unfoldable pub with_retries : List (Retry.Options → Retry.Options) → ClientOption
unfolding apply_options
with_retries options c =
    let o = apply_options options (record { max_retries = 0; backoff = none }) in
    record c { retry_backoff = o.backoff; retry_max_attempts = o.max_retries }

unfoldable pub with_circuit_breaker : Bool → ClientOption
with_circuit_breaker cb c = record c { circuit_breaker = cb }

unfoldable pub apply_client_options : List ClientOption → ClientOption
apply_client_options [] c = c
apply_client_options (option ∷ options) c = apply_client_options options (option c)

-- `per_host` is runtime.GOMAXPROCS(0) + 1.
unfoldable pub default_config : ℤ → Config
default_config per_host = record {
  custom_dialer = none;
  default_dialer = record { timeout = pos 30000000000; keep_alive = pos 30000000000 };
  retry_backoff = none;
  retry_max_attempts = 0;
  circuit_breaker = false;
  disable_keep_alives = false;
  tls_handshake_timeout = pos 5000000000;
  max_idle_conns = pos 100;
  max_idle_conns_per_host = per_host;
  idle_conn_timeout = pos 90000000000;
  expect_continue_timeout = pos 1000000000;
  response_header_timeout = pos 0;
  write_buffer_size = pos 0;
  read_buffer_size = pos 0;
}

-- The dialer that the transport gets.
pub data DialWith : Type 0 where
  dial_custom : ℕ → DialWith
  dial_default : Dialer → DialWith

unfoldable pub dial_with : Option ℕ → Dialer → DialWith
dial_with none d = dial_default d
dial_with (some n) d = dial_custom n

-- The fields of http.Transport; its proxy is always that of the environment.
pub record Transport : Type 0 where
  pub dial_context : DialWith
  pub tls_handshake_timeout : ℤ
  pub disable_keep_alives : Bool
  pub max_idle_conns : ℤ
  pub max_idle_conns_per_host : ℤ
  pub idle_conn_timeout : ℤ
  pub response_header_timeout : ℤ
  pub expect_continue_timeout : ℤ
  pub write_buffer_size : ℤ
  pub read_buffer_size : ℤ

unfoldable pub transport : Config → Transport
unfolding dial_with
transport c = record {
  dial_context = dial_with c.custom_dialer c.default_dialer;
  tls_handshake_timeout = c.tls_handshake_timeout;
  disable_keep_alives = c.disable_keep_alives;
  max_idle_conns = c.max_idle_conns;
  max_idle_conns_per_host = c.max_idle_conns_per_host;
  idle_conn_timeout = c.idle_conn_timeout;
  response_header_timeout = c.response_header_timeout;
  expect_continue_timeout = c.expect_continue_timeout;
  write_buffer_size = c.write_buffer_size;
  read_buffer_size = c.read_buffer_size;
}

-- `NewClient`, by the round tripper it makes, whose own client has the transport
-- `transport cfg`: the literal of the tripper gives no `maxAttempts`, which stays 0.
unfoldable pub new_client : ℤ → List ClientOption → RoundTripper
unfolding apply_client_options
new_client per_host options =
    let cfg = apply_client_options options (default_config per_host) in
    record { max_attempts = 0; backoff = cfg.retry_backoff; has_breaker = cfg.circuit_breaker }
