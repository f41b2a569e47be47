-- ===== src/HttpListener/Config.antt =====
-- httpkit/http_listener.go: the options of the listener and the configuration that they make.
-- Loggers, health checkers and middlewares are known by a number; a nil one is `none`.
use servekit.Prelude.{
  ℕ, ◌*◌, Bool, true, false, Option, none, some, List, [], ◌∷◌, ◌++◌, is_empty, if◌then◌else◌, ℤ,
  pos, Bytes,
}
use servekit.GoText.{ascii}

-- time.Second
abbrev second : ℕ
second = 1000000000

pub record TimeoutsConfig : Type 0 where
  pub read_timeout : ℤ
  pub read_header_timeout : ℤ
  pub write_timeout : ℤ
  pub idle_timeout : ℤ

pub data HealthReport : Type 0 where
  report_none : HealthReport
  report_json : HealthReport
  report_html : HealthReport

pub data HealthChecker : Type 0 where
  nop_checker : HealthChecker
  other_checker : ℕ → HealthChecker

pub data Logger : Type 0 where
  default_logger : Logger
  other_logger : ℕ → Logger

pub record HealthConfig : Type 0 where
  pub enable : Bool
  pub access_logs : Bool
  pub metrics_for_endpoint : Bool
  pub route : Bytes
  pub checker : Option HealthChecker
  pub report : HealthReport

pub record MetricsConfig : Type 0 where
  pub enable : Bool
  pub access_logs : Bool
  pub metrics_for_endpoint : Bool
  pub route : Bytes

pub record PprofConfig : Type 0 where
  pub enable : Bool
  pub access_logs : Bool
  pub route : Bytes

pub record ListenerConfig : Type 0 where
  pub cert : Bytes
  pub key : Bytes
  pub logger : Option Logger
  pub timeouts : TimeoutsConfig
  pub global_middlewares : List ℕ
  pub health : HealthConfig
  pub metrics : MetricsConfig
  pub profiler : PprofConfig

pub data TimeoutOption : Type 0 where
  read_header_timeout : ℤ → TimeoutOption
  read_timeout : ℤ → TimeoutOption
  write_timeout : ℤ → TimeoutOption
  idle_timeout : ℤ → TimeoutOption

pub data HealthOption : Type 0 where
  health_checker : Option HealthChecker → HealthOption
  health_check_route : Bytes → HealthOption
  health_check_access_log : Bool → HealthOption
  health_check_metrics : Bool → HealthOption
  health_check_report_json : HealthOption
  health_check_report_html : HealthOption

pub data MetricsOption : Type 0 where
  metrics_route : Bytes → MetricsOption
  metrics_access_log : Bool → MetricsOption
  metrics_for_endpoint : Bool → MetricsOption

pub data ListenerOption : Type 0 where
  with_tls : Bytes → Bytes → ListenerOption
  with_global_middlewares : List ℕ → ListenerOption
  with_http_server_timeouts : List TimeoutOption → ListenerOption
  with_logger : Option Logger → ListenerOption
  with_health_check : List HealthOption → ListenerOption
  with_metrics : List MetricsOption → ListenerOption
  with_profiler : PprofConfig → ListenerOption

unfoldable pub apply_timeout : TimeoutOption → TimeoutsConfig → TimeoutsConfig
apply_timeout (read_header_timeout t) c = record c { read_header_timeout = t }
apply_timeout (read_timeout t) c = record c { read_timeout = t }
apply_timeout (write_timeout t) c = record c { write_timeout = t }
apply_timeout (idle_timeout t) c = record c { idle_timeout = t }

unfoldable pub set_checker : Option HealthChecker → HealthConfig → HealthConfig
set_checker none c = c
set_checker (some h) c = record c { checker = some h }

unfoldable pub apply_health : HealthOption → HealthConfig → HealthConfig
unfolding set_checker
apply_health (health_checker h) c = set_checker h c
apply_health (health_check_route route) c = record c { route = route }
apply_health (health_check_access_log b) c = record c { access_logs = b }
apply_health (health_check_metrics b) c = record c { metrics_for_endpoint = b }
apply_health health_check_report_json c = record c { report = report_json }
apply_health health_check_report_html c = record c { report = report_html }

unfoldable pub apply_metrics : MetricsOption → MetricsConfig → MetricsConfig
apply_metrics (metrics_route route) c = record c { route = route }
apply_metrics (metrics_access_log b) c = record c { access_logs = b }
apply_metrics (metrics_for_endpoint b) c = record c { metrics_for_endpoint = b }

-- Options in their order.
unfoldable pub apply_each {ℓ} : {O C : Type ℓ} → (O → C → C) → List O → C → C
apply_each apply [] c = c
apply_each apply (option ∷ options) c = apply_each apply options (apply option c)

unfoldable pub set_logger : Option Logger → ListenerConfig → ListenerConfig
set_logger none c = c
set_logger (some l) c = record c { logger = some l }

unfoldable pub apply_option : ListenerOption → ListenerConfig → ListenerConfig
unfolding apply_timeout apply_health apply_metrics apply_each set_logger
apply_option (with_tls cert key) c = record c { cert = cert; key = key }
apply_option (with_global_middlewares ms) c = record c {
  global_middlewares = c.global_middlewares ++ ms;
}
apply_option (with_http_server_timeouts options) c = record c {
  timeouts = apply_each apply_timeout options c.timeouts;
}
apply_option (with_logger l) c = set_logger l c
apply_option (with_health_check options) c = record c {
  health = apply_each apply_health options (record c.health { enable = true });
}
apply_option (with_metrics options) c = record c {
  metrics = apply_each apply_metrics options (record c.metrics { enable = true });
}
apply_option (with_profiler cfg) c = record c {
  profiler = record {
    enable = true;
    access_logs = cfg.access_logs;
    route = if is_empty cfg.route then c.profiler.route else cfg.route;
  };
}

unfoldable pub default_config : ListenerConfig
default_config = record {
  cert = [];
  key = [];
  logger = some default_logger;
  timeouts = record {
    read_timeout = pos (2 * second);
    read_header_timeout = pos (10 * second);
    write_timeout = pos (3 * second);
    idle_timeout = pos (10 * second);
  };
  global_middlewares = [];
  health = record {
    enable = false;
    access_logs = false;
    metrics_for_endpoint = false;
    route = ascii "/health";
    checker = some nop_checker;
    report = report_none;
  };
  metrics = record {
    enable = false;
    access_logs = false;
    metrics_for_endpoint = false;
    route = ascii "/metrics";
  };
  profiler = record { enable = false; access_logs = false; route = ascii "/debug" };
}

unfoldable pub apply_options_http : List ListenerOption → ListenerConfig
unfolding apply_each apply_option default_config
apply_options_http options = apply_each apply_option options default_config
