-- ===== src/Grpckit/Examples.antt =====
-- Concrete calls through the interceptors of grpckit.
use servekit.Prelude.{ℕ, ◌≡◌, refl, none, some}
use servekit.Grpckit.Interceptors.{HandlerEnd, crashed, logging_interceptor, metrics_interceptor}

-- A handler that returns an error that is no status, and does not call the hook.
abbrev plain_failure : HandlerEnd ℕ
plain_failure = record {
  response = 0;
  error = some (record { code = none; text = 1 });
  hook_error = none;
}

-- It is counted as a success.
plain_failure_counted : (metrics_interceptor plain_failure).code ≡ 0
unfolding metrics_interceptor
plain_failure_counted = refl

-- And the log line of it crashes.
plain_failure_crashes : logging_interceptor plain_failure ≡ crashed
unfolding logging_interceptor
plain_failure_crashes = refl
