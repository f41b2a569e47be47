-- ===== src/Grpckit/Interceptors.antt =====
-- grpckit/interceptors.go: logging and metrics around a unary handler.
use servekit.Prelude.{ℕ, Option, none, some}

-- An error of a handler, by the code that status.FromError finds in it, if it is one of package
-- status.
pub record RpcError : Type 0 where
  pub code : Option ℕ
  pub text : ℕ

-- What a handler returned, and the error that it gave to the log hook, if it called it.
pub record HandlerEnd (R : Type 0) : Type 0 where
  pub response : R
  pub error : Option RpcError
  pub hook_error : Option ℕ

pub data LogLine : Type 0 where
  info_line : LogLine
  -- with the code, if there is one, and the error of the hook
  error_line : Option ℕ → ℕ → LogLine

-- The line and what is returned, or a call of a method of a nil error.
pub data Intercepted (R : Type 0) : Type 0 where
  passed : LogLine → R → Option RpcError → Intercepted R
  crashed : Intercepted R

unfoldable pub log_error : {R : Type 0} → R → RpcError → Option ℕ → Intercepted R
log_error r e none = crashed
log_error r e (some hook) = passed (error_line e.code hook) r (some e)

unfoldable pub logged_end : {R : Type 0} → R → Option RpcError → Option ℕ → Intercepted R
unfolding log_error
logged_end r none hook = passed info_line r none
logged_end r (some e) hook = log_error r e hook

-- LoggingInterceptor
unfoldable pub logging_interceptor : {R : Type 0} → HandlerEnd R → Intercepted R
unfolding logged_end
logging_interceptor h = logged_end h.response h.error h.hook_error

-- The code that MetricsInterceptor counts the call under.
unfoldable pub code_of : Option RpcError → ℕ
code_of none = 0
code_of (some e) = elim e.code [ none ↦ 0 | some c ↦ c ]

pub record Counted (R : Type 0) : Type 0 where
  pub code : ℕ
  pub response : R
  pub error : Option RpcError

-- MetricsInterceptor
unfoldable pub metrics_interceptor : {R : Type 0} → HandlerEnd R → Counted R
unfolding code_of
metrics_interceptor h = record { code = code_of h.error; response = h.response; error = h.error }
