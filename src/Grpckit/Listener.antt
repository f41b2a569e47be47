-- ===== src/Grpckit/Listener.antt =====
-- grpckit/grpc_listener.go: the options, `NewListenerGRPC`, and what the two functions that `Serve`
-- runs in the error group return. Interceptors and loggers are known by a number; net.Listen and
-- the gRPC server are parameters.
use servekit.Prelude.{
  ℕ, Bool, true, false, Option, none, some, List, [], ◌∷◌, ◌++◌, if◌then◌else◌, Bytes,
}

pub data Logger : Type 0 where
  default_logger : Logger
  other_logger : ℕ → Logger

pub record GrpcConfig : Type 0 where
  pub logger : Logger
  pub unary_interceptors : List ℕ
  pub stream_interceptors : List ℕ

pub data GrpcOption : Type 0 where
  -- a nil logger is `none`
  with_logger : Option Logger → GrpcOption
  with_unary_interceptors : List ℕ → GrpcOption
  with_stream_interceptors : List ℕ → GrpcOption

unfoldable pub apply_grpc_option : GrpcOption → GrpcConfig → GrpcConfig
apply_grpc_option (with_logger none) c = c
apply_grpc_option (with_logger (some l)) c = record c { logger = l }
apply_grpc_option (with_unary_interceptors is) c = record c {
  unary_interceptors = c.unary_interceptors ++ is;
}
apply_grpc_option (with_stream_interceptors is) c = record c {
  stream_interceptors = c.stream_interceptors ++ is;
}

unfoldable pub apply_grpc_options_from : List GrpcOption → GrpcConfig → GrpcConfig
unfolding apply_grpc_option
apply_grpc_options_from [] c = c
apply_grpc_options_from (option ∷ options) c =
    apply_grpc_options_from options (apply_grpc_option option c)

unfoldable pub apply_options_grpc : List GrpcOption → GrpcConfig
unfolding apply_grpc_options_from
apply_options_grpc options =
    apply_grpc_options_from options
      (record { logger = default_logger; unary_interceptors = []; stream_interceptors = [] })

-- The address it listens on, and the interceptors that its server chains.
pub record GrpcListener : Type 0 where
  pub addr : Bytes
  pub logger : Logger
  pub unary : List ℕ
  pub stream : List ℕ

-- NewListenerGRPC; `listens` tells whether net.Listen succeeds.
unfoldable pub new_listener_grpc : (Bytes → Bool) → Bytes → List GrpcOption → Option GrpcListener
unfolding apply_options_grpc
new_listener_grpc listens addr options =
    let cfg = apply_options_grpc options in
    if listens addr
    then some (record {
      addr = addr;
      logger = cfg.logger;
      unary = cfg.unary_interceptors;
      stream = cfg.stream_interceptors;
    })
    else none

-- What grpc.Server.Serve returns.
pub data GrpcEnd : Type 0 where
  returned_nil : GrpcEnd
  server_stopped : GrpcEnd
  other_end : ℕ → GrpcEnd

pub data GrpcServeError : Type 0 where
  grpc_failed : ℕ → GrpcServeError
  -- ErrGracefullyShutdown with the error of the context
  forced_stop : GrpcServeError

unfoldable pub grpc_serve_result : GrpcEnd → Option GrpcServeError
grpc_serve_result returned_nil = none
grpc_serve_result server_stopped = none
grpc_serve_result (other_end e) = some (grpc_failed e)

-- The case that the select of `handleShutdown` takes: GracefulStop returned, or time was up.
pub data Selected : Type 0 where
  graceful : Selected
  timed_out : Selected

-- Whether Stop was called, and what is returned.
pub record GrpcStop : Type 0 where
  pub stopped : Bool
  pub error : Option GrpcServeError

unfoldable pub grpc_handle_shutdown : Selected → GrpcStop
grpc_handle_shutdown graceful = record { stopped = false; error = none }
grpc_handle_shutdown timed_out = record { stopped = true; error = some forced_stop }
