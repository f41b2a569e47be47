-- ===== src/Respond.antt =====
-- httpkit/respond.go and grpckit/respond.go: how errors and values become responses.
pub mod Http
pub mod Grpc
pub mod Classes
mod Examples
use servekit.Prelude.{Bool, false, Option, none, some}
use servekit.Errors.{Error, Sentinel, is}

-- errors.Is(err, s) on an error that may be nil
unfoldable pub is_error : Option Error → Sentinel → Bool
is_error none s = false
is_error (some e) s = is e s
