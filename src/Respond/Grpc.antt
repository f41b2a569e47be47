-- ===== src/Respond/Grpc.antt =====
-- grpckit/respond.go: the responder for errors.
use servekit.Prelude.{ℕ, Bool, false, Option, List, [], ◌∷◌, if◌then◌else◌}
use servekit.Errors.{
  Error, already_exists, not_found, unauthenticated, unauthorized, invalid_argument, unavailable,
}
use servekit.Respond.{is_error}

-- The codes of google.golang.org/grpc that the package names, and all others by their number.
pub data Code : Type 0 where
  code_already_exists : Code
  code_not_found : Code
  code_unauthenticated : Code
  code_permission_denied : Code
  code_invalid_argument : Code
  code_unavailable : Code
  code_internal : Code
  code_unknown : Code
  other_code : ℕ → Code

pub record GrpcOptions : Type 0 where
  pub status_code : Code
  pub report_error : Bool

unfoldable pub with_code : Code → GrpcOptions → GrpcOptions
with_code code o = record o { status_code = code }

unfoldable pub apply_grpc_options : List (GrpcOptions → GrpcOptions) → GrpcOptions → GrpcOptions
apply_grpc_options [] o = o
apply_grpc_options (option ∷ options) o = apply_grpc_options options (option o)

unfoldable pub new_grpc_options : List (GrpcOptions → GrpcOptions) → GrpcOptions
unfolding apply_grpc_options
new_grpc_options options =
    apply_grpc_options options (record { status_code = code_unknown; report_error = false })

-- The switch of `errGRPCResponder`.
unfoldable pub error_code : Option Error → Code
unfolding is_error
error_code err =
    if is_error err already_exists
    then code_already_exists
    else if is_error err not_found
    then code_not_found
    else if is_error err unauthenticated
    then code_unauthenticated
    else if is_error err unauthorized
    then code_permission_denied
    else if is_error err invalid_argument
    then code_invalid_argument
    else if is_error err unavailable
    then code_unavailable
    else code_internal

-- The code of the status that is returned, with the name of the code as its message, and what the
-- log hook and errkit.Report were given.
pub record GrpcResponse : Type 0 where
  pub code : Code
  pub logged : List (Option Error)
  pub reported : List (Option Error)

unfoldable pub error_grpc : Bool → Option Error → List (GrpcOptions → GrpcOptions) → GrpcResponse
unfolding error_code new_grpc_options
error_grpc has_hook err options =
    let o = new_grpc_options options in
    record {
      code = error_code err;
      logged = if has_hook then err ∷ [] else [];
      reported = if o.report_error then err ∷ [] else [];
    }
