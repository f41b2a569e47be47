-- ===== src/Grpckit/Chains.antt =====
-- grpckit/grpc_listener.go: the unary interceptors that the options add, in the order of the options.
use servekit.Prelude.{ℕ, ◌≡◌, refl, sym, ap, ◌∙◌, none, some, List, [], ◌∷◌, ◌++◌}
use servekit.Grpckit.Listener.{
  GrpcConfig, GrpcOption, with_logger, with_unary_interceptors, with_stream_interceptors,
  apply_grpc_options_from,
}

unary_of : List GrpcOption → List ℕ
unary_of [] = []
unary_of (with_logger l ∷ options) = unary_of options
unary_of (with_unary_interceptors is ∷ options) = is ++ unary_of options
unary_of (with_stream_interceptors is ∷ options) = unary_of options

append_nil : (xs : List ℕ) → xs ++ [] ≡ xs
append_nil [] = refl
append_nil (x ∷ xs) = ap (λ ys. x ∷ ys) (append_nil xs)

append_assoc : (xs ys zs : List ℕ) → (xs ++ ys) ++ zs ≡ xs ++ (ys ++ zs)
append_assoc [] ys zs = refl
append_assoc (x ∷ xs) ys zs = ap (λ us. x ∷ us) (append_assoc xs ys zs)

unary_interceptors-kept :
    (options : List GrpcOption) (c : GrpcConfig)
    → (apply_grpc_options_from options c).unary_interceptors
      ≡ c.unary_interceptors ++ unary_of options
unfolding apply_grpc_options_from unary_of
unary_interceptors-kept [] c = sym (append_nil c.unary_interceptors)
unary_interceptors-kept (with_logger none ∷ os) c = unary_interceptors-kept os c
unary_interceptors-kept (with_logger (some l) ∷ os) c =
    unary_interceptors-kept os (record c { logger = l })
unary_interceptors-kept (with_unary_interceptors is ∷ os) c =
    unary_interceptors-kept os (record c { unary_interceptors = c.unary_interceptors ++ is })
    ∙ append_assoc c.unary_interceptors is (unary_of os)
unary_interceptors-kept (with_stream_interceptors is ∷ os) c =
    unary_interceptors-kept os (record c { stream_interceptors = c.stream_interceptors ++ is })
