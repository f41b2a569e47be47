-- ===== src/Grpckit.antt =====
-- grpckit: the gRPC listener and the interceptors.
pub mod Listener
pub mod Chains
pub mod Interceptors
mod Examples
