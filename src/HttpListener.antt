-- ===== src/HttpListener.antt =====
-- httpkit/http_listener.go: the options of the HTTP listener, its routes, its health checks and its
-- shutdown.
pub mod Config
pub mod Setup
pub mod Configured
pub mod Stages
pub mod Made
pub mod Health
pub mod Statuses
pub mod Serve
pub mod Runs
mod Examples
