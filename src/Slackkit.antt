-- ===== src/Slackkit.antt =====
-- slackkit: Slack messages and the clients that send them.
pub mod Blocks
pub mod Builders
pub mod Checks
pub mod Validate
pub mod Elements
pub mod Shapes
pub mod Valid
pub mod First
pub mod Http
pub mod Client
pub mod Sends
mod Examples
