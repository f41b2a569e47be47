-- ===== src/Tgkit.antt =====
-- tgkit: the Telegram helpers.
pub mod Api
pub mod Invoice
pub mod Payments
pub mod Updates
pub mod Channel
pub mod Bot
pub mod MiniApp
pub mod InitData
mod Examples
