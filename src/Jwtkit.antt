-- ===== src/Jwtkit.antt =====
-- authkit/jwtkit: tokens and the keys that verify them.
pub mod Token
pub mod Keys
pub mod Provider
pub mod Documents
pub mod Refines
pub mod Verified
mod Examples
