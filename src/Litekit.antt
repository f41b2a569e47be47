-- ===== src/Litekit.antt =====
-- dbkit/litekit: SQLite connections and their schema evolution.
pub mod Modes
pub mod Evolver
mod Examples
