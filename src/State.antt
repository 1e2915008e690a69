-- ===== src/State.antt =====
-- state/: the store of positions and orders, and the lifecycle of trades over it.
pub mod Store
pub mod Tracker
