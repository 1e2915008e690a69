-- ===== src/Execution.antt =====
-- execution/: the rate limiter and the reconciler.
pub mod RateLimit
pub mod Reconcile
pub mod Gateway
