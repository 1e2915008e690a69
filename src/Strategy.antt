-- ===== src/Strategy.antt =====
-- strategy/: the estimators, the regime machine and the quote construction.
pub mod Estimators
pub mod Regime
pub mod Pricing
pub mod Quoting
