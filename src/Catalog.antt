-- ===== src/Catalog.antt =====
-- catalog/: the discovery of markets, their scores, and the table that they are kept in.
pub mod Gamma
pub mod Scoring
pub mod Blob
pub mod Store
pub mod Scanner
