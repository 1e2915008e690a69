-- ===== src/Dict.antt =====
-- Python's `dict` and `set`: a dictionary keeps its entries in insertion order, and an assignment to
-- a key that is there stays in its place.
mod Defs
mod Laws
pub use Defs.*
pub use Laws.*
