-- ===== src/Prelude/Dict.antt =====
-- Python's `dict` of records, each stored under its own identity, and its laws.
mod Defs
mod Laws
unfoldable pub use Defs.*
pub use Laws.*
