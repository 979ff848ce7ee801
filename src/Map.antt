-- ===== src/Map.antt =====
-- The protocol's `Map` alias (vendor/apexos-protocol/src/lib.rs): the operations that the program
-- calls, and their laws.
mod Defs
mod Laws
unfoldable pub use Defs.{Map, empty, len, get, insert, remove, retain}
pub use Laws.*
