-- ===== src/Scan.antt =====
-- Scanners of byte strings and their locality.
mod Defs
pub mod Local
pub mod Codec
unfoldable pub use Defs.{pure, fail, ◌>>=◌, wrapping, repeat}
pub use Defs.{Scan, Read, continue, check}
