-- ===== src/Bytestring.antt =====
-- parser/internal/bytestring/bytestring.go.
mod Defs
pub mod Words
pub mod Bytes
unfoldable pub use Defs.{
  read, empty, skip, read_into, read_byte, read_bytes, le_loop, compact_form, compact_tail,
  compact_body, read_compact_size, read_compact_length_prefixed, read_uint16, read_uint32,
  read_uint64, read_int32, read_int64, script_number, read_script_int64,
}
pub use Defs.{max_compact_size, first_byte}
