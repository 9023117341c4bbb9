-- ===== src/Prelude/ByteString.antt =====
-- Byte strings: equality as a test, the order that byte-wise comparison gives, and the big- and
-- little-endian encodings of a number.
mod Order
mod Endian
unfoldable pub use Order.*
unfoldable pub use Endian.*
