-- ===== src/Bytes.antt =====
-- Byte slices as the program uses them: bytes.Compare, encoding/binary's fixed-width integers,
-- writing and reading a buffer at an offset, and the two hash functions. A slice is a list of
-- numbers below 256.
pub mod Word
pub mod Compare
pub mod Writer
pub mod Reader
pub mod Checksum
