-- ===== src/Sstable.antt =====
-- internal/sstable: the table file format, its filter, its writer, its reader and iterator, and the
-- block cache.
pub mod Format
pub mod Encode
pub mod Decode
pub mod RoundTrip
pub mod Filter
pub mod Block
pub mod Writer
pub mod Search
pub mod Reader
pub mod Cache
pub mod Open
pub mod Iterator
