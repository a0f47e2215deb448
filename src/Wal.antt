-- ===== src/Wal.antt =====
-- internal/wal: the write-ahead log. encodeRecords frames each record as
-- [size(4)][record][checksum(4)], and Replay reads the frames back.
pub mod Encode
pub mod Replay
pub mod RoundTrip
pub mod Torn
pub mod Commit
