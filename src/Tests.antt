-- ===== src/Tests.antt =====
-- Runs of the definitions on concrete inputs, and each theorem at an input.
mod Data
mod Record
mod Sstable
mod Wal
mod Commit
mod Meta
mod Lookup
mod Memtable
mod Engine
mod Read
mod Write
mod Cache
mod Scan
mod Range
mod Tables
mod Compact
mod Schedule
