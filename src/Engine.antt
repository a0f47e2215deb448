-- ===== src/Engine.antt =====
-- internal/engine: the state of the engine, its operations, and the snapshots.
pub mod Snapshots
pub mod Read
pub mod Answers
pub mod Levels
pub mod Lookup
pub mod Write
pub mod Rotated
pub mod Written
pub mod Flush
pub mod Flushed
pub mod Recover
pub mod Isolation
pub mod Scan
pub mod Compact
pub mod Schedule
use ascent_db.Prelude.{ℕ, List, Option, Bool}
use ascent_db.Meta.{VersionSet}
use ascent_db.Memtable.Table.{Memtable}

-- A memtable to flush, the log that it came from, and the number of its table.
pub record FlushTask : Type 0 where
  pub mt : Memtable
  pub old_wal : Option (List ℕ)
  pub file_num : ℕ

-- The first three fields are options. `wal` is the bytes of the log's file, and `flush_chan` the tasks
-- in the channel.
pub record Engine : Type 0 where
  pub crash_recovery : Bool
  pub memtable_size : ℕ
  pub skiplist_max_level : ℕ
  pub wal : List ℕ
  pub mt : Memtable
  pub immt : Option Memtable
  pub vs : VersionSet
  pub seq_num : ℕ
  pub flush_chan : List FlushTask
  pub snapshots : List ℕ
