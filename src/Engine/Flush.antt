-- ===== src/Engine/Flush.antt =====
-- flush: the records of a memtable go into a table of level 0.
use ascent_db.Prelude.{
  ℕ, zero, suc, List, [], ◌∷◌, length, Option, none, some, if◌then◌else◌, Result, ok, panic, ◌>>=◌,
}
use ascent_db.Record.{InternalKey}
use ascent_db.Meta.{VersionEdit}
use ascent_db.Meta.Versions.{take_file_num}
use ascent_db.Memtable.Table.{MemtableIterator, iterator, valid, internal_key, value, next}
use ascent_db.Sstable.Format.{Filter}
use ascent_db.Sstable.Writer.{TableWriter, create}
use ascent_db.Sstable.Writer as Writer
use ascent_db.Engine.{Engine, FlushTask}
use ascent_db.Engine.Write.{log_and_apply}

-- `firstKey` and `lastKey`, once there are any.
abbrev pub Range : Type 0
Range = Option (InternalKey × InternalKey)

unfoldable pub extend : Range → InternalKey → Range
extend none key = some (key, key)
extend (some (first, last)) key = some (first, key)

-- Each round adds the record at the iterator to the table.
unfoldable pub flush_loop :
    ℕ → MemtableIterator → TableWriter → Range → Result (TableWriter × Range)
flush_loop zero it w range = panic
flush_loop (suc fuel) it w range =
    if valid it
    then (do
      k ← internal_key it
      v ← value it
      w ← Writer.add w (record { internal_key = k; value = v })
      it ← next it
      flush_loop fuel it w (extend range k))
    else ok (w, range)

unfoldable pub flush_edit : ℕ → ℕ → ℕ → InternalKey → InternalKey → VersionEdit
flush_edit next_file_num file_num file_size first last = record {
  add_tables =
      record {
        file_num = file_num;
        file_size = file_size;
        level = 0;
        min_key = first;
        max_key = last;
      }
      ∷ [];
  delete_tables = [];
  last_sequence = some last.seq_num;
  next_file_num = some next_file_num;
  log_number = none;
}

-- The file of the new table, if there is one, and the engine behind it. The compaction that may be
-- scheduled is a process of its own.
unfoldable pub flush_range :
    TableWriter → FlushTask → Engine → Range → Result (Option (List ℕ) × Engine)
flush_range w task e none = ok (none, e)
flush_range w task e (some (first, last)) = do
  file ← Writer.close w
  e ←
      log_and_apply (record e { vs = (take_file_num e.vs).1 })
        (flush_edit (take_file_num e.vs).0 task.file_num (length file) first last)
  ok (some file, record e { immt = none })

-- The task's writer is new, with this block size and this empty filter.
unfoldable pub flush : ℕ → Filter → FlushTask → Engine → Result (Option (List ℕ) × Engine)
flush block_size filter task e = do
  it ← iterator task.mt.list
  (w, range) ← flush_loop task.mt.list.next it (create block_size filter) none
  flush_range w task e range
