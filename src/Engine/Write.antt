-- ===== src/Engine/Write.antt =====
-- Put, Delete and WriteBatch. The file operations succeed, and the wait for room in level 0 is over.
use ascent_db.Prelude.{
  ℕ, ◌+◌, ◌-◌, List, [], ◌∷◌, ◌++◌, Option, none, some, Bool, true, false, ◌==◌, ◌&&◌, ◌||◌,
  if◌then◌else◌, Result, ok, reject, empty_key_or_value, batch_empty_key, batch_nil_value, ◌^◌,
  ◌>>=◌, ◌>>◌,
}
use ascent_db.Bytes.Word.{u64}
use ascent_db.Batch.{Batch, len}
use ascent_db.Record.{Record, key_len, type_put, type_del}
use ascent_db.Meta.{VersionEdit}
use ascent_db.Meta.Versions.{apply, take_file_num}
use ascent_db.Memtable.Table.{Memtable, new, is_full}
use ascent_db.Memtable.Table as Table
use ascent_db.Wal.Encode.{encode_records}
use ascent_db.Engine.{Engine, FlushTask}

-- The edit that rotate writes.
abbrev pub log_edit : ℕ → VersionEdit
log_edit log_num = record {
  add_tables = [];
  delete_tables = [];
  last_sequence = none;
  next_file_num = none;
  log_number = some log_num;
}

-- LogAndApply: the levels of the new version.
unfoldable pub log_and_apply : Engine → VersionEdit → Result Engine
log_and_apply e edit = do
  levels ← apply e.vs edit
  ok (record e { vs = record e.vs { levels = levels } })

-- A new log takes the place of the old one.
unfoldable pub rotate_wal : Engine → Result (Option (List ℕ) × Engine)
rotate_wal e =
    if e.crash_recovery
    then (do
      e' ←
          log_and_apply (record e { wal = []; vs = (take_file_num e.vs).1 })
            (log_edit (take_file_num e.vs).0)
      ok (some e.wal, e'))
    else ok (none, e)

unfoldable pub rotate : Engine → Result (FlushTask × Engine)
rotate e = do
  let mt : Memtable = e.mt
  (old_wal, e) ← rotate_wal (record e { immt = some mt })
  ok (
    record { mt = mt; old_wal = old_wal; file_num = (take_file_num e.vs).0 },
    record e { mt = new e.memtable_size e.skiplist_max_level; vs = (take_file_num e.vs).1 },
  )

-- The log takes the records, if there is one.
unfoldable pub append_batch : List Record → Engine → Result Engine
append_batch rs e =
    if e.crash_recovery
    then (do bytes ← encode_records rs; ok (record e { wal = e.wal ++ bytes }))
    else ok e

-- A full memtable is rotated, and its task sent.
unfoldable pub rotate_if_full : Engine → Result Engine
rotate_if_full e =
    if is_full e.mt
    then (do (task, e') ← rotate e; ok (record e' { flush_chan = e'.flush_chan ++ (task ∷ []) }))
    else ok e

unfoldable pub put_and_rotate : Record → List Bool → Engine → Result Engine
put_and_rotate r coins e = do mt ← Table.put e.mt r coins; rotate_if_full (record e { mt = mt })

-- What randomLevel draws is given for each sequence number.
unfoldable pub write : (ℕ → List Bool) → List ℕ → List ℕ → ℕ → Engine → Result Engine
write coins key value typ e = do
  let seq : ℕ = u64 (e.seq_num + 1)
  let r : Record = record {
    internal_key = record { user_key = key; seq_num = seq; typ = typ };
    value = value;
  }
  e ← append_batch (r ∷ []) (record e { seq_num = seq })
  put_and_rotate r (coins seq) e

unfoldable pub is_empty : List ℕ → Bool
is_empty [] = true
is_empty (x ∷ xs) = false

unfoldable pub put : (ℕ → List Bool) → List ℕ → List ℕ → Engine → Result Engine
put coins key value e = do
  reject (is_empty key || is_empty value) empty_key_or_value
  write coins key value type_put e

unfoldable pub delete : (ℕ → List Bool) → List ℕ → Engine → Result Engine
delete coins key e = write coins key [] type_del e

-- The records of a batch get consecutive sequence numbers.
unfoldable pub number : ℕ → List Record → List Record
number seq [] = []
number seq (r ∷ rs) =
    record { internal_key = record r.internal_key { seq_num = u64 seq }; value = r.value }
    ∷ number (seq + 1) rs

unfoldable pub put_batch : (ℕ → List Bool) → List Record → Engine → Result Engine
put_batch coins [] e = ok e
put_batch coins (r ∷ rs) e = do e ← put_and_rotate r (coins r.seq_num) e; put_batch coins rs e

-- `is_nil` tells a value that is nil from an empty one.
unfoldable pub check_batch : (List ℕ → Bool) → List Record → Result (Unit {0})
check_batch is_nil [] = ok tt
check_batch is_nil (r ∷ rs) = do
  reject (key_len r == 0) batch_empty_key
  reject (r.typ == type_put && is_nil r.value) batch_nil_value
  check_batch is_nil rs

unfoldable pub write_batch : (ℕ → List Bool) → (List ℕ → Bool) → Batch → Engine → Result Engine
write_batch coins is_nil b e = if len b == 0 then ok e else (do
  check_batch is_nil b.recs
  let n : ℕ = len b
  let end_seq : ℕ = u64 (e.seq_num + n)
  let start_seq : ℕ = u64 (end_seq + (2 ^ 64 - n) + 1)
  let recs : List Record = number start_seq b.recs
  e ← append_batch recs (record e { seq_num = end_seq })
  put_batch coins recs e)
