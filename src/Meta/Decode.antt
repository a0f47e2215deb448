-- ===== src/Meta/Decode.antt =====
-- decodeTableMeta and decodeDeletedTable.
use ascent_db.Prelude.{ℕ, List, Result, corrupt_record}
use ascent_db.Bytes.Reader.{Read, ◌>>=◌, ◌>>◌, return, need, get_u32, get_u64, skip, from_start}
use ascent_db.Record.Decode.{decode_internal_key}
use ascent_db.Meta.{TableMeta, DeletedTableMeta, table_meta_size}

-- The length of the entry and those of its keys are skipped.
unfoldable pub read_table_meta : Read TableMeta
read_table_meta = do
  need table_meta_size corrupt_record
  skip 4
  file_num ← get_u64
  file_size ← get_u64
  level ← get_u32
  skip 4
  min_key ← decode_internal_key
  skip 4
  max_key ← decode_internal_key
  return (record {
    file_num = file_num;
    file_size = file_size;
    level = level;
    min_key = min_key;
    max_key = max_key;
  })

unfoldable pub decode_table_meta : List ℕ → Result TableMeta
unfolding read_table_meta
decode_table_meta b = from_start read_table_meta b

unfoldable pub read_deleted_table : Read DeletedTableMeta
read_deleted_table = do
  need 12 corrupt_record
  level ← get_u32
  file_num ← get_u64
  return (record { level = level; file_num = file_num })

unfoldable pub decode_deleted_table : List ℕ → Result DeletedTableMeta
unfolding read_deleted_table
decode_deleted_table b = from_start read_deleted_table b
