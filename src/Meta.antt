-- ===== src/Meta.antt =====
-- internal/meta: the tables of a version, edits to it, and the manifest that stores the edits.
pub mod Encode
pub mod Uvarint
pub mod Decode
pub mod Versions
pub mod Overlap
pub mod Replay
pub mod Items
pub mod Recovery
pub mod RoundTrip
use ascent_db.Prelude.{ℕ, ◌+◌, ◌<◌, List, [], ◌∷◌, ◌++◌, length, Option}
use ascent_db.Bytes.Word.{IsU32, IsU64}
use ascent_db.Record.{InternalKey, IsKey}

pub record TableMeta : Type 0 where
  pub file_num : ℕ
  pub file_size : ℕ
  pub level : ℕ
  pub min_key : InternalKey
  pub max_key : InternalKey

pub record DeletedTableMeta : Type 0 where
  pub level : ℕ
  pub file_num : ℕ

-- The pointer fields are optional.
pub record VersionEdit : Type 0 where
  pub add_tables : List TableMeta
  pub delete_tables : List DeletedTableMeta
  pub last_sequence : Option ℕ
  pub next_file_num : Option ℕ
  pub log_number : Option ℕ

-- `levels` are the levels of the current version.
pub record VersionSet : Type 0 where
  pub levels : List (List TableMeta)
  pub next_file_num : ℕ
  pub last_seq_num : ℕ
  pub log_num : ℕ

abbrev pub table_meta_size : ℕ
table_meta_size = 4 + 8 + 8 + 4 + 4 + 4

abbrev pub tag_add_table : ℕ
tag_add_table = 1

abbrev pub tag_delete_table : ℕ
tag_delete_table = 2

abbrev pub tag_last_sequence : ℕ
tag_last_sequence = 3

abbrev pub tag_next_file_num : ℕ
tag_next_file_num = 4

abbrev pub tag_log_num : ℕ
tag_log_num = 5

-- One tagged item of the manifest; `unknown` is a tag that no case of the switch takes.
pub data Item : Type 0 where
  add_table : TableMeta → Item
  delete_table : DeletedTableMeta → Item
  last_sequence next_file_num log_number : ℕ → Item
  unknown : Item

-- The ranges of the Go types; the whole table entry has a uint32 length.
pub record IsTable (t : TableMeta) : Type 0 where
  pub min_ok : IsKey t.min_key
  pub max_ok : IsKey t.max_key
  pub num_fits : IsU64 t.file_num
  pub size_fits : IsU64 t.file_size
  pub level_fits : IsU32 t.level
  pub length_fits : IsU32 (length t.min_key.user_key + length t.max_key.user_key + 58)

pub record IsDeleted (d : DeletedTableMeta) : Type 0 where
  pub num_fits : IsU64 d.file_num
  pub level_fits : IsU32 d.level
