-- ===== src/Sstable/Format.antt =====
-- The parts of a table file besides its blocks: footer.go, index.go, and the fields of filter.go.
use ascent_db.Prelude.{ℕ, ◌+◌, ◌≡◌, List, length}
use ascent_db.Bytes.Word.{IsByte, IsU32, IsU64}
use ascent_db.Record.{InternalKey, IsKey}

abbrev pub magic : ℕ
magic = 0xdbb5_a3c4_f1e2_d678

abbrev pub footer_size : ℕ
footer_size = 8 + 4 + 8 + 4 + 8

pub record Footer : Type 0 where
  pub index_offset : ℕ
  pub index_size : ℕ
  pub filter_offset : ℕ
  pub filter_size : ℕ
  pub magic_num : ℕ

pub record IndexEntry : Type 0 where
  pub separator_key : InternalKey
  pub block_offset : ℕ
  pub block_size : ℕ

-- `m` bits in bytes, and `k` hash functions.
pub record Filter : Type 0 where
  pub bits : List ℕ
  pub m : ℕ
  pub k : ℕ

-- What the writer puts in a footer.
pub record IsFooter (f : Footer) : Type 0 where
  pub index_offset_fits : IsU64 f.index_offset
  pub index_size_fits : IsU32 f.index_size
  pub filter_offset_fits : IsU64 f.filter_offset
  pub filter_size_fits : IsU32 f.filter_size
  pub is_magic : f.magic_num ≡ magic

-- The entry's own length fits the 4-byte field before it.
pub record IsEntry (e : IndexEntry) : Type 0 where
  pub key_ok : IsKey e.separator_key
  pub offset_fits : IsU64 e.block_offset
  pub size_fits : IsU32 e.block_size
  pub length_fits : IsU32 (length e.separator_key.user_key + 25)

-- The Go types of the fields, and a bit slice that a length field can carry.
pub record HasWidths (f : Filter) : Type 0 where
  pub bits_fit : IsU32 (length f.bits)
  pub m_fits : IsU32 f.m
  pub k_fits : IsByte f.k
