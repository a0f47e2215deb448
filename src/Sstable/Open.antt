-- ===== src/Sstable/Open.antt =====
-- reader.go: Open and readAt. Opening the file and its size are the bytes of the file.
pub mod Blocks
pub mod Written
pub mod Answers
use ascent_db.Prelude.{
  ℕ, ◌+◌, ◌-◌, List, length, take, drop, Bool, true, false, leb, ltb, ◌==◌, ◌&&◌, if◌then◌else◌,
  Result, ok, err, ◌>>=◌, read_eof,
}
use ascent_db.Sstable.Format.{Footer, IndexEntry, Filter, footer_size}
use ascent_db.Sstable.Decode.{decode_footer, decode_index_block, decode_filter}

pub record TableReader : Type 0 where
  pub file : List ℕ
  pub index : List IndexEntry
  pub filter : Filter
  pub footer : Footer
  pub file_num : ℕ

-- readAt. An offset that is negative as an int64 is an error; to read no bytes is none.
unfoldable pub read_at : List ℕ → ℕ → ℕ → Result (List ℕ)
read_at file offset size =
    if leb (offset + size) (length file)
    then ok (take size (drop offset file))
    else if (size == 0) && ltb offset 0x8000_0000_0000_0000
    then ok (take 0 file)
    else err read_eof

-- The offset of the footer is negative if the file is shorter than a footer.
unfoldable pub read_footer_at_end : List ℕ → Result (List ℕ)
read_footer_at_end file =
    if ltb (length file) footer_size
    then err read_eof
    else read_at file (length file - footer_size) footer_size

-- Open. The file number is the one in the name of the file.
unfoldable pub open_table : ℕ → List ℕ → Result TableReader
open_table file_num file = do
  footer_bytes ← read_footer_at_end file
  footer ← decode_footer footer_bytes
  index_bytes ← read_at file footer.index_offset footer.index_size
  index ← decode_index_block index_bytes
  filter_bytes ← read_at file footer.filter_offset footer.filter_size
  filter ← decode_filter filter_bytes
  ok (record { file = file; index = index; filter = filter; footer = footer; file_num = file_num })
