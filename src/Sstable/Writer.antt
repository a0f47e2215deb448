-- ===== src/Sstable/Writer.antt =====
-- writer.go: TableWriter. The file is the list of bytes written so far; writes to it succeed.
pub mod Block
pub mod Invariant
use ascent_db.Prelude.{
  ℕ, zero, suc, ◌+◌, ◌≡◌, refl, arith, List, [], ◌∷◌, ◌++◌, length, Option, none, some, Result, ok,
  err, panic, ◌>>=◌, ◌>>◌, leb, ltb, if◌then◌else◌,
}
use mathlib.Core.List.{get_last?}
use ascent_db.Bytes.Word.{u32, u64, le_bytes}
use ascent_db.Bytes.Checksum.{checksum}
use ascent_db.Record.{InternalKey, Record, size}
use ascent_db.Record.Encode.{encode_record_into_writer, append_write}
use ascent_db.Sstable.Format.{Footer, IndexEntry, Filter, magic}
use ascent_db.Sstable.Encode.{encode_index_block, encode_filter, encode_footer}
use ascent_db.Sstable.Filter as Filter

pub record TableWriter : Type 0 where
  pub file : List ℕ
  pub max_block_size : ℕ
  pub entries : List Record
  pub current_block_size : ℕ
  pub index : List IndexEntry
  pub filter : Filter
  pub offset : ℕ
  pub estimated_size : ℕ

-- Create: an empty file, with the filter that NewFilter makes.
unfoldable pub create : ℕ → Filter → TableWriter
create block_size filter = record {
  file = [];
  max_block_size = block_size;
  entries = [];
  current_block_size = 8;
  index = [];
  filter = filter;
  offset = 0;
  estimated_size = 0;
}

-- The loop of writeBlock over the buffered writer.
unfoldable pub write_entries : List Record → List ℕ → List ℕ
write_entries [] bw = bw
write_entries (entry ∷ rest) bw =
    write_entries rest
      (encode_record_into_writer append_write (bw ++ le_bytes 4 (u32 (size entry))) entry).0

-- writeBlock: what it appends to the file, and the size that it returns.
unfoldable pub write_block : TableWriter → List ℕ × ℕ
unfolding write_entries
write_block w =
    let total_size = w.current_block_size + 4 in
    let header = le_bytes 4 (u32 total_size) ++ le_bytes 4 (u32 (length w.entries)) in
    let bytes = write_entries w.entries header in
    (bytes ++ le_bytes 4 (u32 (checksum bytes)), total_size)

-- flushBlock
unfoldable pub flush_block : TableWriter → TableWriter
flush_block w = elim (get_last? w.entries) [
  | none ↦ w
  | some last ↦
      let n = (write_block w).1 in
      record w {
        file = w.file ++ (write_block w).0;
        entries = [];
        current_block_size = 8;
        index =
            w.index
            ++ (record {
              separator_key = last.internal_key;
              block_offset = w.offset;
              block_size = u32 n;
            }
                ∷ []);
        offset = w.offset + n;
      }
]

-- The part of Add before the size test.
unfoldable pub collect : TableWriter → Record → Filter → TableWriter
collect w r filter = record w {
  entries = w.entries ++ (r ∷ []);
  current_block_size = w.current_block_size + 4 + size r;
  estimated_size = w.estimated_size + size r;
  filter = filter;
}

-- Add
unfoldable pub add : TableWriter → Record → Result TableWriter
add w r = do
  filter ← Filter.add r.user_key w.filter
  let w' = collect w r filter
  ok (if leb w'.max_block_size w'.current_block_size then flush_block w' else w')

-- Close: the last block, the index, the filter, the footer. The result is the whole file.
unfoldable pub close : TableWriter → Result (List ℕ)
unfolding flush_block
close w = do
  let w' = flush_block w
  index_bytes ← encode_index_block w'.index
  filter_bytes ← encode_filter w'.filter
  footer_bytes ← encode_footer (record {
    index_offset = w'.offset;
    index_size = u32 (length index_bytes);
    filter_offset = w'.offset + length index_bytes;
    filter_size = u32 (length filter_bytes);
    magic_num = magic;
  })
  ok (((w'.file ++ index_bytes) ++ filter_bytes) ++ footer_bytes)
