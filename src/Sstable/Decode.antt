-- ===== src/Sstable/Decode.antt =====
-- decodeFooter, decodeIndexEntry, decodeIndexBlock and DecodeFilter.
use ascent_db.Prelude.{
  ℕ, zero, suc, ◌≤◌, ◌≡◌, ◌≢◌, arith, List, [], ◌∷◌, Result, ok, panic, corrupt_record,
  footer_too_small, footer_corrupt, filter_too_small, reject, not, ◌==◌, ◌+◌, length,
}
use ascent_db.Bytes.Reader.{
  Read, return, ◌>>=◌, ◌>>◌, need, get_le, get_bytes, take_le, take_bytes, lift, NoPanic,
  NoPanic-bind, NoPanic-return, NoPanic-take_le, NoPanic-take_bytes, NoPanic-lift, from_start,
}
use ascent_db.Record.Decode.{decode_internal_key, decode_internal_key-NoPanic}
use ascent_db.Sstable.Format.{Footer, IndexEntry, Filter, footer_size, magic}

unfoldable pub read_footer : Read Footer
read_footer = do
  need footer_size footer_too_small
  index_offset ← get_le 8
  index_size ← get_le 4
  filter_offset ← get_le 8
  filter_size ← get_le 4
  num ← get_le 8
  lift (reject (not (num == magic)) footer_corrupt)
  return (record {
    index_offset = index_offset;
    index_size = index_size;
    filter_offset = filter_offset;
    filter_size = filter_size;
    magic_num = num;
  })

unfoldable pub decode_footer : List ℕ → Result Footer
unfolding read_footer
decode_footer b = from_start read_footer b

unfoldable pub read_index_entry : Read IndexEntry
read_index_entry = do
  need 12 corrupt_record
  block_offset ← get_le 8
  block_size ← get_le 4
  sep_key ← decode_internal_key
  return (record { separator_key = sep_key; block_offset = block_offset; block_size = block_size })

unfoldable pub decode_index_entry : List ℕ → Result IndexEntry
unfolding read_index_entry
decode_index_entry b = from_start read_index_entry b

-- The loop of decodeIndexBlock, `num_entries` rounds.
unfoldable pub read_entries : ℕ → Read (List IndexEntry)
read_entries zero = return []
read_entries (suc n) = do
  entry_size ← take_le 4 corrupt_record
  eb ← take_bytes entry_size corrupt_record
  entry ← lift (decode_index_entry eb)
  entries ← read_entries n
  return (entry ∷ entries)

unfoldable pub read_index_block : Read (List IndexEntry)
unfolding read_entries
read_index_block = do num_entries ← take_le 4 corrupt_record; read_entries num_entries

unfoldable pub decode_index_block : List ℕ → Result (List IndexEntry)
unfolding read_index_block read_entries
decode_index_block b = from_start read_index_block b

-- `if off+bitsLen+4+1 > len(b)`: the bits, `m` and `k` are checked together.
unfoldable pub read_filter : Read Filter
read_filter = do
  bits_len ← take_le 4 filter_too_small
  need (bits_len + 4 + 1) filter_too_small
  bits ← get_bytes bits_len
  m ← get_le 4
  k ← get_le 1
  return (record { bits = bits; m = m; k = k })

unfoldable pub decode_filter : List ℕ → Result Filter
unfolding read_filter
decode_filter b = from_start read_filter b

-- On any bytes each decoder returns a value or an error.
pub decode_footer-ne-panic : (b : List ℕ) → decode_footer b ≢ panic
unfolding decode_footer need get_le get_bytes
decode_footer-ne-panic b = ground arith

pub decode_filter-ne-panic : (b : List ℕ) → decode_filter b ≢ panic
unfolding decode_filter need get_le get_bytes
decode_filter-ne-panic b = ground arith

pub decode_index_entry-ne-panic : (b : List ℕ) → decode_index_entry b ≢ panic
unfolding decode_index_entry need get_le get_bytes
decode_index_entry-ne-panic b = ground (arith, decode_internal_key-NoPanic.run b 12)

read_entries-NoPanic : (n : ℕ) → NoPanic (read_entries n)
unfolding read_entries
read_entries-NoPanic zero = NoPanic-return []
read_entries-NoPanic (suc n) = NoPanic-bind (NoPanic-take_le 4 _) λ size.
    NoPanic-bind (NoPanic-take_bytes size _) λ eb.
      NoPanic-bind (NoPanic-lift _ (decode_index_entry-ne-panic eb))
        λ entry. NoPanic-bind (read_entries-NoPanic n) λ entries. NoPanic-return _

read_index_block-NoPanic : NoPanic read_index_block
unfolding read_index_block
read_index_block-NoPanic = NoPanic-bind (NoPanic-take_le 4 _) λ n. read_entries-NoPanic n

pub decode_index_block-ne-panic : (b : List ℕ) → decode_index_block b ≢ panic
unfolding decode_index_block
decode_index_block-ne-panic b = ground (arith, read_index_block-NoPanic.run b 0)

-- A footer that decodes carries the magic number, and the buffer held a whole footer.
pub decode_footer-magic :
    (b : List ℕ) (f : Footer)
    → decode_footer b ≡ ok f
    → (f.magic_num ≡ magic) × (footer_size ≤ length b)
unfolding decode_footer need get_le get_bytes
decode_footer-magic b f h = ground arith
