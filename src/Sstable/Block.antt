-- ===== src/Sstable/Block.antt =====
-- block.go: decodeBlock.
pub mod RoundTrip
use ascent_db.Prelude.{
  ℕ, zero, suc, ◌+◌, ◌-◌, ◌≡◌, ◌≢◌, refl, arith, List, [], ◌∷◌, length, take, drop, Result, ok, err,
  panic, Error, corrupt_record, not, ◌==◌, ltb, if◌then◌else◌, reject,
}
use ascent_db.Bytes.Word.{of_le_bytes}
use ascent_db.Bytes.Checksum.{checksum}
use ascent_db.Bytes.Reader.{
  Read, return, ◌>>=◌, ◌>>◌, need, get_le, get_bytes, take_bytes, skip, lift, from_start, NoPanic,
  NoPanic-bind, NoPanic-return, NoPanic-take_bytes, NoPanic-lift,
}
use ascent_db.Record.{Record}
use ascent_db.Record.Decode.{decode_record, decode_record-ne-panic}

-- `if off+4 > sumOffset { return nil, record.ErrCorruptRecord }`
unfoldable pub need_before : ℕ → ℕ → Error → Read (Unit {0})
need_before limit n e b off = if ltb limit (off + n) then err e else ok (tt, off)

-- An entry behind its size.
unfoldable pub read_block_entry : Read Record
read_block_entry = do
  entry_size ← get_le 4
  entry ← take_bytes entry_size corrupt_record
  lift (decode_record entry)

-- The loop, `num_entries` rounds.
unfoldable pub read_block_entries : ℕ → ℕ → Read (List Record)
read_block_entries limit zero = return []
read_block_entries limit (suc n) = do
  need_before limit 4 corrupt_record
  rec ← read_block_entry
  entries ← read_block_entries limit n
  return (rec ∷ entries)

-- The header is passed over but for the number of entries.
unfoldable pub read_block : ℕ → Read (List Record)
read_block sum_offset = do skip 4; num_entries ← get_le 4; read_block_entries sum_offset num_entries

unfoldable pub decode_block : List ℕ → Result (List Record)
decode_block b =
    let sum_offset = length b - 4 in
    let expected = of_le_bytes (drop sum_offset b) in
    let actual = checksum (take sum_offset b) in
    if ltb (length b) 12
    then err corrupt_record
    else if not (expected == actual)
    then err corrupt_record
    else from_start (read_block sum_offset) b
