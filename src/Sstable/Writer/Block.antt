-- ===== src/Sstable/Writer/Block.antt =====
-- What the writer puts into a table file: blocks that decodeBlock reads, at the offsets that the
-- index names.
use ascent_db.Prelude.{
  ℕ, ◌+◌, ◌≡◌, sym, arith, List, [], ◌∷◌, ◌++◌, length, All, append_assoc, append-nil, ok,
}
use ascent_db.Bytes.Word.{u32, le_bytes, IsU32}
use ascent_db.Bytes.Checksum.{checksum}
use ascent_db.Record.{Record, IsRecord, size}
use ascent_db.Record.Encode.{size-length, encode_record_into_writer-bytes}
use ascent_db.Sstable.Block.{decode_block}
use ascent_db.Sstable.Block.RoundTrip.{
  entry_frame, entry_frames, block_body, block_bytes, length-block_bytes, decode_block-block_bytes,
}
use ascent_db.Sstable.Writer.{TableWriter, write_entries, write_block}

write_entries-frames :
    (rs : List Record) (bw : List ℕ) → All IsRecord rs → write_entries rs bw ≡ bw ++ entry_frames rs
unfolding write_entries entry_frames entry_frame
write_entries-frames [] bw h = sym (append-nil bw)
write_entries-frames (r ∷ rs) bw (hr, hrs) =
    rw
      (
        encode_record_into_writer-bytes (bw ++ le_bytes 4 (u32 (size r))) r,
        write_entries-frames rs _ hrs,
        size-length r hr,
      )
      (simp append_assoc)

-- The size that the writer keeps as it collects entries is that of the block without its checksum.
abbrev pub SizeKept : TableWriter → Type 0
SizeKept w = w.current_block_size ≡ length (entry_frames w.entries) + 8

body :
    (w : TableWriter)
    → SizeKept w
    → All IsRecord w.entries
    → write_entries w.entries
        (le_bytes 4 (u32 (w.current_block_size + 4)) ++ le_bytes 4 (u32 (length w.entries)))
      ≡ block_body w.entries
unfolding block_body
body w kept h =
    let total : w.current_block_size + 4 ≡ length (entry_frames w.entries) + 12 = omega arith in
    rw (write_entries-frames w.entries _ h, total) (simp append_assoc)

-- writeBlock appends a block of the collected entries, and returns its length.
pub write_block-bytes :
    (w : TableWriter)
    → SizeKept w
    → All IsRecord w.entries
    → write_block w ≡ (block_bytes w.entries, length (block_bytes w.entries))
unfolding write_block block_bytes
write_block-bytes w kept h =
    let total : w.current_block_size + 4 ≡ length (block_bytes w.entries) =
      omega (arith, length-block_bytes w.entries) in
    λ i. (body w kept h i ++ le_bytes 4 (u32 (checksum (body w kept h i))), total i)

-- What writeBlock appends is read back by decodeBlock as the entries that were collected, for
-- entries in range and a size count that was kept.
pub decode_block-write_block :
    (w : TableWriter)
    → SizeKept w
    → All IsRecord w.entries
    → IsU32 (length w.entries)
    → decode_block (write_block w).0 ≡ ok w.entries
decode_block-write_block w kept h n =
    rw (write_block-bytes w kept h) (decode_block-block_bytes w.entries h n)
