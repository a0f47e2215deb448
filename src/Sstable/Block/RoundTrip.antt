-- ===== src/Sstable/Block/RoundTrip.antt =====
-- decodeBlock on the bytes of a block.
use ascent_db.Prelude.{
  ℕ, ◌+◌, ◌-◌, ◌≤◌, ◌≡◌, refl, arith, List, [], ◌∷◌, ◌++◌, length, length-append, All, append_assoc,
  append-nil, take-append, drop-append, Result, ok, le→ltb, ==_iff, corrupt_record,
}
use ascent_db.Bytes.Word.{u32, le_bytes, length-le_bytes, of_le_bytes-u32, IsU32}
use ascent_db.Bytes.Checksum.{checksum, checksum-lt}
use ascent_db.Bytes.Reader.{
  Reads, Reads-bind, Reads-last, Reads-return, Reads-skip, get_u32-Reads, take_bytes-Reads, lift,
}
use ascent_db.Record.{Record, IsRecord}
use ascent_db.Record.Encode.{record_bytes, length-record_bytes}
use ascent_db.Record.Decode.{decode_record}
use ascent_db.Record.RoundTrip.{decode_record-record_bytes}
use ascent_db.Sstable.Block.{
  need_before, read_block_entry, read_block_entries, read_block, decode_block,
}

-- The entries of a block, and the block: [size(4)][entries(4)][entry...][checksum(4)].
unfoldable pub entry_frame : Record → List ℕ
entry_frame r = le_bytes 4 (u32 (length (record_bytes r))) ++ record_bytes r

unfoldable pub entry_frames : List Record → List ℕ
entry_frames [] = []
entry_frames (r ∷ rs) = entry_frame r ++ entry_frames rs

unfoldable pub block_body : List Record → List ℕ
block_body rs =
    le_bytes 4 (u32 (length (entry_frames rs) + 12))
    ++ (le_bytes 4 (u32 (length rs)) ++ entry_frames rs)

unfoldable pub block_bytes : List Record → List ℕ
block_bytes rs = block_body rs ++ le_bytes 4 (u32 (checksum (block_body rs)))

pub length-block_body : (rs : List Record) → length (block_body rs) ≡ length (entry_frames rs) + 8
unfolding block_body
length-block_body rs = simp (length-append, length-le_bytes) (omega arith)

pub length-block_bytes :
    (rs : List Record) → length (block_bytes rs) ≡ length (entry_frames rs) + 12
unfolding block_bytes
length-block_bytes rs = simp (length-append, length-le_bytes) (omega (arith, length-block_body rs))

pub length-entry_frame : (r : Record) → length (entry_frame r) ≡ length (record_bytes r) + 4
unfolding entry_frame
length-entry_frame r = simp (length-append, length-le_bytes) (omega arith)

entry-Reads : (r : Record) → IsRecord r → Reads read_block_entry (entry_frame r) r
unfolding read_block_entry entry_frame
entry-Reads r h =
    let fits : IsU32 (length (record_bytes r)) =
      omega (arith, length-record_bytes r, h.size_fits) in
    let decoded : decode_record (record_bytes r) ≡ ok r =
      rw append-nil at (decode_record-record_bytes r [] h) in
    Reads-bind _ (get_u32-Reads (length (record_bytes r)) fits)
      (Reads-last _ (take_bytes-Reads (record_bytes r) corrupt_record refl) (lift-Reads decoded))
  where
    lift-Reads : {x : Result Record} → x ≡ ok r → Reads (lift x) [] r
    lift-Reads e = rw e (Reads-return r)

entries-read :
    (limit : ℕ) (rs : List Record) (front rest : List ℕ)
    → All IsRecord rs
    → length (front ++ entry_frames rs) ≤ limit
    → read_block_entries limit (length rs) (front ++ (entry_frames rs ++ rest)) (length front)
      ≡ ok (rs, length (front ++ entry_frames rs))
unfolding read_block_entries entry_frames need_before
entries-read limit [] front rest h fits = rw append-nil
entries-read limit (r ∷ rs) front rest (hr, hrs) fits =
    let fr = entry_frame r in
    let later = entry_frames rs in
    let ends : length ((front ++ fr) ++ later) ≤ limit = rw append_assoc fits in
    let room : length front + 4 ≤ limit =
      omega
        (arith, length-append (front ++ fr) later, length-append front fr, length-entry_frame r) in
    rw (
      append_assoc fr later rest,
      need_before,
      le→ltb limit (length front + 4) room,
      (entry-Reads r hr).run front (later ++ rest),
      ← append_assoc front fr (later ++ rest),
      entries-read limit rs (front ++ fr) rest hrs ends,
      append_assoc front fr later,
    )

block-read :
    (rs : List Record) (rest : List ℕ)
    → All IsRecord rs
    → IsU32 (length rs)
    → read_block (length (block_body rs)) (block_body rs ++ rest) 0
      ≡ ok (rs, length (block_body rs))
unfolding read_block block_body
block-read rs rest h n =
    let size = le_bytes 4 (u32 (length (entry_frames rs) + 12)) in
    let count = le_bytes 4 (u32 (length rs)) in
    let es = entry_frames rs in
    let skipped = (Reads-skip size (length-le_bytes 4 _)).run [] (count ++ (es ++ rest)) in
    let counted = (get_u32-Reads (length rs) n).run size (es ++ rest) in
    rw (append_assoc size (count ++ es) rest, append_assoc count es rest, skipped, counted)
      (rw (← append_assoc size count (es ++ rest), ← append_assoc size count es)
        (entries-read _ rs (size ++ count) rest h (omega arith)))

-- decodeBlock gives back the records of a block that is intact.
pub decode_block-block_bytes :
    (rs : List Record) → All IsRecord rs → IsU32 (length rs) → decode_block (block_bytes rs) ≡ ok rs
unfolding decode_block block_bytes
decode_block-block_bytes rs h n =
    let body = block_body rs in
    let sum = checksum body in
    let crc = le_bytes 4 (u32 sum) in
    let long : 12 ≤ length (body ++ crc) =
      omega (arith, length-append body crc, length-block_body rs, length-le_bytes 4 (u32 sum)) in
    let cut : length (body ++ crc) - 4 ≡ length body =
      omega (arith, length-append body crc, length-le_bytes 4 (u32 sum)) in
    rw
      (
        le→ltb (length (body ++ crc)) 12 long,
        cut,
        drop-append body crc,
        take-append body crc,
        of_le_bytes-u32 sum (checksum-lt body),
        (==_iff sum sum).1 refl,
      )
      (ground (arith, block-read rs crc h n))
