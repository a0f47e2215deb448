-- ===== src/Wal/Encode.antt =====
-- encodeRecords.
use ascent_db.Prelude.{
  ℕ, ◌+◌, ◌≡◌, refl, arith, List, [], ◌∷◌, ◌++◌, length, length-append, take, drop, All,
  append_assoc, Result, ok, ◌>>=◌, ◌>>◌, demand, leb, le→leb, length-take, take-append, drop-append,
  ◌≤◌,
}
use ascent_db.Bytes.Word.{u32, le_bytes, length-le_bytes}
use ascent_db.Bytes.Checksum.{checksum}
use ascent_db.Bytes.Writer.{
  Cursor, overwrite, overwrite-append, put_u32, make, filled, Writes, Writes-ok, Writes-after,
  Writes-bind, Writes-filled, put_u32-Writes,
}
use ascent_db.Record.{Record, size, IsRecord}
use ascent_db.Record.Encode.{
  encode_record_into, record_bytes, size-length, encode_record_into-bytes,
}

-- The first loop: the length of the buffer.
unfoldable pub total_size : List Record → ℕ
total_size [] = 0
total_size (r ∷ rs) = 4 + size r + 4 + total_size rs

-- `record.EncodeRecordInto(buf[off:off+size], rec)` writes through to `buf`; then the checksum of
-- that part is put behind it.
put_record : Record → Cursor → Result Cursor
put_record r c = do
  demand (leb (c.off + size r) (length c.buf))
  part ← encode_record_into (take (size r) (drop c.off c.buf)) r
  let buf = overwrite c.buf c.off part.buf
  put_u32 (checksum (take (size r) (drop c.off buf))) (record { buf = buf; off = c.off + size r })

-- The second loop.
put_frames : List Record → Cursor → Result Cursor
unfolding put_record
put_frames [] c = ok c
put_frames (r ∷ rs) c = do c ← put_u32 (size r) c; c ← put_record r c; put_frames rs c

unfoldable pub encode_records : List Record → Result (List ℕ)
unfolding put_frames
encode_records rs = filled (put_frames rs (make (total_size rs)))

-- One frame, and the log that a list of records makes.
unfoldable pub frame : Record → List ℕ
frame r =
    le_bytes 4 (u32 (length (record_bytes r)))
    ++ (record_bytes r ++ le_bytes 4 (u32 (checksum (record_bytes r))))

unfoldable pub frames : List Record → List ℕ
frames [] = []
frames (r ∷ rs) = frame r ++ frames rs

length-front :
    (r : Record) (room : List ℕ)
    → length (record_bytes r) ≤ length room
    → length (take (length (record_bytes r)) room) ≡ length (record_bytes r)
length-front r room h = omega (arith, length-take (length (record_bytes r)) room)

-- A record goes behind `front`, and behind it the checksum of its encoding.
put_record-Writes :
    (r : Record)
    → IsRecord r
    → Writes (put_record r) (record_bytes r ++ le_bytes 4 (u32 (checksum (record_bytes r))))
unfolding put_record
put_record-Writes r h = record {
  run = λ front room fits.
      let n = length (record_bytes r) in
      let crc = le_bytes 4 (u32 (checksum (record_bytes r))) in
      let fits' : n ≤ length room = omega (arith, length-append (record_bytes r) crc) in
      rw
        (
          put_record,
          size-length r h,
          le→leb (length front + n) (length (front ++ room))
              (omega (arith, length-append front room)),
          drop-append front room,
          encode_record_into-bytes (take n room) r (length-front r room fits'),
          overwrite-append front room (record_bytes r) fits',
          append_assoc front (record_bytes r) (drop n room),
          drop-append front (record_bytes r ++ drop n room),
          take-append (record_bytes r) (drop n room),
        )
        (rw
          (
            ← append_assoc front (record_bytes r) (drop n room),
            ← length-append front (record_bytes r),
          )
          (Writes-after front room (record_bytes r) (put_u32-Writes (checksum (record_bytes r)))
            fits));
}

put_frames-Writes : (rs : List Record) → All IsRecord rs → Writes (put_frames rs) (frames rs)
unfolding put_frames frames frame
put_frames-Writes [] h = Writes-ok
put_frames-Writes (r ∷ rs) (hr, hrs) =
    rw (append_assoc, ← size-length r hr)
      (Writes-bind (put_u32-Writes (size r))
        (Writes-bind (put_record-Writes r hr) (put_frames-Writes rs hrs)))

pub length-frame : (r : Record) → length (frame r) ≡ 8 + length (record_bytes r)
unfolding frame
length-frame r = simp (length-append, length-le_bytes) (omega arith)

length-frames : (rs : List Record) → All IsRecord rs → length (frames rs) ≡ total_size rs
unfolding frames total_size
length-frames [] h = refl
length-frames (r ∷ rs) (hr, hrs) = omega (
  arith,
  length-append (frame r) (frames rs),
  length-frame r,
  size-length r hr,
  length-frames rs hrs,
)

-- encodeRecords fills its buffer with one frame for each record, in order.
pub encode_records-frames :
    (rs : List Record) → All IsRecord rs → encode_records rs ≡ ok (frames rs)
unfolding encode_records
encode_records-frames rs h = Writes-filled (put_frames-Writes rs h) (length-frames rs h)
