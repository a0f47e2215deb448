-- ===== src/Record/RoundTrip.antt =====
-- Decoding what was encoded.
use ascent_db.Prelude.{
  ℕ, ◌≡◌, refl, arith, List, [], ◌++◌, length, append-nil, ok, ◌>>=◌, replicate, length-replicate,
}
use ascent_db.Bytes.Reader.{
  Reads, Reads-bind, Reads-end, take_u32-Reads, take_u64-Reads, take_u8-Reads, take_bytes-Reads,
  from_start-Reads,
}
use ascent_db.Record.{InternalKey, Record, size, IsKey, IsRecord}
use ascent_db.Record.Encode.{
  key_bytes, record_bytes, encode_record_into, encode_record_into-bytes, size-length,
}
use ascent_db.Record.Decode.{decode_internal_key, read_record, decode_record}

pub decode_internal_key-Reads :
    (k : InternalKey) → IsKey k → Reads decode_internal_key (key_bytes k) k
unfolding decode_internal_key key_bytes
decode_internal_key-Reads k h = Reads-bind _ (take_u32-Reads (length k.user_key) _ h.key_fits) (
    Reads-bind _ (take_bytes-Reads k.user_key _ refl) (
      Reads-bind _ (take_u64-Reads k.seq_num _ h.seq_fits)
        (Reads-end _ (take_u8-Reads k.typ _ h.typ_fits))))

read_record-Reads : (r : Record) → IsRecord r → Reads read_record (record_bytes r) r
unfolding read_record record_bytes
read_record-Reads r h = Reads-bind _ (take_u32-Reads (length r.user_key) _ h.key_ok.key_fits) (
    Reads-bind _ (take_bytes-Reads r.user_key _ refl) (
      Reads-bind _ (take_u64-Reads r.seq_num _ h.key_ok.seq_fits) (
        Reads-bind _ (take_u8-Reads r.typ _ h.key_ok.typ_fits) (
          Reads-bind _ (take_u32-Reads (length r.value) _ (omega arith))
            (Reads-end _ (take_bytes-Reads r.value _ refl))))))

-- DecodeRecord reads a record at the start of any slice that begins with its encoding.
pub decode_record-record_bytes :
    (r : Record) (rest : List ℕ) → IsRecord r → decode_record (record_bytes r ++ rest) ≡ ok r
unfolding decode_record
decode_record-record_bytes r rest h = from_start-Reads rest (read_record-Reads r h)

-- Encoding a record into a buffer of its `Size` fills the buffer, and decoding gives it back.
pub decode-encode_record_into :
    (r : Record)
    → IsRecord r
    → (encode_record_into (replicate (size r) 0) r >>= λ c. decode_record c.buf) ≡ ok r
decode-encode_record_into r h =
    rw (size-length r h, encode_record_into-bytes _ r (length-replicate _ 0))
      (rw (append-nil) at (decode_record-record_bytes r [] h))
