-- ===== src/Record/Decode.antt =====
-- DecodeInternalKey and DecodeRecord.
use ascent_db.Prelude.{ℕ, ◌≢◌, arith, List, Result, panic, corrupt_record}
use ascent_db.Bytes.Reader.{
  Read, return, ◌>>=◌, take_le, take_bytes, NoPanic, NoPanic-bind, NoPanic-return, NoPanic-take_le,
  NoPanic-take_bytes, from_start,
}
use ascent_db.Record.{InternalKey, Record}

-- DecodeInternalKey(src, off): the offset is the state of the reader.
unfoldable pub decode_internal_key : Read InternalKey
decode_internal_key = do
  key_length ← take_le 4 corrupt_record
  user_key ← take_bytes key_length corrupt_record
  seq ← take_le 8 corrupt_record
  typ ← take_le 1 corrupt_record
  return (record { user_key = user_key; seq_num = seq; typ = typ })

unfoldable pub read_record : Read Record
read_record = do
  key_length ← take_le 4 corrupt_record
  user_key ← take_bytes key_length corrupt_record
  seq ← take_le 8 corrupt_record
  typ ← take_le 1 corrupt_record
  val_len ← take_le 4 corrupt_record
  value ← take_bytes val_len corrupt_record
  return (record {
    internal_key = record { user_key = user_key; seq_num = seq; typ = typ };
    value = value;
  })

unfoldable pub decode_record : List ℕ → Result Record
unfolding read_record
decode_record b = from_start read_record b

pub decode_internal_key-NoPanic : NoPanic decode_internal_key
unfolding decode_internal_key
decode_internal_key-NoPanic = NoPanic-bind (NoPanic-take_le 4 _) λ n.
    NoPanic-bind (NoPanic-take_bytes n _) λ k.
      NoPanic-bind (NoPanic-take_le 8 _)
        λ s. NoPanic-bind (NoPanic-take_le 1 _) λ t. NoPanic-return _

read_record-NoPanic : NoPanic read_record
unfolding read_record
read_record-NoPanic = NoPanic-bind (NoPanic-take_le 4 _) λ n.
    NoPanic-bind (NoPanic-take_bytes n _) λ k. NoPanic-bind (NoPanic-take_le 8 _) λ s.
      NoPanic-bind (NoPanic-take_le 1 _) λ t.
        NoPanic-bind (NoPanic-take_le 4 _)
          λ m. NoPanic-bind (NoPanic-take_bytes m _) λ v. NoPanic-return _

-- On any input, however mutilated, DecodeRecord returns a record or an error.
pub decode_record-ne-panic : (b : List ℕ) → decode_record b ≢ panic
unfolding decode_record
decode_record-ne-panic b = ground (arith, read_record-NoPanic.run b 0)
