-- ===== src/Tests/Record.antt =====
-- Keys and records.
use ascent_db.Prelude.{
  ◌≡◌, ◌↔◌, refl, [], ◌∷◌, ◌++◌, ok, err, ◌>>=◌, corrupt_record, less, same, flip, replicate,
}
use ascent_db.Bytes.Reader.{need, get_le, get_bytes}
use ascent_db.Bytes.Word.{of_le_bytes, le_bytes}
use ascent_db.Bytes.Compare.{compare_bytes}
use ascent_db.Record.{compare, size}
use ascent_db.Record.Encode.{encode_record_into, record_bytes}
use ascent_db.Record.Decode.{decode_record}
use ascent_db.Record.RoundTrip.{decode_record-record_bytes, decode-encode_record_into}
use ascent_db.Record.Order.{compare_total_order}
use ascent_db.Tests.Data.{put_ab, del_c, put_ab-IsRecord}

put_ab_bytes :
    record_bytes put_ab
    ≡ 2 ∷ 0 ∷ 0 ∷ 0 ∷ b'a' ∷ b'b' ∷ 7 ∷ 0 ∷ 0 ∷ 0 ∷ 0 ∷ 0 ∷ 0 ∷ 0 ∷ 1 ∷ 1 ∷ 0 ∷ 0 ∷ 0 ∷ b'x' ∷ []
unfolding record_bytes le_bytes
put_ab_bytes = refl

-- A length field that points past the end.
decode_short : decode_record (9 ∷ 0 ∷ 0 ∷ 0 ∷ b'a' ∷ []) ≡ err corrupt_record
unfolding decode_record need get_le get_bytes of_le_bytes
decode_short = refl

newest_first : compare (record put_ab { value = [] }).internal_key del_c.internal_key ≡ less
unfolding compare compare_bytes
newest_first = refl

decode-encode_record_into_example :
    (encode_record_into (replicate (size put_ab) 0) put_ab >>= λ c. decode_record c.buf) ≡ ok put_ab
decode-encode_record_into_example = decode-encode_record_into put_ab put_ab-IsRecord

decode_record-record_bytes_example : decode_record (record_bytes put_ab ++ (1 ∷ 2 ∷ [])) ≡ ok put_ab
decode_record-record_bytes_example = decode_record-record_bytes put_ab (1 ∷ 2 ∷ []) put_ab-IsRecord

compare_total_order_example :
    let a = put_ab.internal_key in
    let b = del_c.internal_key in
    (compare b a ≡ flip (compare a b))
    × (compare a b ≡ less → compare b a ≡ less → compare a a ≡ less)
    × ((compare a b ≡ same) ↔ ((a.user_key ≡ b.user_key) × (a.seq_num ≡ b.seq_num)))
compare_total_order_example =
    compare_total_order put_ab.internal_key del_c.internal_key put_ab.internal_key
