-- ===== src/Meta/RoundTrip.antt =====
-- Decoding table entries and deletions from the bytes that the encoders produce.
use ascent_db.Prelude.{◌≡◌, arith, length-append, ok, ◌>>=◌}
use ascent_db.Bytes.Word.{length-le_bytes}
use ascent_db.Bytes.Reader.{
  Reads, Reads-bind, Reads-end, Reads-need, Reads-skip, get_u32-Reads, get_u64-Reads,
  from_start-Reads_all,
}
use ascent_db.Record.RoundTrip.{decode_internal_key-Reads}
use ascent_db.Meta.{TableMeta, DeletedTableMeta, IsTable, IsDeleted}
use ascent_db.Meta.Encode.{
  encode_table_meta, encode_deleted_table, table_bytes, deleted_bytes, length-table_bytes,
  encode_table_meta-bytes, encode_deleted_table-bytes,
}
use ascent_db.Meta.Decode.{
  read_table_meta, decode_table_meta, read_deleted_table, decode_deleted_table,
}

table-Reads : (t : TableMeta) → IsTable t → Reads read_table_meta (table_bytes t) t
unfolding read_table_meta table_bytes
table-Reads t h = Reads-need 32 _ (omega (arith, length-table_bytes t)) (
    Reads-bind _ (Reads-skip _ (length-le_bytes 4 _)) (
      Reads-bind _ (get_u64-Reads t.file_num h.num_fits) (
        Reads-bind _ (get_u64-Reads t.file_size h.size_fits) (
          Reads-bind _ (get_u32-Reads t.level h.level_fits) (
            Reads-bind _ (Reads-skip _ (length-le_bytes 4 _)) (
              Reads-bind _ (decode_internal_key-Reads t.min_key h.min_ok) (
                Reads-bind _ (Reads-skip _ (length-le_bytes 4 _))
                  (Reads-end _ (decode_internal_key-Reads t.max_key h.max_ok)))))))))

pub decode_table_meta-table_bytes :
    (t : TableMeta) → IsTable t → decode_table_meta (table_bytes t) ≡ ok t
unfolding decode_table_meta
decode_table_meta-table_bytes t h = from_start-Reads_all (table-Reads t h)

-- decodeTableMeta gives back every table entry in range that encodeTableMeta wrote.
pub decode_table_meta-encode_table_meta :
    (t : TableMeta) → IsTable t → (encode_table_meta t >>= decode_table_meta) ≡ ok t
decode_table_meta-encode_table_meta t h =
    rw (encode_table_meta-bytes t h) (decode_table_meta-table_bytes t h)

deleted-Reads : (d : DeletedTableMeta) → IsDeleted d → Reads read_deleted_table (deleted_bytes d) d
unfolding read_deleted_table deleted_bytes
deleted-Reads d h = Reads-need 12 _ (simp (length-append, length-le_bytes) (omega arith)) (
    Reads-bind _ (get_u32-Reads d.level h.level_fits)
      (Reads-end _ (get_u64-Reads d.file_num h.num_fits)))

pub decode_deleted_table-deleted_bytes :
    (d : DeletedTableMeta) → IsDeleted d → decode_deleted_table (deleted_bytes d) ≡ ok d
unfolding decode_deleted_table
decode_deleted_table-deleted_bytes d h = from_start-Reads_all (deleted-Reads d h)

-- decodeDeletedTable gives back every deletion in range that encodeDeletedTable wrote.
pub decode_deleted_table-encode_deleted_table :
    (d : DeletedTableMeta) → IsDeleted d → (encode_deleted_table d >>= decode_deleted_table) ≡ ok d
decode_deleted_table-encode_deleted_table d h =
    rw (encode_deleted_table-bytes d) (decode_deleted_table-deleted_bytes d h)
