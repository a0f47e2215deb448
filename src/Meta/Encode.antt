-- ===== src/Meta/Encode.antt =====
-- encodeTableMeta, encodeDeletedTable and encodeVersionEdit, with the bytes they produce.
use ascent_db.Prelude.{
  ℕ, ◌+◌, ◌≡◌, sym, ap, arith, List, [], ◌∷◌, ◌++◌, length, length-append, Option, none, some,
  Result, ok, ◌>>=◌,
}
use ascent_db.Bytes.Word.{u32, u64, le_bytes, length-le_bytes}
use ascent_db.Bytes.Writer.{
  Cursor, put_u32, put_u64, make, filled, Writes-bind, Writes-filled, put_u32-Writes,
  put_u64-Writes,
}
use ascent_db.Record.{key_size}
use ascent_db.Record.Encode.{
  encode_internal_key, encode_internal_key-Writes, key_bytes, key_size-length, length-key_bytes,
}
use ascent_db.Meta.{
  TableMeta, DeletedTableMeta, VersionEdit, table_meta_size, tag_add_table, tag_delete_table,
  tag_last_sequence, tag_next_file_num, tag_log_num, IsTable,
}
use ascent_db.Meta.Uvarint.{put_uvarint}

-- `minKeySize`, `maxKeySize` and `totalSize`.
total_size : TableMeta → ℕ
total_size t = table_meta_size + key_size t.min_key + key_size t.max_key

table_fields : TableMeta → Cursor → Result Cursor
table_fields t c = do
  c ← put_u32 (total_size t) c
  c ← put_u64 t.file_num c
  c ← put_u64 t.file_size c
  c ← put_u32 t.level c
  c ← put_u32 (key_size t.min_key) c
  c ← encode_internal_key t.min_key c
  c ← put_u32 (key_size t.max_key) c
  encode_internal_key t.max_key c

unfoldable pub encode_table_meta : TableMeta → Result (List ℕ)
unfolding total_size table_fields
encode_table_meta t = filled (table_fields t (make (total_size t)))

deleted_fields : DeletedTableMeta → Cursor → Result Cursor
deleted_fields d c = do c ← put_u32 d.level c; put_u64 d.file_num c

unfoldable pub encode_deleted_table : DeletedTableMeta → Result (List ℕ)
unfolding deleted_fields
encode_deleted_table d = filled (deleted_fields d (make (4 + 8)))

-- The first loop of encodeVersionEdit.
unfoldable pub write_adds : List TableMeta → Result (List ℕ)
write_adds [] = ok []
write_adds (t ∷ ts) = do
  b ← encode_table_meta t
  rest ← write_adds ts
  ok (put_uvarint tag_add_table ++ (b ++ rest))

unfoldable pub write_deletes : List DeletedTableMeta → Result (List ℕ)
write_deletes [] = ok []
write_deletes (d ∷ ds) = do
  b ← encode_deleted_table d
  rest ← write_deletes ds
  ok (put_uvarint tag_delete_table ++ (b ++ rest))

-- A number that is written if the pointer is not nil.
unfoldable pub write_pointer : ℕ → Option ℕ → List ℕ
write_pointer tag none = []
write_pointer tag (some n) = put_uvarint tag ++ put_uvarint n

unfoldable pub encode_version_edit : VersionEdit → Result (List ℕ)
encode_version_edit edit = do
  adds ← write_adds edit.add_tables
  deletes ← write_deletes edit.delete_tables
  ok (
      adds
      ++ (deletes
          ++ (write_pointer tag_log_num edit.log_number
              ++ (write_pointer tag_last_sequence edit.last_sequence
                  ++ write_pointer tag_next_file_num edit.next_file_num))))

-- The layouts that the comments of the source give.
unfoldable pub fields_bytes : TableMeta → List ℕ
fields_bytes t =
    le_bytes 8 (u64 t.file_num)
    ++ (le_bytes 8 (u64 t.file_size)
        ++ (le_bytes 4 (u32 t.level)
            ++ (le_bytes 4 (u32 (key_size t.min_key))
                ++ (key_bytes t.min_key
                    ++ (le_bytes 4 (u32 (key_size t.max_key)) ++ key_bytes t.max_key)))))

unfoldable pub table_bytes : TableMeta → List ℕ
unfolding fields_bytes
table_bytes t =
    le_bytes 4 (u32 (table_meta_size + key_size t.min_key + key_size t.max_key)) ++ fields_bytes t

unfoldable pub deleted_bytes : DeletedTableMeta → List ℕ
deleted_bytes d = le_bytes 4 (u32 d.level) ++ le_bytes 8 (u64 d.file_num)

pub length-table_bytes :
    (t : TableMeta)
    → length (table_bytes t) ≡ length t.min_key.user_key + length t.max_key.user_key + 58
unfolding table_bytes
length-table_bytes t = simp (length-append, length-le_bytes, length-key_bytes) (omega arith)

total_size-length : (t : TableMeta) → IsTable t → total_size t ≡ length (table_bytes t)
unfolding total_size
total_size-length t h = omega (
  arith,
  length-table_bytes t,
  h.length_fits,
  length-key_bytes t.min_key,
  length-key_bytes t.max_key,
  key_size-length t.min_key (omega (arith, h.length_fits)),
  key_size-length t.max_key (omega (arith, h.length_fits)),
)

-- An entry starts with its own length.
pub table_bytes-sized :
    (t : TableMeta)
    → IsTable t
    → (tail : List ℕ) × (table_bytes t ≡ le_bytes 4 (u32 (length (table_bytes t))) ++ tail)
unfolding table_bytes total_size
table_bytes-sized t h =
    (fields_bytes t, ap (λ n. le_bytes 4 (u32 n) ++ fields_bytes t) (total_size-length t h))

pub encode_table_meta-bytes : (t : TableMeta) → IsTable t → encode_table_meta t ≡ ok (table_bytes t)
unfolding encode_table_meta table_bytes
encode_table_meta-bytes t h =
    Writes-filled
      (Writes-bind (put_u32-Writes _) (
        Writes-bind (put_u64-Writes _) (
          Writes-bind (put_u64-Writes _) (
            Writes-bind (put_u32-Writes _) (
              Writes-bind (put_u32-Writes _) (
                Writes-bind (encode_internal_key-Writes t.min_key)
                  (Writes-bind (put_u32-Writes _) (encode_internal_key-Writes t.max_key))))))))
      (sym (total_size-length t h))

pub length-deleted_bytes : (d : DeletedTableMeta) → length (deleted_bytes d) ≡ 12
unfolding deleted_bytes
length-deleted_bytes d = simp (length-append, length-le_bytes)

pub encode_deleted_table-bytes :
    (d : DeletedTableMeta) → encode_deleted_table d ≡ ok (deleted_bytes d)
unfolding encode_deleted_table deleted_bytes
encode_deleted_table-bytes d =
    Writes-filled (Writes-bind (put_u32-Writes _) (put_u64-Writes _))
      (simp (length-append, length-le_bytes))
