-- ===== src/Sstable/Encode.antt =====
-- encodeFooter, encodeIndexEntry, encodeIndexBlock and EncodeFilter, with the bytes they produce.
use ascent_db.Prelude.{
  ℕ, ◌+◌, ◌≡◌, refl, arith, List, [], ◌∷◌, ◌++◌, length, length-append, All, Result, ok, ◌>>=◌, sym,
  suc,
}
use ascent_db.Bytes.Word.{u32, u64, le_bytes, length-le_bytes}
use ascent_db.Bytes.Writer.{
  Cursor, copy, put_u32, put_u64, put_u8, make, filled, Writes, Writes-ok, Writes-bind,
  Writes-filled, copy-Writes, put_u32-Writes, put_u64-Writes, put_u8-Writes,
}
use ascent_db.Record.{key_size}
use ascent_db.Record.Encode.{
  encode_internal_key, encode_internal_key-Writes, key_bytes, key_size-length, length-key_bytes,
}
use ascent_db.Sstable.Format.{Footer, IndexEntry, Filter, IsEntry, footer_size}

footer_fields : Footer → Cursor → Result Cursor
footer_fields f c = do
  c ← put_u64 f.index_offset c
  c ← put_u32 f.index_size c
  c ← put_u64 f.filter_offset c
  c ← put_u32 f.filter_size c
  put_u64 f.magic_num c

unfoldable pub encode_footer : Footer → Result (List ℕ)
unfolding footer_fields
encode_footer f = filled (footer_fields f (make footer_size))

entry_fields : IndexEntry → Cursor → Result Cursor
entry_fields e c = do
  c ← put_u64 e.block_offset c
  c ← put_u32 e.block_size c
  encode_internal_key e.separator_key c

unfoldable pub encode_index_entry : IndexEntry → Result (List ℕ)
unfolding entry_fields
encode_index_entry e = filled (entry_fields e (make (8 + 4 + key_size e.separator_key)))

-- The first loop of encodeIndexBlock: the encoded entries, and the total length.
encode_entries : List IndexEntry → Result (List (List ℕ))
encode_entries [] = ok []
encode_entries (e ∷ es) = do eb ← encode_index_entry e; rest ← encode_entries es; ok (eb ∷ rest)

index_total : List (List ℕ) → ℕ
index_total [] = 4
index_total (eb ∷ rest) = index_total rest + (4 + length eb)

-- The second loop: each entry behind its length.
put_entries : List (List ℕ) → Cursor → Result Cursor
put_entries [] c = ok c
put_entries (eb ∷ rest) c = do c ← put_u32 (length eb) c; c ← copy eb c; put_entries rest c

unfoldable pub encode_index_block : List IndexEntry → Result (List ℕ)
unfolding encode_entries index_total put_entries
encode_index_block es = do
  encoded ← encode_entries es
  filled (put_u32 (length es) (make (index_total encoded)) >>= put_entries encoded)

filter_fields : Filter → Cursor → Result Cursor
filter_fields f c = do
  c ← put_u32 (length f.bits) c
  c ← copy f.bits c
  c ← put_u32 f.m c
  put_u8 f.k c

unfoldable pub encode_filter : Filter → Result (List ℕ)
unfolding filter_fields
encode_filter f = filled (filter_fields f (make (4 + length f.bits + 4 + 1)))

-- The layouts that the comments of the source give.
unfoldable pub footer_bytes : Footer → List ℕ
footer_bytes f =
    le_bytes 8 (u64 f.index_offset)
    ++ (le_bytes 4 (u32 f.index_size)
        ++ (le_bytes 8 (u64 f.filter_offset)
            ++ (le_bytes 4 (u32 f.filter_size) ++ le_bytes 8 (u64 f.magic_num))))

unfoldable pub entry_bytes : IndexEntry → List ℕ
entry_bytes e =
    le_bytes 8 (u64 e.block_offset) ++ (le_bytes 4 (u32 e.block_size) ++ key_bytes e.separator_key)

unfoldable pub entries_bytes : List IndexEntry → List ℕ
entries_bytes [] = []
entries_bytes (e ∷ es) =
    le_bytes 4 (u32 (length (entry_bytes e))) ++ (entry_bytes e ++ entries_bytes es)

unfoldable pub index_bytes : List IndexEntry → List ℕ
index_bytes es = le_bytes 4 (u32 (length es)) ++ entries_bytes es

unfoldable pub filter_bytes : Filter → List ℕ
filter_bytes f =
    le_bytes 4 (u32 (length f.bits)) ++ (f.bits ++ (le_bytes 4 (u32 f.m) ++ (f.k ∷ [])))

pub encode_footer-bytes : (f : Footer) → encode_footer f ≡ ok (footer_bytes f)
unfolding encode_footer footer_bytes
encode_footer-bytes f =
    Writes-filled
      (Writes-bind (put_u64-Writes _) (
        Writes-bind (put_u32-Writes _)
          (Writes-bind (put_u64-Writes _) (Writes-bind (put_u32-Writes _) (put_u64-Writes _)))))
      (simp (length-append, length-le_bytes))

pub length-entry_bytes :
    (e : IndexEntry) → length (entry_bytes e) ≡ length e.separator_key.user_key + 25
unfolding entry_bytes
length-entry_bytes e = simp (length-append, length-le_bytes, length-key_bytes) (omega arith)

pub encode_index_entry-bytes :
    (e : IndexEntry) → IsEntry e → encode_index_entry e ≡ ok (entry_bytes e)
unfolding encode_index_entry entry_bytes
encode_index_entry-bytes e h =
    Writes-filled
      (Writes-bind (put_u64-Writes _)
        (Writes-bind (put_u32-Writes _) (encode_internal_key-Writes e.separator_key)))
      (simp (length-append, length-le_bytes)
        (omega (arith, key_size-length e.separator_key (omega arith))))

encode_entries-map :
    (es : List IndexEntry)
    → All IsEntry es
    → (bs : List (List ℕ)) × (encode_entries es ≡ ok bs)
      × (index_total bs ≡ length (index_bytes es))
      × Writes (put_entries bs) (entries_bytes es)
unfolding encode_entries index_total put_entries entries_bytes index_bytes
encode_entries-map [] h = ([], refl, simp (length-append, length-le_bytes), Writes-ok)
encode_entries-map (e ∷ es) (he, hes) =
    let (bs, encoded, total, writes) = encode_entries-map es hes in
    (
      entry_bytes e ∷ bs,
      rw (encode_index_entry-bytes e he, encoded),
      omega (
        arith,
        total,
        length-append (le_bytes 4 (u32 (length es))) (entries_bytes es),
        length-append (le_bytes 4 (u32 (suc (length es)))) (entries_bytes (e ∷ es)),
        length-append (le_bytes 4 (u32 (length (entry_bytes e))))
            (entry_bytes e ++ entries_bytes es),
        length-append (entry_bytes e) (entries_bytes es),
        length-le_bytes 4 (u32 (length es)),
        length-le_bytes 4 (u32 (suc (length es))),
        length-le_bytes 4 (u32 (length (entry_bytes e))),
      ),
      Writes-bind (put_u32-Writes _) (Writes-bind (copy-Writes _) writes),
    )

pub encode_index_block-bytes :
    (es : List IndexEntry) → All IsEntry es → encode_index_block es ≡ ok (index_bytes es)
unfolding encode_index_block index_bytes
encode_index_block-bytes es h =
    let (bs, encoded, total, writes) = encode_entries-map es h in
    rw (encoded) (Writes-filled (Writes-bind (put_u32-Writes _) writes) (sym total))

pub encode_filter-bytes : (f : Filter) → encode_filter f ≡ ok (filter_bytes f)
unfolding encode_filter filter_bytes
encode_filter-bytes f =
    Writes-filled
      (Writes-bind (put_u32-Writes _)
        (Writes-bind (copy-Writes _) (Writes-bind (put_u32-Writes _) (put_u8-Writes _))))
      (simp (length-append, length-le_bytes) (omega arith))
