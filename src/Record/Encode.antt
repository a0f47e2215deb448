-- ===== src/Record/Encode.antt =====
-- EncodeInternalKey, EncodeRecordInto and EncodeRecordIntoWriter.
use ascent_db.Prelude.{
  ℕ, ◌+◌, ◌≡◌, arith, List, [], ◌∷◌, ◌++◌, length, length-append, append_assoc, Option, none, some,
  Result, ok, ◌>>=◌, Error,
}
use ascent_db.Bytes.Word.{u32, u64, le_bytes, length-le_bytes, IsU32}
use ascent_db.Bytes.Writer.{
  Cursor, copy, put_u32, put_u64, put_u8, Writes, Writes-bind, Writes-fill, copy-Writes,
  put_u32-Writes, put_u64-Writes, put_u8-Writes,
}
use ascent_db.Record.{InternalKey, Record, key_size, size, IsRecord}

-- EncodeInternalKey(dst, off, k): the cursor is `dst` with `off`, and the result's offset is what
-- the function returns.
unfoldable pub encode_internal_key : InternalKey → Cursor → Result Cursor
encode_internal_key k c = do
  c ← put_u32 (length k.user_key) c
  c ← copy k.user_key c
  c ← put_u64 k.seq_num c
  put_u8 k.typ c

-- EncodeRecordInto(dst, r): the filled `dst` with the returned offset.
unfoldable pub encode_record_into : List ℕ → Record → Result Cursor
encode_record_into dst r = do
  c ← put_u32 (length r.user_key) (record { buf = dst; off = 0 })
  c ← copy r.user_key c
  c ← put_u64 r.seq_num c
  c ← put_u8 r.typ c
  c ← put_u32 (length r.value) c
  copy r.value c

-- The layout of the comment in the source, as plain concatenation.
unfoldable pub key_bytes : InternalKey → List ℕ
key_bytes k =
    le_bytes 4 (u32 (length k.user_key))
    ++ (k.user_key ++ (le_bytes 8 (u64 k.seq_num) ++ (k.typ ∷ [])))

unfoldable pub record_bytes : Record → List ℕ
record_bytes r =
    le_bytes 4 (u32 (length r.user_key))
    ++ (r.user_key
        ++ (le_bytes 8 (u64 r.seq_num)
            ++ ((r.typ ∷ []) ++ (le_bytes 4 (u32 (length r.value)) ++ r.value))))

-- An io.Writer: what it holds, the bytes that a Write took, and its error.
module _ {S : Type 0} (write : List ℕ → S → S × ℕ × Option Error) where
  -- `n, err = w.Write(chunk); totalWritten += n; if err != nil { return totalWritten, err }`
  unfoldable pub write_chunks : List (List ℕ) → S → ℕ → S × ℕ × Option Error
  write_chunks [] w total = (w, total, none)
  write_chunks (chunk ∷ chunks) w total =
      let (w', n, e) = write chunk w in
      elim e [ some x ↦ (w', total + n, some x) | none ↦ write_chunks chunks w' (total + n) ]

  unfoldable pub encode_record_into_writer : S → Record → S × ℕ × Option Error
  unfolding write_chunks
  encode_record_into_writer w r =
      write_chunks
        (le_bytes 4 (u32 (length r.user_key))
          ∷ r.user_key
          ∷ le_bytes 8 (u64 r.seq_num)
          ∷ (r.typ ∷ [])
          ∷ le_bytes 4 (u32 (length r.value))
          ∷ r.value
          ∷ [])
        w 0

pub length-key_bytes : (k : InternalKey) → length (key_bytes k) ≡ length k.user_key + 13
unfolding key_bytes
length-key_bytes k = simp (length-append, length-le_bytes) (omega arith)

pub length-record_bytes :
    (r : Record) → length (record_bytes r) ≡ length r.user_key + length r.value + 17
unfolding record_bytes
length-record_bytes r = simp (length-append, length-le_bytes) (omega arith)

-- `Size` is the length of the encoding.
pub size-length : (r : Record) → IsRecord r → size r ≡ length (record_bytes r)
unfolding size key_size
size-length r h = omega (arith, length-record_bytes r)

pub key_size-length :
    (k : InternalKey) → IsU32 (length k.user_key + 13) → key_size k ≡ length (key_bytes k)
unfolding key_size
key_size-length k h = omega (arith, length-key_bytes k)

pub encode_internal_key-Writes : (k : InternalKey) → Writes (encode_internal_key k) (key_bytes k)
unfolding encode_internal_key key_bytes
encode_internal_key-Writes k =
    Writes-bind (put_u32-Writes _)
      (Writes-bind (copy-Writes _) (Writes-bind (put_u64-Writes _) (put_u8-Writes _)))

record-Writes :
    (r : Record)
    → Writes
        (λ c. do
          c ← put_u32 (length r.user_key) c
          c ← copy r.user_key c
          c ← put_u64 r.seq_num c
          c ← put_u8 r.typ c
          c ← put_u32 (length r.value) c
          copy r.value c)
        (record_bytes r)
unfolding record_bytes
record-Writes r = Writes-bind (put_u32-Writes _) (
    Writes-bind (copy-Writes _) (
      Writes-bind (put_u64-Writes _)
        (Writes-bind (put_u8-Writes _) (Writes-bind (put_u32-Writes _) (copy-Writes _)))))

-- A buffer of the record's length is filled with the record's encoding.
pub encode_record_into-bytes :
    (dst : List ℕ) (r : Record)
    → length dst ≡ length (record_bytes r)
    → encode_record_into dst r ≡ ok (record { buf = record_bytes r; off = length (record_bytes r) })
unfolding encode_record_into
encode_record_into-bytes dst r e = Writes-fill dst (record-Writes r) e

-- bufio.Writer over a file that takes every write: it never fails.
abbrev pub append_write : List ℕ → List ℕ → List ℕ × ℕ × Option Error
append_write chunk w = (w ++ chunk, length chunk, none)

-- On a writer that takes every byte, EncodeRecordIntoWriter appends the bytes that EncodeRecordInto
-- stores, and returns their number.
pub encode_record_into_writer-bytes :
    (w : List ℕ) (r : Record)
    → encode_record_into_writer append_write w r
      ≡ (w ++ record_bytes r, length (record_bytes r), none)
unfolding encode_record_into_writer record_bytes
encode_record_into_writer-bytes w r = λ i. (written i, total i, none)
  where
    written :
        w
          ++ le_bytes 4 (u32 (length r.user_key))
          ++ r.user_key
          ++ le_bytes 8 (u64 r.seq_num)
          ++ (r.typ ∷ [])
          ++ le_bytes 4 (u32 (length r.value))
          ++ r.value
        ≡ w ++ record_bytes r
    written = simp append_assoc

    total :
        0
          + length (le_bytes 4 (u32 (length r.user_key)))
          + length r.user_key
          + length (le_bytes 8 (u64 r.seq_num))
          + 1
          + length (le_bytes 4 (u32 (length r.value)))
          + length r.value
        ≡ length (record_bytes r)
    total = simp (length-append, length-le_bytes) (omega arith)
