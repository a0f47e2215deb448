-- ===== src/Batch.antt =====
-- internal/batch: the records of a batch write. The sequence numbers are set when it is written.
use ascent_db.Prelude.{ℕ, ◌+◌, ◌≡◌, ◌∙◌, arith, List, [], ◌∷◌, ◌++◌, length, All, ok, length-append}
use ascent_db.Record.{Record, size, type_put, type_del, IsRecord}
use ascent_db.Wal.Encode.{encode_records, encode_records-frames, frames, frame, length-frame}
use ascent_db.Record.Encode.{size-length}

pub record Batch : Type 0 where
  pub recs : List Record

abbrev pub new : Batch
new = record { recs = [] }

unfoldable pub put : List ℕ → List ℕ → Batch → Batch
put key value b = record {
  recs =
      b.recs
      ++ (record {
        internal_key = record { user_key = key; seq_num = 0; typ = type_put };
        value = value;
      }
          ∷ []);
}

unfoldable pub delete : List ℕ → Batch → Batch
delete key b = record {
  recs =
      b.recs
      ++ (record {
        internal_key = record { user_key = key; seq_num = 0; typ = type_del };
        value = [];
      }
          ∷ []);
}

unfoldable pub len : Batch → ℕ
len b = length b.recs

unfoldable pub reset : Batch → Batch
reset b = record { recs = [] }

size_from : ℕ → List Record → ℕ
size_from total [] = total
size_from total (r ∷ rs) = size_from (total + (4 + size r + 4)) rs

-- Size: the loop adds to the total.
unfoldable pub batch_size : Batch → ℕ
unfolding size_from
batch_size b = size_from 0 b.recs

size_from-frames :
    (total : ℕ) (rs : List Record)
    → All IsRecord rs
    → size_from total rs ≡ total + length (frames rs)
unfolding size_from frames
size_from-frames total [] h = omega arith
size_from-frames total (r ∷ rs) (hr, hrs) =
    size_from-frames (total + (4 + size r + 4)) rs hrs
    ∙ omega (arith, length-append (frame r) (frames rs), length-frame r, size-length r hr)

-- The Size of a batch of records in range is the number of bytes that encodeRecords makes of it.
pub batch_size-encode_records :
    (b : Batch)
    → All IsRecord b.recs
    → (log : List ℕ) × (encode_records b.recs ≡ ok log) × (batch_size b ≡ length log)
unfolding batch_size
batch_size-encode_records b h =
    (frames b.recs, encode_records-frames b.recs h, size_from-frames 0 b.recs h ∙ omega arith)
