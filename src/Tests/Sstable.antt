-- ===== src/Tests/Sstable.antt =====
-- Table files: footer, index, filter, blocks, writer.
use ascent_db.Prelude.{Bool, ℕ, ◌≡◌, refl, arith, List, [], ◌∷◌, ◌++◌, All, ok, true}
use ascent_db.Bytes.Word.{le_bytes}
use ascent_db.Record.Encode.{record_bytes}
use ascent_db.Record.{Record}
use ascent_db.Sstable.Format.{Footer, IndexEntry, Filter, magic}
use ascent_db.Sstable.Filter as Filter
use ascent_db.Sstable.Filter.Members.{contains-add_all, add_all, new_filter-IsFilter}
use ascent_db.Sstable.Block.{decode_block}
use ascent_db.Sstable.Block.RoundTrip.{entry_frames, entry_frame}
use ascent_db.Sstable.Writer.{TableWriter, create, write_block}
use ascent_db.Sstable.Writer.Block.{SizeKept, decode_block-write_block}
use ascent_db.Sstable.Writer.Invariant.{IsWriter, all_records, add_records, add_records-create}
use ascent_db.Tests.Data.{put_ab, del_c, put_ab-IsRecord, del_c-IsRecord}

abbrev footer : Footer
footer = record {
  index_offset = 4096;
  index_size = 300;
  filter_offset = 4396;
  filter_size = 1200;
  magic_num = magic;
}

abbrev entry : IndexEntry
entry = record { separator_key = put_ab.internal_key; block_offset = 0; block_size = 36 }

abbrev small_filter : Filter
small_filter = record { bits = 3 ∷ 128 ∷ []; m = 16; k = 2 }

contains-add_all_example :
    (f : Filter) × (add_all ((b'a' ∷ []) ∷ (b'b' ∷ []) ∷ []) (Filter.new_filter 20 3) ≡ ok f)
    × All (λ key. Filter.contains key f ≡ ok true) ((b'a' ∷ []) ∷ (b'b' ∷ []) ∷ [])
    × ((key : List ℕ) → (t : Bool) × (Filter.contains key f ≡ ok t))
contains-add_all_example =
    contains-add_all 20 3 ((b'a' ∷ []) ∷ (b'b' ∷ []) ∷ []) (omega arith) (omega arith)

abbrev pub writer : TableWriter
writer = record (create 4096 small_filter) {
  entries = put_ab ∷ del_c ∷ [];
  current_block_size = 54;
}

writer-SizeKept : SizeKept writer
unfolding entry_frames entry_frame record_bytes le_bytes create
writer-SizeKept = refl

pub decoded : decode_block (write_block writer).0 ≡ ok (put_ab ∷ del_c ∷ [])
decoded =
    decode_block-write_block writer writer-SizeKept (put_ab-IsRecord, (del_c-IsRecord, tt))
      (omega arith)

decode_block-write_block_example : decode_block (write_block writer).0 ≡ ok (put_ab ∷ del_c ∷ [])
decode_block-write_block_example =
    decode_block-write_block writer writer-SizeKept (put_ab-IsRecord, (del_c-IsRecord, tt))
      (omega arith)

add_records-create_example :
    (w : TableWriter) × (bs : List (List Record)) × (add_records
        (create 40 (Filter.new_filter 20 3))
        (put_ab ∷ del_c ∷ [])
      ≡ ok w)
    × IsWriter w bs
    × (all_records bs ++ w.entries ≡ put_ab ∷ del_c ∷ [])
add_records-create_example =
    add_records-create 40 (Filter.new_filter 20 3) (put_ab ∷ del_c ∷ [])
      (new_filter-IsFilter 20 3 (omega arith) (omega arith)) (put_ab-IsRecord, (del_c-IsRecord, tt))
