-- ===== src/Tests/Tables.antt =====
-- A table from its first Add to a Get.
use ascent_db.Prelude.{◌≡◌, refl, ap, arith, [], ◌∷◌, length, Option, ok, ◌>>=◌}
use ascent_db.Bytes.Checksum.{fnv64a}
use ascent_db.Record.{Record, size, key_size}
use ascent_db.Sstable.Filter as Filter
use ascent_db.Sstable.Writer.{TableWriter, create, flush_block, close, add, collect, write_block}
use ascent_db.Record.Encode.{record_bytes, key_bytes}
use ascent_db.Bytes.Word.{le_bytes}
use ascent_db.Sstable.Encode.{index_bytes, entries_bytes, entry_bytes}
use ascent_db.Sstable.Block.RoundTrip.{entry_frames, entry_frame, length-block_bytes}
use ascent_db.Sstable.Writer.Block.{SizeKept, write_block-bytes}
use ascent_db.Sstable.Writer.Invariant.{add_records}
use ascent_db.Sstable.Open.{TableReader, open_table}
use ascent_db.Sstable.Open.Written.{Fits}
use ascent_db.Sstable.Open.Answers.{get-open_table}
use ascent_db.Sstable.Reader.{get}
use ascent_db.Sstable.Reader.Lookup.{Answer}
use ascent_db.Tests.Data.{put_ab, del_c, put_ab-IsRecord, del_c-IsRecord}
use ascent_db.Tests.Lookup.{full, two_ordered}

abbrev w : TableWriter
w = record (create 4096 full) {
  entries = put_ab ∷ del_c ∷ [];
  current_block_size = 54;
  estimated_size = 38;
}

added : add_records (create 4096 full) (put_ab ∷ del_c ∷ []) ≡ ok w
unfolding add_records add collect create Filter.add Filter.add_loop Filter.set_bit fnv64a size
    key_size
added = refl

w-SizeKept : SizeKept w
unfolding entry_frames entry_frame record_bytes le_bytes create
w-SizeKept = refl

length-file : length (flush_block w).file ≡ 58
unfolding flush_block create
length-file = omega (
  arith,
  ap (λ p. length p.0) (write_block-bytes w w-SizeKept (put_ab-IsRecord, (del_c-IsRecord, tt))),
  length-block_bytes (put_ab ∷ del_c ∷ []),
  w-SizeKept,
)

length-index : length (index_bytes (flush_block w).index) ≡ 34
unfolding flush_block create write_block index_bytes entries_bytes entry_bytes key_bytes le_bytes
length-index = refl

fits : Fits (flush_block w)
unfolding flush_block create
fits = record {
  file_fits = omega (arith, length-file);
  index_fits = omega (arith, length-index);
  count_fits = omega arith;
  widths = omega arith;
  filter_fits = omega arith;
}

full-IsFilter : Filter.IsFilter full
full-IsFilter = omega arith

get-open_table_example :
    (t : TableReader) × ((close w >>= open_table 3) ≡ ok t)
    × (o : Option Record) × (get t.file t.filter t.index put_ab.internal_key ≡ ok o)
    × Answer put_ab.internal_key (put_ab ∷ del_c ∷ []) o
get-open_table_example =
    get-open_table 4096 full (put_ab ∷ del_c ∷ []) w 3 put_ab.internal_key full-IsFilter
      (put_ab-IsRecord, (del_c-IsRecord, tt)) two_ordered added fits
