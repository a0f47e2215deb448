-- ===== src/Engine/Compact.antt =====
-- compactor.go: writeCompactionOutput. The files that it creates are new, and their writes succeed.
pub mod Survivors
pub mod Sizes
pub mod Output
pub mod Loop
pub mod Reads
use ascent_db.Prelude.{
  ℕ, zero, suc, List, [], ◌∷◌, ◌++◌, length, Option, none, some, Bool, true, false, ◌&&◌, ◌==◌, ltb,
  leb, if◌then◌else◌, Result, ok, panic, ◌>>=◌,
}
use ascent_db.Bytes.Compare.{equal_bytes}
use ascent_db.Record.{InternalKey, Record, type_del}
use ascent_db.Memtable.{zero_key}
use ascent_db.Meta.{TableMeta, VersionSet}
use ascent_db.Meta.Versions.{take_file_num}
use ascent_db.Sstable.Format.{Filter}
use ascent_db.Sstable.Writer.{TableWriter, create}
use ascent_db.Sstable.Writer as Writer
use ascent_db.Merge.{Item, new_iterator_heap, empty, merge_record, pop_and_advance}

-- The variables of the function. `files` are the files that were closed, by their numbers.
pub record CompactionOutput : Type 0 where
  pub writer : Option TableWriter
  pub file_num : ℕ
  pub vs : VersionSet
  pub out_tables : List TableMeta
  pub files : List (ℕ × List ℕ)
  pub first : Bool
  pub first_key : InternalKey
  pub last_key : InternalKey
  pub last_user_key : List ℕ

-- The variables at the start.
unfoldable pub empty_output : ℕ → VersionSet → CompactionOutput
empty_output file_num vs = record {
  writer = none;
  file_num = file_num;
  vs = vs;
  out_tables = [];
  files = [];
  first = true;
  first_key = zero_key;
  last_key = zero_key;
  last_user_key = [];
}

-- The options, the level of the output, whether it is the last one, and the oldest open snapshot.
module _ (block_size : ℕ) (filter : Filter) (max_sstable_size : ℕ) (level : ℕ)
    (is_bottom_level : Bool) (oldest_snap : ℕ) where
  unfoldable pub open_writer : CompactionOutput → CompactionOutput
  open_writer o = record o { writer = some (create block_size filter); first = true }

  -- The entry of a table that was closed.
  unfoldable pub out_table : CompactionOutput → List ℕ → TableMeta
  out_table o file = record {
    file_num = o.file_num;
    file_size = length file;
    level = level;
    min_key = o.first_key;
    max_key = o.last_key;
  }

  unfoldable pub close_some : CompactionOutput → TableWriter → Result CompactionOutput
  close_some o w = do
    file ← Writer.close w
    ok (record o {
      writer = none;
      out_tables = o.out_tables ++ (out_table o file ∷ []);
      files = o.files ++ ((o.file_num, file) ∷ []);
      file_num = (take_file_num o.vs).0;
      vs = (take_file_num o.vs).1;
    })

  unfoldable pub close_writer : CompactionOutput → Result CompactionOutput
  close_writer o = elim o.writer [ none ↦ ok o | some w ↦ close_some o w ]

  -- The test of the size. The merge has not moved on, so that it is still valid.
  unfoldable pub close_if_full : CompactionOutput → TableWriter → Result CompactionOutput
  close_if_full o w =
      if leb max_sstable_size w.estimated_size
      then (do o' ← close_writer o; ok (open_writer o'))
      else ok o

  unfoldable pub extended : CompactionOutput → InternalKey → CompactionOutput
  extended o k = record o {
    first_key = if o.first then k else o.first_key;
    first = false;
    last_key = k;
  }

  unfoldable pub add_to : CompactionOutput → Record → TableWriter → Result CompactionOutput
  add_to o rec w = do
    w' ← Writer.add w rec
    close_if_full (record (extended o rec.internal_key) { writer = some w' }) w'

  -- A record that is kept.
  unfoldable pub keep : CompactionOutput → Record → Result CompactionOutput
  keep o rec = elim o.writer [ none ↦ panic | some w ↦ add_to o rec w ]

  unfoldable pub drops : Record → Bool
  drops rec = (rec.typ == type_del) && (is_bottom_level && ltb rec.seq_num oldest_snap)

  -- One round of the loop, without the step of the merge.
  unfoldable pub round : CompactionOutput → Record → Result CompactionOutput
  round o rec =
      if equal_bytes rec.user_key o.last_user_key
      then ok o
      else if drops rec
      then ok (record o { last_user_key = rec.user_key })
      else keep (record o { last_user_key = rec.user_key }) rec

  -- The loop, at most `fuel` rounds.
  unfoldable pub merge_loop : ℕ → List Item → CompactionOutput → Result CompactionOutput
  merge_loop zero heap o = panic
  merge_loop (suc fuel) heap o = if empty heap then ok o else (do
    rec ← merge_record heap
    o' ← round o rec
    merge_loop fuel (pop_and_advance heap).1 o')

  -- Behind the loop: a table without records is removed.
  unfoldable pub finish : CompactionOutput → Result CompactionOutput
  finish o = if o.first then ok (record o { writer = none }) else close_writer o

  unfoldable pub start_output : ℕ → VersionSet → CompactionOutput
  unfolding empty_output
  start_output file_num vs = open_writer (empty_output file_num vs)

  unfoldable pub write_compaction_output :
      ℕ → ℕ → VersionSet → List (List Record) → Result CompactionOutput
  write_compaction_output fuel file_num vs iters = do
    o ← merge_loop fuel (new_iterator_heap iters) (start_output file_num vs)
    finish o
