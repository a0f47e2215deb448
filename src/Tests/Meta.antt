-- ===== src/Tests/Meta.antt =====
-- Tables, edits and the manifest.
use ascent_db.Prelude.{ℕ, ◌≡◌, ◌↔◌, arith, List, [], ◌∷◌, ◌++◌, length, All, none, some, ok, ◌>>=◌}
use mathlib.Core.List.{Memᴰ}
use ascent_db.Meta.{TableMeta, DeletedTableMeta, VersionEdit, VersionSet, IsTable, IsDeleted}
use ascent_db.Meta.Versions.{apply, level_of}
use ascent_db.Meta.Versions.Struck.{Left, Gained, apply-levels}
use ascent_db.Meta.Versions as Versions
use ascent_db.Meta.Overlap.{find_overlapping, Overlaps, find_overlapping_iff}
use ascent_db.Meta.Uvarint.{put_uvarint, read_uvarint, read_uvarint-Reads}
use ascent_db.Bytes.Reader.{Reads}
use ascent_db.Meta.Replay.{replay}
use ascent_db.Meta.Recovery.{write_edits, all_items, apply_items, replay-write_edits}
use ascent_db.Meta.Recovery as Recovery
use ascent_db.Tests.Data.{put_ab, del_c, put_ab-IsRecord, del_c-IsRecord}

abbrev table : TableMeta
table = record {
  file_num = 5;
  file_size = 4096;
  level = 0;
  min_key = put_ab.internal_key;
  max_key = del_c.internal_key;
}

abbrev moved : TableMeta
moved = record table { file_num = 8; level = 1 }

abbrev deletion : DeletedTableMeta
deletion = record { level = 0; file_num = 5 }

-- A flush, and a compaction of the flushed table into level 1.
abbrev flush : VersionEdit
flush = record {
  add_tables = table ∷ [];
  delete_tables = [];
  last_sequence = some 9;
  next_file_num = some 6;
  log_number = none;
}

abbrev compaction : VersionEdit
compaction = record {
  add_tables = moved ∷ [];
  delete_tables = deletion ∷ [];
  last_sequence = none;
  next_file_num = none;
  log_number = some 300;
}

abbrev empty : VersionSet
empty = record { levels = [] ∷ [] ∷ []; next_file_num = 1; last_seq_num = 0; log_num = 0 }

abbrev flushed : VersionSet
flushed = record empty { levels = (table ∷ []) ∷ [] ∷ [] }

table-IsTable : IsTable table
table-IsTable = record {
  min_ok = put_ab-IsRecord.key_ok;
  max_ok = del_c-IsRecord.key_ok;
  num_fits = omega arith;
  size_fits = omega arith;
  level_fits = omega arith;
  length_fits = omega arith;
}

moved-IsTable : IsTable moved
moved-IsTable = record {
  min_ok = put_ab-IsRecord.key_ok;
  max_ok = del_c-IsRecord.key_ok;
  num_fits = omega arith;
  size_fits = omega arith;
  level_fits = omega arith;
  length_fits = omega arith;
}

deletion-IsDeleted : IsDeleted deletion
deletion-IsDeleted = record { num_fits = omega arith; level_fits = omega arith }

read_uvarint-Reads_example : Reads read_uvarint (put_uvarint 300) (300, none)
read_uvarint-Reads_example = read_uvarint-Reads 300 (omega arith)

compaction-IsEdit : Versions.IsEdit 2 compaction
compaction-IsEdit = record { deletes_fit = (omega arith, tt); adds_fit = (omega arith, tt) }

apply-levels_example :
    (new : List (List TableMeta)) × (apply flushed compaction ≡ ok new)
    × (length new ≡ 2)
    × ((i : ℕ)
        → (kept : List TableMeta) × (gained : List TableMeta) × Left i
            (deletion ∷ [])
            (level_of i flushed.levels)
            kept
          × Gained i (moved ∷ []) gained
          × (level_of i new ≡ kept ++ gained))
apply-levels_example = apply-levels flushed compaction compaction-IsEdit

find_overlapping_iff_example :
    Memᴰ table (find_overlapping (moved ∷ table ∷ []) (97 ∷ []) (98 ∷ []))
    ↔ (Memᴰ table (moved ∷ table ∷ []) × Overlaps (97 ∷ []) (98 ∷ []) table)
find_overlapping_iff_example = find_overlapping_iff table (moved ∷ table ∷ []) (97 ∷ []) (98 ∷ [])

edits-IsEdit : All Recovery.IsEdit (flush ∷ compaction ∷ [])
unfolding Recovery.pointer_item
edits-IsEdit = (
  record {
    adds_ok = (table-IsTable, tt);
    deletes_ok = tt;
    log_fits = tt;
    sequence_fits = (omega arith, tt);
    file_num_fits = (omega arith, tt);
  },
  (
    record {
      adds_ok = (moved-IsTable, tt);
      deletes_ok = (deletion-IsDeleted, tt);
      log_fits = (omega arith, tt);
      sequence_fits = tt;
      file_num_fits = tt;
    },
    tt,
  ),
)

replay-write_edits_example :
    (write_edits (flush ∷ compaction ∷ []) >>= replay empty)
    ≡ apply_items (all_items (flush ∷ compaction ∷ [])) empty
replay-write_edits_example = replay-write_edits (flush ∷ compaction ∷ []) empty edits-IsEdit
