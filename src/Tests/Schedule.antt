-- ===== src/Tests/Schedule.antt =====
-- A compaction of level 0 into level 1.
use ascent_db.Prelude.{
  suc, map, ◌<◌, ◌-◌, ◌*◌, ◌^◌, ◌≡◌, ◌==◌, refl, arith, List, [], ◌∷◌, length, Option, none, some,
  true, if◌then◌else◌, ok,
}
use ascent_db.Record.{Record, size, key_size, compare}
use ascent_db.Merge.Order.{Ascending}
use ascent_db.Meta.Overlap.Apart.{Split}
use ascent_db.Bytes.Compare.{compare_bytes}
use ascent_db.Meta.{TableMeta}
use ascent_db.Memtable.Table as Table
use ascent_db.Merge.Drain.{all_of}
use ascent_db.Engine.Snapshots.{oldest}
use ascent_db.Engine.Compact.{CompactionOutput, write_compaction_output}
use ascent_db.Engine.Schedule.{Compactor, CompactTask, compact_level, pick_compaction_inputs}
use ascent_db.Engine.Schedule.Sizes.{bytes_of}
use ascent_db.Engine.Schedule.Parted.{Rising}
use ascent_db.Engine.Schedule.Picked.{Picked, pick_compaction_inputs-Picked}
use ascent_db.Engine.Schedule.Removed.{Distinct}
use ascent_db.Engine.Schedule.Edited.{IsTask, Installed}
use ascent_db.Engine.Schedule.Install.{IsReadable, compact_level-Installed}
use ascent_db.Tests.Data.{put_ab, del_c, put_ab-IsRecord, del_c-IsRecord}
use ascent_db.Tests.Lookup.{full, old_ab}
use ascent_db.Tests.Compact.{full-IsFilter}

abbrev upper : TableMeta
upper = record {
  file_num = 5;
  file_size = 90;
  level = 0;
  min_key = put_ab.internal_key;
  max_key = del_c.internal_key;
}

abbrev lower : TableMeta
lower = record {
  file_num = 3;
  file_size = 60;
  level = 1;
  min_key = old_ab.internal_key;
  max_key = old_ab.internal_key;
}

abbrev levels : List (List TableMeta)
levels = (upper ∷ []) ∷ (lower ∷ []) ∷ [] ∷ []

abbrev compactor : Compactor
compactor = record {
  engine = record {
    crash_recovery = true;
    memtable_size = 100;
    skiplist_max_level = 4;
    wal = [];
    mt = Table.new 100 4;
    immt = none;
    vs = record { levels = levels; next_file_num = 7; last_seq_num = 9; log_num = 1 };
    seq_num = 9;
    flush_chan = [];
    snapshots = [];
  };
  is_compacting = true;
  compact_pointer = [] ∷ [] ∷ [] ∷ [];
}

abbrev task : CompactTask
task = record { level = 0; inputs = upper ∷ []; out_file_num = 6 }

abbrev contents : TableMeta → List Record
contents t = if t.file_num == 5 then put_ab ∷ del_c ∷ [] else old_ab ∷ []

abbrev table_records : TableMeta → Option (List Record)
table_records t = some (contents t)

task-IsTask : IsTask levels task [] []
unfolding Distinct
task-IsTask = record {
  fits = omega arith;
  place = refl;
  apart = tt;
  inputs_at = (refl, tt);
  next_at = (refl, tt);
  next_distinct = (tt, tt);
}

upper-IsReadable : IsReadable table_records contents 4096 upper
unfolding Ascending compare compare_bytes size key_size
upper-IsReadable = record {
  opens = refl;
  ordered = ((refl, tt), (tt, tt));
  valid = (put_ab-IsRecord, (del_c-IsRecord, tt));
  room = (omega arith, (omega arith, tt));
}

lower-IsReadable : IsReadable table_records contents 4096 lower
unfolding Ascending size key_size
lower-IsReadable = record {
  opens = refl;
  ordered = (tt, tt);
  valid = (omega arith, tt);
  room = (omega arith, tt);
}

compact_level-Installed_example :
    (left : List TableMeta) × (used : List TableMeta) × (o : CompactionOutput) × (next : Option
      CompactTask)
    × (c' : Compactor) × Split (upper ∷ []) (lower ∷ []) left used
    × (write_compaction_output 4096 full 4096 1
          (1 == 2)
          (oldest [])
          (suc (length (all_of (map contents (upper ∷ used)))))
          6
          compactor.engine.vs
          (map contents (upper ∷ used))
        ≡ ok o)
    × (compact_level 4 1000 10 4096 full 4096 table_records compactor task ≡ ok (next, c'))
    × Installed levels task [] [] left o.out_tables c'.engine.vs.levels
compact_level-Installed_example =
    compact_level-Installed 4 1000 10 4096 full 4096 table_records contents full-IsFilter compactor
      task [] [] task-IsTask (λ e. cc e) (omega arith) (upper-IsReadable, (lower-IsReadable, tt))
      (omega arith)

level1-Rising : Rising (lower ∷ [])
unfolding Rising
level1-Rising = (tt, tt)

level1-fits : bytes_of (lower ∷ []) < 2 ^ 63
unfolding bytes_of
level1-fits = omega arith

pick_compaction_inputs-Picked_example :
    (inputs : List TableMeta) × (pick_compaction_inputs 4 10 10 compactor 1 ≡ ok inputs)
    × Picked [] (bytes_of (lower ∷ []) - 10 * 10 ^ 0) (lower ∷ []) inputs
pick_compaction_inputs-Picked_example =
    pick_compaction_inputs-Picked 4 10 10 compactor 0 [] (omega arith) refl level1-Rising
      level1-fits (omega arith) (omega arith)
