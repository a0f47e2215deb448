-- ===== src/Tests/Compact.antt =====
-- A compaction of three records.
use ascent_db.Prelude.{suc, ◌≤◌, ◌≡◌, ◌≢◌, arith, List, [], ◌∷◌, length, All, Option, true, ok}
use mathlib.Core.List.{Permᴰ}
use ascent_db.Record.{Record, IsRecord, size, key_size}
use ascent_db.Meta.{VersionSet}
use ascent_db.Sstable.Filter as Filter
use ascent_db.Sstable.Reader.Lookup.{Answer}
use ascent_db.Merge.Order.{Ascending}
use ascent_db.Merge.Drain.{all_of}
use ascent_db.Engine.Read.{live}
use ascent_db.Engine.Scan.Groups.{as_of}
use ascent_db.Engine.Compact.{CompactionOutput, drops, write_compaction_output}
use ascent_db.Engine.Compact.Survivors.{survivors}
use ascent_db.Engine.Compact.Output.{Tables, Room, concat}
use ascent_db.Engine.Compact.Reads.{write_compaction_output-Tables, write_compaction_output-live}
use ascent_db.Tests.Data.{put_ab, put_ab-IsRecord, del_c-IsRecord}
use ascent_db.Tests.Lookup.{full}
use ascent_db.Tests.Scan.{iters, iters-Ascending}

abbrev vs : VersionSet
vs = record { levels = [] ∷ [] ∷ []; next_file_num = 6; last_seq_num = 9; log_num = 1 }

pub full-IsFilter : Filter.IsFilter full
full-IsFilter = omega arith

pub iters-IsRecord : All IsRecord (all_of iters)
unfolding all_of
iters-IsRecord = (put_ab-IsRecord, (del_c-IsRecord, (omega arith, tt)))

iters-Room : All (Room 4096 full 4096 1 true 20) (all_of iters)
unfolding all_of size key_size
iters-Room = (omega arith, (omega arith, (omega arith, tt)))

write_compaction_output-Tables_example :
    (o : CompactionOutput) × (cs : List (List Record)) × (l : List Record)
    × (write_compaction_output 4096 full 4096 1 true 20 (suc (length (all_of iters))) 5 vs iters
        ≡ ok o)
    × Tables 4096 full 4096 1 true 20 o.out_tables o.files cs
    × Ascending l
    × Permᴰ (all_of iters) l
    × (concat cs ≡ survivors (drops 4096 full 4096 1 true 20) [] l)
write_compaction_output-Tables_example =
    write_compaction_output-Tables 4096 full 4096 1 true 20 full-IsFilter 5 vs iters iters-Ascending
      iters-IsRecord iters-Room (omega arith)

iters_older : All (λ r. r.seq_num ≤ 9) (all_of iters)
unfolding all_of
iters_older = (omega arith, (omega arith, (omega arith, tt)))

ab_ne : put_ab.user_key ≢ []
ab_ne e = cc e

write_compaction_output-live_example :
    (o : CompactionOutput) × (cs : List (List Record)) × (a : Option Record) × (b : Option Record)
    × (write_compaction_output 4096 full 4096 1 true 20 (suc (length (all_of iters))) 5 vs iters
        ≡ ok o)
    × Tables 4096 full 4096 1 true 20 o.out_tables o.files cs
    × Answer (as_of put_ab.user_key 9) (all_of iters) a
    × Answer (as_of put_ab.user_key 9) (concat cs) b
    × (live a ≡ live b)
write_compaction_output-live_example =
    write_compaction_output-live 4096 full 4096 1 true 20 full-IsFilter 5 vs iters put_ab.user_key 9
      iters-Ascending iters-IsRecord iters-Room (omega arith) ab_ne iters_older
