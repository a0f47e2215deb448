-- ===== src/Tests/Read.antt =====
-- An engine with a record in the memtable and two tables, and a merge.
use ascent_db.Prelude.{
  ℕ, suc, ◌≡◌, ◌==◌, refl, arith, List, [], ◌∷◌, ◌++◌, length, Option, some, none, true, ok, All,
  if◌then◌else◌,
}
use mathlib.Core.List.{Permᴰ}
use ascent_db.Bytes.Compare.{compare_bytes}
use ascent_db.Record.{Record, compare, type_put}
use ascent_db.Meta.{TableMeta}
use ascent_db.Sstable.Reader.{Sorted}
use ascent_db.Sstable.Reader.Lookup.{Answer, first, first-Answer}
use ascent_db.Memtable.Table.{Memtable}
use ascent_db.Memtable.History.{Holds, put-Holds, new-Holds}
use ascent_db.Engine.{Engine}
use ascent_db.Engine.Read.{TableGet, get, live}
use ascent_db.Engine.Levels.{Reads, Pile, Run, Below}
use ascent_db.Engine.Lookup.{Stores, get-newest}
use ascent_db.Merge.{new_iterator_heap, drain}
use ascent_db.Merge.Order.{Ascending}
use ascent_db.Merge.Drain.{all_of, drain-Ascending}
use ascent_db.Tests.Data.{put_ab, del_c}
use ascent_db.Tests.Lookup.{old_ab}

abbrev pub oldest_ab : Record
oldest_ab = record {
  internal_key = record { user_key = put_ab.user_key; seq_num = 2; typ = type_put };
  value = b'z' ∷ [];
}

-- The table 1 holds `old_ab`, the others `oldest_ab`.
abbrev pub table_get : TableGet
table_get t key =
    if t.file_num == 1 then some (first key (old_ab ∷ [])) else some (first key (oldest_ab ∷ []))

abbrev pub table_meta : ℕ → ℕ → Record → TableMeta
table_meta file_num level r = record {
  file_num = file_num;
  file_size = 100;
  level = level;
  min_key = r.internal_key;
  max_key = r.internal_key;
}

pub mt_holds : (m : Memtable) × Holds m (put_ab ∷ [])
mt_holds = let (m, e, h) = put-Holds put_ab (true ∷ []) (new-Holds 100 2 (omega arith)) tt in (m, h)

abbrev pub engine : Engine
engine = record {
  crash_recovery = true;
  memtable_size = 100;
  skiplist_max_level = 2;
  wal = [];
  mt = mt_holds.0;
  immt = none;
  vs = record {
    levels = (table_meta 1 0 old_ab ∷ []) ∷ (table_meta 2 1 oldest_ab ∷ []) ∷ [];
    next_file_num = 3;
    last_seq_num = 9;
    log_num = 0;
  };
  seq_num = 9;
  flush_chan = [];
  snapshots = [];
}

old_ab-Reads : Reads table_get (table_meta 1 0 old_ab) (old_ab ∷ [])
old_ab-Reads key =
    (first key (old_ab ∷ []), refl, first-Answer key (old_ab ∷ []) (unfold Sorted in (tt, tt)))

oldest_ab-Reads : Reads table_get (table_meta 2 1 oldest_ab) (oldest_ab ∷ [])
oldest_ab-Reads key = (
  first key (oldest_ab ∷ []),
  refl,
  first-Answer key (oldest_ab ∷ []) (unfold Sorted in (tt, tt)),
)

pub stores : Stores table_get engine (put_ab ∷ []) [] (old_ab ∷ []) (oldest_ab ∷ [])
unfolding compare_bytes Sorted
stores = record {
  in_mt = mt_holds.1;
  in_immt = refl;
  level0 = table_meta 1 0 old_ab ∷ [];
  below = (table_meta 2 1 oldest_ab ∷ []) ∷ [];
  levels_eq = refl;
  in_level0 = Pile.table old_ab-Reads (refl, tt) Pile.nothing;
  in_below =
      Below.level (Run.table [] oldest_ab oldest_ab-Reads refl Run.nothing) (tt, tt) (tt, tt)
        Below.nothing;
  recent_newer = (((λ e. omega arith), ((λ e. omega arith), tt)), tt);
  rotated_newer = tt;
  top_newer = (((λ e. omega arith), tt), tt);
}

get-newest_example :
    (o : Option Record) × (get table_get engine put_ab.user_key 100 ≡ ok (live o))
    × Answer
        (record { user_key = put_ab.user_key; seq_num = 100; typ = 0 })
        ((put_ab ∷ []) ++ ([] ++ ((old_ab ∷ []) ++ (oldest_ab ∷ []))))
        o
get-newest_example = get-newest put_ab.user_key 100 stores

ordered : All Ascending ((put_ab ∷ del_c ∷ []) ∷ (old_ab ∷ []) ∷ [])
unfolding Ascending compare compare_bytes
ordered = (((refl, tt), (tt, tt)), ((tt, tt), tt))

drain-Ascending_example :
    (l : List Record) × (drain
        (suc (length (all_of ((put_ab ∷ del_c ∷ []) ∷ (old_ab ∷ []) ∷ []))))
        (new_iterator_heap ((put_ab ∷ del_c ∷ []) ∷ (old_ab ∷ []) ∷ []))
      ≡ ok l)
    × Ascending l
    × Permᴰ (all_of ((put_ab ∷ del_c ∷ []) ∷ (old_ab ∷ []) ∷ [])) l
drain-Ascending_example = drain-Ascending ((put_ab ∷ del_c ∷ []) ∷ (old_ab ∷ []) ∷ []) ordered
