-- ===== src/Engine/Schedule.antt =====
-- compactor.go: scheduleCompaction, compactLevel and pickCompactionInputs. An int64 stands by its bit
-- pattern.
pub mod Pick
pub mod Sizes
pub mod Parted
pub mod Loaded
pub mod Picked
pub mod Removed
pub mod Levels
pub mod Next
pub mod Edited
pub mod Install
use ascent_db.Prelude.{
  ℕ, zero, suc, ◌+◌, ◌-◌, ◌*◌, ◌^◌, List, [], ◌∷◌, ◌++◌, length, drop, map, get_elem?, Option, none,
  some, set, Bool, true, false, ◌==◌, ltb, is_greater, if◌then◌else◌, Result, ok, panic, ◌>>=◌,
}
use mathlib.Core.Option as Option
use ascent_db.Bytes.Word.{u64}
use ascent_db.Bytes.Compare.{compare_bytes}
use ascent_db.Record.{Record}
use ascent_db.Meta.{TableMeta, DeletedTableMeta, VersionEdit}
use ascent_db.Meta.Versions.{take_file_num}
use ascent_db.Meta.Overlap.{key_range_of, find_overlapping}
use ascent_db.Sstable.Format.{Filter}
use ascent_db.Sstable.Search.{search}
use ascent_db.Merge.Drain.{all_of}
use ascent_db.Engine.{Engine}
use ascent_db.Engine.Snapshots.{oldest}
use ascent_db.Engine.Write.{log_and_apply}
use ascent_db.Engine.Compact.{CompactionOutput, write_compaction_output}

-- The fields of the engine that only compactions use.
pub record Compactor : Type 0 where
  pub engine : Engine
  pub is_compacting : Bool
  pub compact_pointer : List (List ℕ)

-- The arguments of the goroutine that runs compactLevel.
pub record CompactTask : Type 0 where
  pub level : ℕ
  pub inputs : List TableMeta
  pub out_file_num : ℕ

-- `xs[i]`
unfoldable pub index : {A : Type 0} → List A → ℕ → Result A
index xs i = elim (get_elem? xs i) [ none ↦ panic | some x ↦ ok x ]

-- `a < b` of two int64.
unfoldable pub signed_less : ℕ → ℕ → Bool
signed_less a b = ltb (u64 (a + 2 ^ 63)) (u64 (b + 2 ^ 63))

unfoldable pub add_sizes : ℕ → List TableMeta → ℕ
add_sizes total [] = total
add_sizes total (t ∷ ts) = add_sizes (u64 (total + t.file_size)) ts

unfoldable pub level_size : List TableMeta → ℕ
level_size tables = add_sizes 0 tables

-- `n` rounds of the loop.
unfoldable pub multiply : ℕ → ℕ → ℕ → ℕ
multiply level_multiplier zero cap = cap
multiply level_multiplier (suc n) cap = multiply level_multiplier n (u64 (cap * level_multiplier))

-- `tables[i].MinKey.UserKey` is behind the pointer; the search asks for indices in range only.
unfoldable pub is_behind : List ℕ → List TableMeta → ℕ → Bool
is_behind pointer tables i = elim (get_elem? tables i) [
  | none ↦ false
  | some t ↦ is_greater (compare_bytes t.min_key.user_key pointer)
]

-- The tables up to the one with which the size is reached.
unfoldable pub pick_from : ℕ → ℕ → List TableMeta → List TableMeta
pick_from target_size picked_size [] = []
pick_from target_size picked_size (t ∷ ts) =
    let rest = pick_from target_size (u64 (picked_size + t.file_size)) ts in
    if signed_less (u64 (picked_size + t.file_size)) target_size then t ∷ rest else t ∷ []

unfoldable pub next_tables : List ℕ → List TableMeta → List TableMeta
next_tables pointer tables = drop (search (length tables) (is_behind pointer tables)) tables

-- How much a level is above its capacity: `max(levelSize - levelCapacity, 0)`.
unfoldable pub excess : ℕ → ℕ → ℕ
excess size cap = let over = u64 (size + (2 ^ 64 - cap)) in if signed_less over 0 then 0 else over

unfoldable pub delete_of : TableMeta → DeletedTableMeta
delete_of t = record { level = t.level; file_num = t.file_num }

unfoldable pub install_edit : ℕ → List TableMeta → List TableMeta → VersionEdit
install_edit next_file_num all out_tables = record {
  add_tables = out_tables;
  delete_tables = map delete_of all;
  last_sequence = none;
  next_file_num = some next_file_num;
  log_number = none;
}

-- The key of the last of some tables is appended to the pointer of a level but level 0.
unfoldable pub last_table : TableMeta → List TableMeta → TableMeta
last_table t [] = t
last_table t (u ∷ ts) = last_table u ts

unfoldable pub advance_pointer : ℕ → List TableMeta → List (List ℕ) → Result (List (List ℕ))
advance_pointer zero inputs pointers = ok pointers
advance_pointer (suc l) [] pointers = ok pointers
advance_pointer (suc l) (t ∷ ts) pointers = do
  pointer ← index pointers (suc l)
  ok (set pointers (suc l) (pointer ++ (last_table t ts).max_key.user_key))

-- The inputs, and the tables of the next level in their range.
unfoldable pub all_inputs : List TableMeta → List TableMeta → List TableMeta
all_inputs inputs files =
    inputs ++ find_overlapping files (key_range_of inputs).0 (key_range_of inputs).1

-- The records of the tables, unless one of them cannot be opened.
unfoldable pub open_all :
    (TableMeta → Option (List Record)) → List TableMeta → Option (List (List Record))
open_all table_records [] = some []
open_all table_records (t ∷ ts) = elim (table_records t) [
  | none ↦ none
  | some rs ↦ Option.map (λ iters. rs ∷ iters) (open_all table_records ts)
]

-- The options MaxL0Files, MaxBytesBase and LevelMultiplier.
module _ (max_l0_files max_bytes_base level_multiplier : ℕ) where
  unfoldable pub level_capacity : ℕ → ℕ
  level_capacity level = multiply level_multiplier (level - 1) max_bytes_base

  unfoldable pub pick_behind : ℕ → List TableMeta → List ℕ → List TableMeta
  pick_behind level tables pointer =
      pick_from (excess (level_size tables) (level_capacity level)) 0 (next_tables pointer tables)

  unfoldable pub pick_compaction_inputs : Compactor → ℕ → Result (List TableMeta)
  pick_compaction_inputs c level = do
    tables ← index c.engine.vs.levels level
    if length tables == 0
        then ok []
        else if level == 0
        then ok tables
        else (do pointer ← index c.compact_pointer level; ok (pick_behind level tables pointer))

  -- The task that is started for a level.
  unfoldable pub start_task : Compactor → ℕ → Result (Option CompactTask × Compactor)
  start_task c level = do
    inputs ← pick_compaction_inputs c level
    let (num, vs) = take_file_num c.engine.vs
    ok (
      some (record { level = level; inputs = inputs; out_file_num = num }),
      record c { engine = record c.engine { vs = vs } },
    )

  -- The loop from `level` on, `n` levels.
  unfoldable pub schedule_levels : ℕ → ℕ → Compactor → Result (Option CompactTask × Compactor)
  schedule_levels zero level c = ok (none, record c { is_compacting = false })
  schedule_levels (suc n) level c = do
    let rest = schedule_levels n (suc level) c
    tables ← index c.engine.vs.levels level
    if signed_less (level_capacity level) (level_size tables) then start_task c level else rest

  unfoldable pub schedule_from :
      Compactor → List TableMeta → Result (Option CompactTask × Compactor)
  schedule_from c level0 =
      if signed_less (length level0) max_l0_files
      then schedule_levels (length c.engine.vs.levels - 2) 1 c
      else start_task c 0

  unfoldable pub schedule_compaction : Compactor → Result (Option CompactTask × Compactor)
  schedule_compaction c =
      let free = record c { is_compacting = true } in
      if c.is_compacting then ok (none, c) else (index c.engine.vs.levels 0 >>= schedule_from free)

  -- The edit that puts the output in the place of the tables `all`, and the next compaction.
  unfoldable pub install :
      Compactor → List TableMeta → CompactionOutput → Result (Option CompactTask × Compactor)
  install c all o = do
    let (num, vs) = take_file_num o.vs
    e ← log_and_apply (record c.engine { vs = vs }) (install_edit num all o.out_tables)
    schedule_compaction (record c { engine = e; is_compacting = false })

  -- The rest of compactLevel, with the iterators over the tables `all`, or none if one of them could
  -- not be opened: then the flag stays.
  unfoldable pub compact_tables :
      ℕ
      → Filter
      → ℕ
      → Compactor
      → CompactTask
      → List TableMeta
      → Option (List (List Record))
      → Result (Option CompactTask × Compactor)
  compact_tables block_size filter max_sstable_size c task all none = ok (none, c)
  compact_tables block_size filter max_sstable_size c task all (some iters) = do
    o ←
        write_compaction_output block_size filter max_sstable_size (suc task.level)
          (suc task.level == length c.engine.vs.levels - 1) (oldest c.engine.snapshots)
          (suc (length (all_of iters))) task.out_file_num c.engine.vs iters
    install c all o

  -- The task's table files are closed and removed behind this. Opening a table and its iterator are
  -- the argument `table_records`, with no value where the code returns.
  unfoldable pub compact_level :
      ℕ
      → Filter
      → ℕ
      → (TableMeta → Option (List Record))
      → Compactor
      → CompactTask
      → Result (Option CompactTask × Compactor)
  compact_level block_size filter max_sstable_size table_records c task = do
    files ← index c.engine.vs.levels (suc task.level)
    pointers ← advance_pointer task.level task.inputs c.compact_pointer
    let all : List TableMeta = all_inputs task.inputs files
    compact_tables block_size filter max_sstable_size (record c { compact_pointer = pointers }) task
        all (open_all table_records all)
