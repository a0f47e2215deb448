-- ===== src/Engine/Schedule/Next.antt =====
-- scheduleCompaction ends without a panic, and leaves the levels as they are.
use ascent_db.Prelude.{
  ℕ, zero, suc, ◌+◌, ◌-◌, ◌≤◌, ◌<◌, ◌≡◌, refl, arith, List, length, Option, Bool, true, false,
  if◌then◌else◌, Result, ok,
}
use ascent_db.Meta.{TableMeta}
use ascent_db.Meta.Versions.{level_of, take_file_num}
use ascent_db.Engine.Schedule.{
  Compactor, CompactTask, signed_less, level_size, level_capacity, start_task, schedule_levels,
  schedule_from, schedule_compaction,
}
use ascent_db.Engine.Schedule.Pick.{index-level_of, pick_compaction_inputs-Stretch}

-- There is a result, and its levels are these.
pub data Scheduled (levels : List (List TableMeta))
    : Result (Option CompactTask × Compactor) → Type 0 where
  scheduled :
      {task : Option CompactTask} {c : Compactor}
      → c.engine.vs.levels ≡ levels
      → Scheduled levels (ok (task, c))

pub Scheduled-ok :
    {levels : List (List TableMeta)} {m : Result (Option CompactTask × Compactor)}
    → Scheduled levels m
    → (task : Option CompactTask) × (c : Compactor) × (m ≡ ok (task, c))
      × (c.engine.vs.levels ≡ levels)
Scheduled-ok (scheduled {task} {c} h) = (task, c, refl, h)

Scheduled-if :
    {levels : List (List TableMeta)} (b : Bool) {m n : Result (Option CompactTask × Compactor)}
    → Scheduled levels m
    → Scheduled levels n
    → Scheduled levels (if b then m else n)
Scheduled-if true h k = h
Scheduled-if false h k = k

-- The options MaxL0Files, MaxBytesBase and LevelMultiplier.
module _ (max_l0_files max_bytes_base level_multiplier : ℕ) where
  start_task-Scheduled :
      (c : Compactor) (level : ℕ)
      → level < length c.engine.vs.levels
      → length c.engine.vs.levels ≤ length c.compact_pointer
      → Scheduled c.engine.vs.levels
          (start_task max_l0_files max_bytes_base level_multiplier c level)
  unfolding start_task take_file_num
  start_task-Scheduled c level fits pointed =
      let (inputs, e, stretch) =
        pick_compaction_inputs-Stretch max_l0_files max_bytes_base level_multiplier c level fits
          pointed in
      rw e (scheduled refl)

  schedule_levels-Scheduled :
      (n level : ℕ) (c : Compactor)
      → level + n < length c.engine.vs.levels
      → length c.engine.vs.levels ≤ length c.compact_pointer
      → Scheduled c.engine.vs.levels
          (schedule_levels max_l0_files max_bytes_base level_multiplier n level c)
  unfolding schedule_levels
  schedule_levels-Scheduled zero level c fits pointed = scheduled refl
  schedule_levels-Scheduled (suc n) level c fits pointed =
      rw (index-level_of c.engine.vs.levels level (omega arith)) (
        Scheduled-if
          (signed_less (level_capacity max_l0_files max_bytes_base level_multiplier level)
            (level_size (level_of level c.engine.vs.levels)))
          (start_task-Scheduled c level (omega arith) pointed)
          (schedule_levels-Scheduled n (suc level) c (omega arith) pointed))

  pub schedule_compaction-Scheduled :
      (c : Compactor)
      → 1 < length c.engine.vs.levels
      → length c.engine.vs.levels ≤ length c.compact_pointer
      → Scheduled c.engine.vs.levels
          (schedule_compaction max_l0_files max_bytes_base level_multiplier c)
  unfolding schedule_compaction schedule_from
  schedule_compaction-Scheduled c some_levels pointed =
      let free = record c { is_compacting = true } in
      Scheduled-if c.is_compacting (scheduled refl) (
        rw (index-level_of c.engine.vs.levels 0 (omega arith)) (
          Scheduled-if (signed_less (length (level_of 0 c.engine.vs.levels)) max_l0_files)
            (schedule_levels-Scheduled (length c.engine.vs.levels - 2) 1 free (omega arith) pointed)
            (start_task-Scheduled free 0 (omega arith) pointed)))
