-- ===== src/Engine/Schedule/Install.antt =====
-- What compactLevel does to the levels.
use ascent_db.Prelude.{
  ◌∙◌, ap, ◌≢◌, map, none, All-left, All-right, ℕ, zero, suc, ◌+◌, ◌*◌, ◌-◌, ◌^◌, ◌≤◌, ◌<◌, ◌≡◌,
  refl, sym, arith, List, [], ◌∷◌, ◌++◌, length, length-set, All, All-append, Option, some, Bool,
  false, ◌==◌, ok, set,
}
use mathlib.Core.Path.{subst}
use mathlib.Core.Option as Option
use ascent_db.Record.{Record, IsRecord, size}
use ascent_db.Meta.{TableMeta}
use ascent_db.Meta.Versions.{level_of, take_file_num}
use ascent_db.Sstable.Format.{Filter}
use ascent_db.Sstable.Filter as Filter
use ascent_db.Merge.Order.{Ascending}
use ascent_db.Merge.Drain.{all_of}
use ascent_db.Engine.Snapshots.{oldest}
use ascent_db.Engine.Write.{log_and_apply}
use ascent_db.Engine.Compact.{CompactionOutput, write_compaction_output}
use ascent_db.Engine.Compact.Output.{Tables, no_tables, table}
use ascent_db.Engine.Compact.Reads.{write_compaction_output-Tables}
use ascent_db.Engine.Schedule.{
  Compactor, CompactTask, last_table, advance_pointer, all_inputs, open_all, install,
  compact_tables, compact_level,
}
use ascent_db.Engine.Schedule.Edited.{IsTask, met, unmet, Installed, edit-Installed}
use ascent_db.Meta.Overlap.Apart.{Split}
use ascent_db.Engine.Schedule.Removed.{outside-Split, find_overlapping-All}
use ascent_db.Engine.Schedule.Levels.{Keeps-levels, write_compaction_output-Keeps}
use ascent_db.Engine.Schedule.Pick.{index_fits, index-level_of}
use ascent_db.Engine.Schedule.Next.{Scheduled-ok, schedule_compaction-Scheduled}

advance_pointer-ok :
    (level : ℕ) (inputs : List TableMeta) (pointers : List (List ℕ))
    → level < length pointers
    → (pointers' : List (List ℕ)) × (advance_pointer level inputs pointers ≡ ok pointers')
      × (length pointers' ≡ length pointers)
unfolding advance_pointer
advance_pointer-ok zero inputs pointers h = (pointers, refl, refl)
advance_pointer-ok (suc l) [] pointers h = (pointers, refl, refl)
advance_pointer-ok (suc l) (t ∷ ts) pointers h =
    let (pointer, e) = index_fits pointers (suc l) h in
    (
      set pointers (suc l) (pointer ++ (last_table t ts).max_key.user_key),
      rw e refl,
      length-set pointers (suc l) _,
    )

Tables-level :
    {block_size : ℕ} {filter : Filter} {max_sstable_size level : ℕ} {is_bottom_level : Bool}
    {oldest_snap : ℕ} {ts : List TableMeta} {fs : List (ℕ × List ℕ)} {cs : List (List Record)}
    → Tables block_size filter max_sstable_size level is_bottom_level oldest_snap ts fs cs
    → All (λ t. t.level ≡ level) ts
Tables-level no_tables = tt
Tables-level {level = level} (table {ts} {fs} {cs} {t} tables h) =
    All-append (λ u. u.level ≡ level) ts (t ∷ []) (Tables-level tables) (h.at_level, tt)

-- The table opens, and its records are these: in order, in range, and with room for each.
pub record IsReadable (table_records : TableMeta → Option (List Record))
    (contents : TableMeta → List Record) (max_sstable_size : ℕ) (t : TableMeta) : Type 0 where
  pub opens : table_records t ≡ some (contents t)
  pub ordered : Ascending (contents t)
  pub valid : All IsRecord (contents t)
  pub room : All (λ r. 2 * (max_sstable_size + size r) + 20 < 2 ^ 32) (contents t)

module _ (table_records : TableMeta → Option (List Record)) (contents : TableMeta → List Record)
    (max_sstable_size : ℕ) where
  open_all-contents :
      (ts : List TableMeta)
      → All (IsReadable table_records contents max_sstable_size) ts
      → open_all table_records ts ≡ some (map contents ts)
  unfolding open_all
  open_all-contents [] all = refl
  open_all-contents (t ∷ ts) (h, all) =
      ap
        (λ z. elim z [
          | none ↦ none
          | some rs ↦ Option.map (λ iters. rs ∷ iters) (open_all table_records ts)
        ])
        h.opens
      ∙ ap (Option.map (λ iters. contents t ∷ iters)) (open_all-contents ts all)

  contents-all :
      (ts : List TableMeta)
      → All (IsReadable table_records contents max_sstable_size) ts
      → All Ascending (map contents ts)
        × All IsRecord (all_of (map contents ts))
        × All (λ r. 2 * (max_sstable_size + size r) + 20 < 2 ^ 32) (all_of (map contents ts))
  unfolding all_of
  contents-all [] all = (tt, tt, tt)
  contents-all (t ∷ ts) (h, all) =
      let (asc, valid, room) = contents-all ts all in
      (
        (h.ordered, asc),
        All-append IsRecord (contents t) (all_of (map contents ts)) h.valid valid,
        All-append _ (contents t) (all_of (map contents ts)) h.room room,
      )

module _ (max_l0_files max_bytes_base level_multiplier : ℕ) where
  install-Installed :
      (c : Compactor) (task : CompactTask) (pre post : List TableMeta) (o : CompactionOutput)
      → IsTask c.engine.vs.levels task pre post
      → length c.engine.vs.levels ≤ length c.compact_pointer
      → o.vs.levels ≡ c.engine.vs.levels
      → All (λ t. t.level ≡ suc task.level) o.out_tables
      → (next : Option CompactTask) × (c' : Compactor) × (install max_l0_files max_bytes_base
            level_multiplier c
            (task.inputs ++ met c.engine.vs.levels task)
            o
          ≡ ok (next, c'))
        × Installed c.engine.vs.levels task pre post
            (unmet c.engine.vs.levels task)
            o.out_tables
            c'.engine.vs.levels
  unfolding install log_and_apply take_file_num
  install-Installed c task pre post o is_task pointed same outs_at =
      let (num, vs) = take_file_num o.vs in
      let (new, e, installed) =
        edit-Installed c.engine.vs.levels task pre post is_task vs num o.out_tables same outs_at in
      let engine = record c.engine { vs = record vs { levels = new } } in
      let (next, c', q, kept) = Scheduled-ok (
        schedule_compaction-Scheduled max_l0_files max_bytes_base level_multiplier
          (record c { engine = engine; is_compacting = false })
          (omega (arith, installed.count, is_task.fits))
          (omega (arith, installed.count, pointed))) in
      (
        next,
        c',
        rw e q,
        subst
            (Installed c.engine.vs.levels task pre post (unmet c.engine.vs.levels task)
              o.out_tables)
            (sym kept) installed,
      )

  module _ (block_size : ℕ) (filter : Filter) (max_sstable_size : ℕ)
      (table_records : TableMeta → Option (List Record)) (contents : TableMeta → List Record)
      (fine : Filter.IsFilter filter) where
    -- A compaction whose inputs are a stretch of their level, at least one table, in a version
    -- whose tables know their levels and have numbers of their own, ends without a panic, if the
    -- tables of the inputs and of the next level all open and have records in range and in order,
    -- there is a pointer for every level, the filter of a new table is a filter with at least one
    -- bit and a byte for every eight bits, and the size limit leaves room for each record. The next
    -- level is split into the tables that end before all inputs start or start behind the end of
    -- all inputs, and the others; the compaction writes the records of the inputs and of the
    -- others. Its level then is what was before and behind the inputs; the next level is the tables
    -- of the first part, followed by those that writeCompactionOutput made; the other levels are
    -- unchanged.
    pub compact_level-Installed :
        (c : Compactor) (task : CompactTask) (pre post : List TableMeta)
        → IsTask c.engine.vs.levels task pre post
        → task.inputs ≢ []
        → length c.engine.vs.levels ≤ length c.compact_pointer
        → All
            (IsReadable table_records contents max_sstable_size)
            (task.inputs ++ level_of (suc task.level) c.engine.vs.levels)
        → 2 * max_sstable_size + 20 < 2 ^ 32
        → (left : List TableMeta) × (used : List TableMeta) × (o : CompactionOutput)
          × (next : Option CompactTask) × (c' : Compactor) × Split task.inputs
              (level_of (suc task.level) c.engine.vs.levels)
              left
              used
          × (write_compaction_output block_size filter max_sstable_size
                (suc task.level)
                (suc task.level == length c.engine.vs.levels - 1)
                (oldest c.engine.snapshots)
                (suc (length (all_of (map contents (task.inputs ++ used)))))
                task.out_file_num
                c.engine.vs
                (map contents (task.inputs ++ used))
              ≡ ok o)
          × (compact_level max_l0_files max_bytes_base level_multiplier block_size filter
                max_sstable_size table_records c task
              ≡ ok (next, c'))
          × Installed c.engine.vs.levels task pre post left o.out_tables c'.engine.vs.levels
    unfolding compact_level all_inputs compact_tables
    compact_level-Installed c task pre post is_task some_inputs pointed readable room =
        let bottom = suc task.level == length c.engine.vs.levels - 1 in
        let snap = oldest c.engine.snapshots in
        let level = level_of (suc task.level) c.engine.vs.levels in
        let used = met c.engine.vs.levels task in
        let iters = map contents (task.inputs ++ used) in
        let all = IsReadable table_records contents max_sstable_size in
        let ready : All all (task.inputs ++ used) =
          All-append all task.inputs used (All-left all task.inputs level readable)
            (find_overlapping-All all level _ _ (All-right all task.inputs level readable)) in
        let opened = open_all-contents table_records contents max_sstable_size _ ready in
        let (asc, valid, space) = contents-all table_records contents max_sstable_size _ ready in
        let (o, cs, l, written, tables, ordered, perm, kept_records) =
          write_compaction_output-Tables block_size filter max_sstable_size (suc task.level) bottom
            snap fine task.out_file_num c.engine.vs iters asc valid space room in
        let (pointers, moved, same_count) =
          advance_pointer-ok task.level task.inputs c.compact_pointer
            (omega (arith, is_task.fits, pointed)) in
        let same_levels =
          Keeps-levels
            (write_compaction_output-Keeps block_size filter max_sstable_size (suc task.level)
              bottom snap (suc (length (all_of iters))) task.out_file_num c.engine.vs iters)
            written in
        let (next, c', q, installed) =
          install-Installed (record c { compact_pointer = pointers }) task pre post o is_task
            (omega (arith, pointed, same_count)) same_levels (Tables-level tables) in
        (
          unmet c.engine.vs.levels task,
          used,
          o,
          next,
          c',
          outside-Split task.inputs level some_inputs,
          written,
          rw
              (
                index-level_of c.engine.vs.levels (suc task.level) is_task.fits,
                moved,
                opened,
                written,
              )
              q,
          installed,
        )
