-- ===== src/Engine/Compact/Reads.antt =====
-- A whole compaction: its tables, and what they read as.
use ascent_db.Prelude.{
  ℕ, suc, ◌+◌, ◌*◌, ◌^◌, ◌≤◌, ◌<◌, ◌≡◌, ◌≢◌, ◌∙◌, refl, sym, ap, arith, List, [], ◌∷◌, ◌++◌,
  append-nil, length, All, Option, none, some, Bool, true, false, ◌==◌, Bool-cases, inl, inr,
  if◌then◌else◌, ok,
}
use mathlib.Core.List.{Permᴰ}
use mathlib.Core.List.Permᴰ
use ascent_db.Record.{Record, IsRecord, type_del}
use ascent_db.Sstable.Reader.Lookup.{Answer}
use ascent_db.Memtable.Permuted.{All-Perm, Answer-Perm}
use ascent_db.Meta.{VersionSet}
use ascent_db.Sstable.Format.{Filter}
use ascent_db.Sstable.Filter as Filter
use ascent_db.Sstable.Writer.{TableWriter}
use ascent_db.Sstable.Writer as Writer
use ascent_db.Merge.{new_iterator_heap}
use ascent_db.Merge.Order.{Ascending, length-Perm}
use ascent_db.Merge.Drain.{all_of, merged, new_iterator_heap-Sound, held-new_iterator_heap}
use ascent_db.Engine.Read.{live}
use ascent_db.Engine.Scan.Groups.{as_of}
use ascent_db.Engine.Compact.{
  CompactionOutput, open_writer, close_some, close_writer, empty_output, drops, finish,
  start_output, write_compaction_output,
}
use ascent_db.Engine.Compact.Survivors.{survivors, survivors-Reads}
use ascent_db.Engine.Compact.Output.{
  range_now, concat, concat_snoc, Tables, no_tables, Room, close_some_lem, opened, closed_output,
}
use ascent_db.Engine.Compact.Loop.{Ok, range_from-none, loop_lem}

module _ (block_size : ℕ) (filter : Filter) (max_sstable_size : ℕ) (level : ℕ)
    (is_bottom_level : Bool) (oldest_snap : ℕ) (fine : Filter.IsFilter filter) where
  finish-closed :
      (o : CompactionOutput) (w : TableWriter) (file : List ℕ)
      → o.first ≡ false
      → o.writer ≡ some w
      → Writer.close w ≡ ok file
      → finish block_size filter max_sstable_size level is_bottom_level oldest_snap o
        ≡ ok (
            closed_output block_size filter max_sstable_size level is_bottom_level oldest_snap o
              file)
  unfolding finish close_writer close_some
  finish-closed o w file e writing closed =
      let at_some : close_writer block_size filter max_sstable_size level is_bottom_level
            oldest_snap o
          ≡ close_some block_size filter max_sstable_size level is_bottom_level oldest_snap o w =
        ap
          (λ z. elim z [
            | none ↦ ok o
            | some v ↦
                close_some block_size filter max_sstable_size level is_bottom_level oldest_snap o v
          ])
          writing in
      ap
        (λ z.
          if z
          then ok (record o { writer = none })
          else close_writer block_size filter max_sstable_size level is_bottom_level oldest_snap o)
        e
      ∙ at_some
      ∙ rw closed refl

  finish_lem :
      (o : CompactionOutput) (cs : List (List Record)) (cur : List Record)
      → Ok block_size filter max_sstable_size level is_bottom_level oldest_snap fine o cs cur
      → 2 * max_sstable_size + 20 < 2 ^ 32
      → (o' : CompactionOutput) × (cs' : List (List Record)) × (finish block_size filter
            max_sstable_size level is_bottom_level oldest_snap o
          ≡ ok o')
        × Tables block_size filter max_sstable_size level is_bottom_level oldest_snap o'.out_tables
            o'.files cs'
        × (concat cs' ≡ concat cs ++ cur)
  unfolding finish close_writer close_some range_now
  finish_lem o cs cur b room = elim (Bool-cases o.first) [
    | inl e ↦
        let none_yet : cur ≡ [] =
          range_from-none cur
            (sym b.range ∙ ap (λ z. if z then none else some (o.first_key, o.last_key)) e) in
        (
          record o { writer = none },
          cs,
          rw e refl,
          b.tables,
          sym (append-nil (concat cs)) ∙ ap (λ z. concat cs ++ z) (sym none_yet),
        )
    | inr e ↦
        let (file, closed, tables) =
          close_some_lem block_size filter max_sstable_size level is_bottom_level oldest_snap fine o
            b.w cs cur b.tables b.added b.valid b.bounded (omega (arith, room, b.below)) e
            b.range in
        (
          closed_output block_size filter max_sstable_size level is_bottom_level oldest_snap o file,
          cs ++ (cur ∷ []),
          finish-closed o b.w file e b.writing closed,
          tables,
          concat_snoc cs cur,
        )
  ]

  pub write_compaction_output-Tables :
      (file_num : ℕ) (vs : VersionSet) (iters : List (List Record))
      → All Ascending iters
      → All IsRecord (all_of iters)
      → All
          (Room block_size filter max_sstable_size level is_bottom_level oldest_snap)
          (all_of iters)
      → 2 * max_sstable_size + 20 < 2 ^ 32
      → (o : CompactionOutput) × (cs : List (List Record)) × (l : List Record)
        × (write_compaction_output block_size filter max_sstable_size level is_bottom_level
              oldest_snap
              (suc (length (all_of iters)))
              file_num
              vs
              iters
            ≡ ok o)
        × Tables block_size filter max_sstable_size level is_bottom_level oldest_snap o.out_tables
            o.files cs
        × Ascending l
        × Permᴰ (all_of iters) l
        × (concat cs
            ≡ survivors
                (drops block_size filter max_sstable_size level is_bottom_level oldest_snap)
                []
                l)
  unfolding write_compaction_output start_output empty_output open_writer concat
  write_compaction_output-Tables file_num vs iters all valid space room =
      let e = held-new_iterator_heap iters in
      let (l, y, asc, d) =
        merged (length (all_of iters)) (new_iterator_heap iters) (omega (arith, ap length e))
          (new_iterator_heap-Sound iters all) in
      let d' : Permᴰ (all_of iters) l = rw e at d in
      let begun =
        opened block_size filter max_sstable_size level is_bottom_level oldest_snap
          (empty_output file_num vs) [] no_tables in
      let (o1, cs1, cur1, q1, b1, all1) =
        loop_lem block_size filter max_sstable_size level is_bottom_level oldest_snap fine
          (suc (length (all_of iters))) (new_iterator_heap iters) l
          (start_output block_size filter max_sstable_size level is_bottom_level oldest_snap
            file_num vs)
          [] [] y begun (All-Perm _ d' valid) (All-Perm _ d' space)
          (omega (arith, length-Perm d')) in
      let (o2, cs2, q2, tables, all2) = finish_lem o1 cs1 cur1 b1 room in
      (o2, cs2, l, rw q1 q2, tables, asc, d', all2 ∙ all1)

  drops-tombstone :
      (r : Record)
      → drops block_size filter max_sstable_size level is_bottom_level oldest_snap r ≡ true
      → (r.typ == type_del) ≡ true
  unfolding drops
  drops-tombstone r h = elim (Bool-cases (r.typ == type_del)) [
    | inl e ↦ e
    | inr e ↦ let q : false ≡ true = rw e at h in cc q
  ]

  -- The tables of a compaction read as all its records together: for any user key but the empty
  -- one, as of a sequence number that is not below any record, the newest record in the tables and
  -- the newest of all have the same value, or neither has one. The records are in range, the size
  -- limit leaves room for them, the iterators are in order, and the filter of a new table is a
  -- filter with at least one bit and a byte for every eight bits.
  pub write_compaction_output-live :
      (file_num : ℕ) (vs : VersionSet) (iters : List (List Record)) (u : List ℕ) (n : ℕ)
      → All Ascending iters
      → All IsRecord (all_of iters)
      → All
          (Room block_size filter max_sstable_size level is_bottom_level oldest_snap)
          (all_of iters)
      → 2 * max_sstable_size + 20 < 2 ^ 32
      → u ≢ []
      → All (λ r. r.seq_num ≤ n) (all_of iters)
      → (o : CompactionOutput) × (cs : List (List Record)) × (a : Option Record) × (b : Option
          Record)
        × (write_compaction_output block_size filter max_sstable_size level is_bottom_level
              oldest_snap
              (suc (length (all_of iters)))
              file_num
              vs
              iters
            ≡ ok o)
        × Tables block_size filter max_sstable_size level is_bottom_level oldest_snap o.out_tables
            o.files cs
        × Answer (as_of u n) (all_of iters) a
        × Answer (as_of u n) (concat cs) b
        × (live a ≡ live b)
  write_compaction_output-live file_num vs iters u n all valid space room ne older =
      let (o, cs, l, q, tables, asc, d, kept) =
        write_compaction_output-Tables file_num vs iters all valid space room in
      let (v, (a, before, va), (b, after, vb)) =
        survivors-Reads (drops block_size filter max_sstable_size level is_bottom_level oldest_snap)
          drops-tombstone n u [] l asc (All-Perm _ d older) ne in
      (o, cs, a, b, q, tables, Answer-Perm (Permᴰ.symm d) before, rw kept after, va ∙ sym vb)
