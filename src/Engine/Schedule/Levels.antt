-- ===== src/Engine/Schedule/Levels.antt =====
-- Writing the output of a compaction, and scheduling one, leave the levels as they are.
use ascent_db.Prelude.{
  ap, sym, ◌∙◌, Error, if◌then◌else◌, true, false, ℕ, zero, suc, ◌≡◌, refl, List, Option, none,
  some, Bool, leb, Result, ok, err, panic, ◌>>=◌,
}
use ascent_db.Bytes.Compare.{equal_bytes}
use ascent_db.Record.{Record}
use ascent_db.Meta.{TableMeta, VersionSet}
use ascent_db.Meta.Versions.{take_file_num}
use ascent_db.Sstable.Format.{Filter}
use ascent_db.Sstable.Writer.{TableWriter}
use ascent_db.Sstable.Writer as Writer
use ascent_db.Merge.{Item, new_iterator_heap, empty, merge_record, pop_and_advance}
use ascent_db.Engine.Compact.{
  CompactionOutput, open_writer, close_some, close_writer, close_if_full, extended, add_to, keep,
  drops, round, merge_loop, finish, empty_output, start_output, write_compaction_output,
}

-- A result, if there is one, has these levels.
pub data Keeps (levels : List (List TableMeta)) : Result CompactionOutput → Type 0 where
  keeps : {o : CompactionOutput} → o.vs.levels ≡ levels → Keeps levels (ok o)
  keeps_err : {e : Error} → Keeps levels (err e)
  keeps_panic : Keeps levels panic

Keeps-bind :
    {A : Type 0} {levels : List (List TableMeta)} (m : Result A) {f : A → Result CompactionOutput}
    → ((a : A) → Keeps levels (f a))
    → Keeps levels (m >>= f)
Keeps-bind (ok a) h = h a
Keeps-bind (err e) h = keeps_err
Keeps-bind panic h = keeps_panic

Keeps-then :
    {levels : List (List TableMeta)} {m : Result CompactionOutput}
    {f : CompactionOutput → Result CompactionOutput}
    → Keeps levels m
    → ((o : CompactionOutput) → o.vs.levels ≡ levels → Keeps levels (f o))
    → Keeps levels (m >>= f)
Keeps-then (keeps {o} k) h = h o k
Keeps-then keeps_err h = keeps_err
Keeps-then keeps_panic h = keeps_panic

pub Keeps-levels :
    {levels : List (List TableMeta)} {o : CompactionOutput} {m : Result CompactionOutput}
    → Keeps levels m
    → m ≡ ok o
    → o.vs.levels ≡ levels
Keeps-levels {o = o} (keeps {o = o'} k) e =
    let same : o' ≡ o = cc e in ap (λ x. x.vs.levels) (sym same) ∙ k
Keeps-levels keeps_err e = cc e
Keeps-levels keeps_panic e = cc e

Keeps-if :
    {levels : List (List TableMeta)} (b : Bool) {m n : Result CompactionOutput}
    → Keeps levels m
    → Keeps levels n
    → Keeps levels (if b then m else n)
Keeps-if true h k = h
Keeps-if false h k = k

module _ (block_size : ℕ) (filter : Filter) (max_sstable_size : ℕ) (level : ℕ)
    (is_bottom_level : Bool) (oldest_snap : ℕ) (levels : List (List TableMeta)) where
  close_some-Keeps :
      (o : CompactionOutput) (w : TableWriter)
      → o.vs.levels ≡ levels
      → Keeps levels
          (close_some block_size filter max_sstable_size level is_bottom_level oldest_snap o w)
  unfolding close_some take_file_num
  close_some-Keeps o w k = Keeps-bind (Writer.close w) (λ file. keeps k)

  close_writer-Keeps :
      (o : CompactionOutput) (w : Option TableWriter)
      → o.vs.levels ≡ levels
      → Keeps levels (elim w [
        | none ↦ ok o
        | some w ↦
            close_some block_size filter max_sstable_size level is_bottom_level oldest_snap o w
      ])
  close_writer-Keeps o none k = keeps k
  close_writer-Keeps o (some w) k = close_some-Keeps o w k

  close_if_full-Keeps :
      (o : CompactionOutput) (w : TableWriter)
      → o.vs.levels ≡ levels
      → Keeps levels
          (close_if_full block_size filter max_sstable_size level is_bottom_level oldest_snap o w)
  unfolding close_if_full close_writer open_writer
  close_if_full-Keeps o w k =
      Keeps-if (leb max_sstable_size w.estimated_size)
        (Keeps-then (close_writer-Keeps o o.writer k) (λ o' k'. keeps k')) (keeps k)

  keep-Keeps :
      (o : CompactionOutput) (rec : Record) (w : Option TableWriter)
      → o.vs.levels ≡ levels
      → Keeps levels (elim w [
        | none ↦ panic
        | some w ↦
            add_to block_size filter max_sstable_size level is_bottom_level oldest_snap o rec w
      ])
  unfolding add_to extended
  keep-Keeps o rec none k = keeps_panic
  keep-Keeps o rec (some w) k = Keeps-bind (Writer.add w rec) (λ w'. close_if_full-Keeps _ w' k)

  round-Keeps :
      (o : CompactionOutput) (rec : Record)
      → o.vs.levels ≡ levels
      → Keeps levels
          (round block_size filter max_sstable_size level is_bottom_level oldest_snap o rec)
  unfolding round keep
  round-Keeps o rec k = Keeps-if (equal_bytes rec.user_key o.last_user_key) (keeps k) (
      Keeps-if (drops block_size filter max_sstable_size level is_bottom_level oldest_snap rec)
        (keeps k) (keep-Keeps (record o { last_user_key = rec.user_key }) rec o.writer k))

  merge_loop-Keeps :
      (fuel : ℕ) (heap : List Item) (o : CompactionOutput)
      → o.vs.levels ≡ levels
      → Keeps levels (
          merge_loop block_size filter max_sstable_size level is_bottom_level oldest_snap fuel heap
            o)
  unfolding merge_loop
  merge_loop-Keeps zero heap o k = keeps_panic
  merge_loop-Keeps (suc fuel) heap o k = Keeps-if (empty heap) (keeps k) (
      Keeps-bind (merge_record heap) (λ rec.
        Keeps-then (round-Keeps o rec k)
          (λ o' k'. merge_loop-Keeps fuel (pop_and_advance heap).1 o' k')))

  finish-Keeps :
      (o : CompactionOutput)
      → o.vs.levels ≡ levels
      → Keeps levels (finish block_size filter max_sstable_size level is_bottom_level oldest_snap o)
  unfolding finish close_writer
  finish-Keeps o k = Keeps-if o.first (keeps k) (close_writer-Keeps o o.writer k)

-- The counter of the file numbers moves on, but the levels stay.
pub write_compaction_output-Keeps :
    (block_size : ℕ) (filter : Filter) (max_sstable_size : ℕ) (level : ℕ) (is_bottom_level : Bool)
    (oldest_snap : ℕ) (fuel file_num : ℕ) (vs : VersionSet) (iters : List (List Record))
    → Keeps vs.levels (
        write_compaction_output block_size filter max_sstable_size level is_bottom_level oldest_snap
          fuel file_num vs iters)
unfolding write_compaction_output start_output empty_output open_writer
write_compaction_output-Keeps block_size filter max_sstable_size level is_bottom_level oldest_snap
      fuel file_num vs iters =
    Keeps-then
      (merge_loop-Keeps block_size filter max_sstable_size level is_bottom_level oldest_snap
        vs.levels fuel (new_iterator_heap iters) _ refl)
      (λ o k.
        finish-Keeps block_size filter max_sstable_size level is_bottom_level oldest_snap vs.levels
          o k)
