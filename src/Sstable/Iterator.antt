-- ===== src/Sstable/Iterator.antt =====
-- iterator.go of internal/sstable. `file` and `index` are those of the reader; reading a block is
-- readBlock without a cache.
pub mod Visits
pub mod Seek
use ascent_db.Prelude.{
  ℕ, zero, suc, ◌+◌, List, [], ◌∷◌, length, get_elem?, map, Option, none, some, Bool, true, false,
  is_less, leb, ltb, if◌then◌else◌, Result, ok, err, panic, ◌>>=◌,
}
use ascent_db.Record.{InternalKey, Record, compare}
use ascent_db.Sstable.Format.{IndexEntry}
use ascent_db.Sstable.Search.{search}
use ascent_db.Sstable.Reader.{at_least, read_block}

pub record SstableIterator : Type 0 where
  pub block_index : ℕ
  pub block : Option (List Record)
  pub entry_index : ℕ

unfoldable pub valid : SstableIterator → Bool
valid iter = elim iter.block [ none ↦ false | some entries ↦ ltb iter.entry_index (length entries) ]

-- The entry that InternalKey and Value read.
unfoldable pub current : SstableIterator → Result Record
current iter = elim iter.block [
  | none ↦ panic
  | some entries ↦ elim (get_elem? entries iter.entry_index) [ none ↦ panic | some r ↦ ok r ]
]

-- findBlockIndex
unfoldable pub find_block_index : InternalKey → List IndexEntry → ℕ
find_block_index key entries =
    search (length entries) (at_least key (map (λ e. e.separator_key) entries))

-- How many entries the loop of Seek passes over, from an index on.
unfoldable pub passed : InternalKey → List Record → ℕ
passed target [] = 0
passed target (r ∷ rs) =
    let rest = passed target rs in if is_less (compare r.internal_key target) then suc rest else 0

module _ (file : List ℕ) (index : List IndexEntry) where
  -- loadBlock; a block that cannot be read is no block.
  unfoldable pub load_block : SstableIterator → Result SstableIterator
  load_block iter = elim (get_elem? index iter.block_index) [
    | none ↦ ok (record iter { block = none })
    | some entry ↦ elim (read_block file entry) [
      | ok block ↦ ok (record iter { block = some block; entry_index = 0 })
      | err e ↦ ok (record iter { block = none })
      | panic ↦ panic
    ]
  ]

  -- Iterator
  unfoldable pub iterator : Result SstableIterator
  iterator = load_block (record { block_index = 0; block = none; entry_index = 0 })

  unfoldable pub next_block : SstableIterator → Result SstableIterator
  next_block iter = load_block (record iter { block_index = iter.block_index + 1 })

  -- Next
  unfoldable pub next : SstableIterator → Result SstableIterator
  next iter = elim iter.block [
    | none ↦ panic
    | some entries ↦
        if ltb (iter.entry_index + 1) (length entries)
        then ok (record iter { entry_index = iter.entry_index + 1 })
        else next_block iter
  ]

  -- Seek behind loadBlock, whose block starts at entry 0.
  unfoldable pub seek_in_block : InternalKey → SstableIterator → Result SstableIterator
  seek_in_block target iter = elim iter.block [
    | none ↦ panic
    | some entries ↦
        let iter' = record iter { entry_index = passed target entries } in
        if leb (length entries) iter'.entry_index then next_block iter' else ok iter'
  ]

  -- Seek behind findBlockIndex.
  unfoldable pub seek_at : InternalKey → SstableIterator → ℕ → Result SstableIterator
  seek_at target iter idx =
      if leb (length index) idx
      then ok (record iter { block = none })
      else (do iter' ← load_block (record iter { block_index = idx }); seek_in_block target iter')

  -- Seek
  unfoldable pub seek : InternalKey → SstableIterator → Result SstableIterator
  seek target iter = seek_at target iter (find_block_index target index)
