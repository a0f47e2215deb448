-- ===== src/Engine/Scan/Sources.antt =====
-- scan of read.go, Scan of the engine and Scan of a snapshot: the iterators that are gathered. Opening
-- a table, its iterator and its Seek are the argument `table_scan`, without a value where the code
-- ends the process.
use ascent_db.Prelude.{
  ℕ, ◌-◌, ◌^◌, List, [], ◌∷◌, ◌++◌, Option, none, some, if◌then◌else◌, Result, ok, panic, ◌>>=◌,
}
use ascent_db.Record.{InternalKey, Record}
use ascent_db.Meta.{TableMeta}
use ascent_db.Meta.Overlap.{is_apart}
use ascent_db.Memtable.Table.{Memtable, iterator, seek}
use ascent_db.Memtable.Iterate.{visit}
use ascent_db.Engine.{Engine}
use ascent_db.Engine.Scan.{ScanIterator, new_scan_iterator}

abbrev pub TableScan : Type 0
TableScan = TableMeta → InternalKey → Option (List Record)

-- The iterator of a memtable behind Seek, as the records that it visits.
unfoldable pub seek_memtable : InternalKey → Memtable → Result (List Record)
seek_memtable key m = do it ← iterator m.list; it ← seek it key; visit m.list.next it

unfoldable pub seek_immt : InternalKey → Option Memtable → Result (List (List Record))
seek_immt key none = ok []
seek_immt key (some m) = do rs ← seek_memtable key m; ok (rs ∷ [])

-- An error of opening a table ends the process.
unfoldable pub or_fatal : Option (List Record) → Result (List Record)
or_fatal none = panic
or_fatal (some rs) = ok rs

unfoldable pub seek_table : TableScan → InternalKey → TableMeta → Result (List Record)
seek_table table_scan key t = or_fatal (table_scan t key)

-- The tables of one level, but those that are out of the range.
unfoldable pub seek_tables :
    TableScan → InternalKey → List ℕ → List TableMeta → Result (List (List Record))
seek_tables table_scan key end [] = ok []
seek_tables table_scan key end (t ∷ ts) =
    let rest = seek_tables table_scan key end ts in
    if is_apart t key.user_key end
    then rest
    else (seek_table table_scan key t >>= λ rs. rest >>= λ iters. ok (rs ∷ iters))

unfoldable pub seek_levels :
    TableScan → InternalKey → List ℕ → List (List TableMeta) → Result (List (List Record))
seek_levels table_scan key end [] = ok []
seek_levels table_scan key end (tables ∷ levels) = do
  iters ← seek_tables table_scan key end tables
  more ← seek_levels table_scan key end levels
  ok (iters ++ more)

unfoldable pub sources : TableScan → Engine → InternalKey → List ℕ → Result (List (List Record))
sources table_scan e key end = do
  rs ← seek_memtable key e.mt
  rotated ← seek_immt key e.immt
  tables ← seek_levels table_scan key end e.vs.levels
  ok (rs ∷ (rotated ++ tables))

unfoldable pub scan : ℕ → TableScan → Engine → List ℕ → List ℕ → ℕ → Result ScanIterator
scan fuel table_scan e start end seq_num = do
  iters ← sources table_scan e (record { user_key = start; seq_num = seq_num; typ = 0 }) end
  new_scan_iterator fuel iters end seq_num

-- Scan of the engine.
unfoldable pub scan_all : ℕ → TableScan → Engine → List ℕ → List ℕ → Result ScanIterator
scan_all fuel table_scan e start end = scan fuel table_scan e start end (2 ^ 64 - 1)

-- Scan of a snapshot.
unfoldable pub snapshot_scan : ℕ → TableScan → Engine → ℕ → List ℕ → List ℕ → Result ScanIterator
snapshot_scan fuel table_scan e seq_num start end = scan fuel table_scan e start end seq_num
