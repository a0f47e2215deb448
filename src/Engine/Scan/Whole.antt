-- ===== src/Engine/Scan/Whole.antt =====
-- A whole scan of an engine, its sources included.
use ascent_db.Prelude.{
  ℕ, suc, ◌≡◌, sym, List, ◌∷◌, ◌++◌, length, All, All-append, Option, less, ok, ◌>>=◌,
}
use mathlib.Core.Path.{subst}
use mathlib.Core.List.{Permᴰ}
use mathlib.Core.List.Permᴰ
use ascent_db.Bytes.Compare.{compare_bytes}
use ascent_db.Record.{Record}
use ascent_db.Sstable.Reader.Lookup.{Answer}
use ascent_db.Meta.{TableMeta}
use ascent_db.Meta.Overlap.{AtMost}
use ascent_db.Memtable.History.{Holds}
use ascent_db.Memtable.Permuted.{Answer-Perm}
use ascent_db.Merge.Order.{Ascending}
use ascent_db.Merge.Drain.{all_of}
use ascent_db.Engine.{Engine}
use ascent_db.Engine.Lookup.{HoldsRotated}
use ascent_db.Engine.Read.{live}
use ascent_db.Engine.Scan.{drain}
use ascent_db.Engine.Scan.Groups.{as_of}
use ascent_db.Engine.Scan.Client.{find, Rising, drain-new_scan_iterator}
use ascent_db.Engine.Scan.Sources.{TableScan, sources, scan}
use ascent_db.Engine.Scan.Thinned.{Thinned, Thinned-append, Thinned-Answer}
use ascent_db.Engine.Scan.Gathered.{
  IsScanned, table_records, all_of-append, seek_memtable_lem, seek_immt_lem, seek_levels_lem,
}

module _ (table_scan : TableScan) (contents : TableMeta → List Record) (start end u : List ℕ)
    (n : ℕ) (h : AtMost start u) (h' : compare_bytes u end ≡ less) where
  -- A scan of an engine whose memtables hold these records and whose tables' iterators visit theirs in
  -- order, all in the range of their table, ends without a panic, with enough rounds; the keys that
  -- its client sees are below the end and strictly ascending; and for any user key from the start to
  -- before the end the client sees the value of the newest record, in the memtables or any table,
  -- that is not newer than the scan's sequence number, and nothing if that record deletes the key or
  -- if there is none.
  pub scan-newest :
      (e : Engine) (recent rotated : List Record)
      → Holds e.mt recent
      → HoldsRotated e.immt rotated
      → All (All (λ t. IsScanned table_scan (as_of start n) t (contents t))) e.vs.levels
      → (fuel : ℕ) × (out : List (List ℕ × List ℕ)) × (o : Option Record) × ((scan fuel table_scan e
              start end n
            >>= drain fuel)
          ≡ ok out)
        × Rising out
        × All (λ p. compare_bytes p.0 end ≡ less) out
        × Answer (as_of u n) (recent ++ (rotated ++ table_records contents e.vs.levels)) o
        × (find u out ≡ live o)
  unfolding scan sources all_of
  scan-newest e recent rotated in_mt in_immt in_tables =
      let (rs, part, q, asc, same, t) =
        seek_memtable_lem table_scan contents start end u n h h' in_mt in
      let (rs', (iters', q', asc', t'), same') =
        seek_immt_lem table_scan contents start end u n h h' e.immt rotated in_immt in
      let (iters'', q'', asc'', t'') =
        seek_levels_lem table_scan contents start end u n h h' e.vs.levels in_tables in
      let iters = part ∷ (iters' ++ iters'') in
      let (out, drained, rising, below, o, answer, v) =
        drain-new_scan_iterator iters end n u (asc, All-append Ascending iters' iters'' asc' asc'')
          h' in
      let thin = Thinned-append t (
        subst (λ l. Thinned (as_of u n) (rs' ++ table_records contents e.vs.levels) l)
          (sym (all_of-append iters' iters'')) (Thinned-append t' t'')) in
      (
        suc (length (all_of iters)),
        out,
        o,
        rw (q, q', q'') drained,
        rising,
        below,
        Answer-Perm
            (Permᴰ.trans (Permᴰ.append_right _ same) (
              Permᴰ.append_left recent
                (Permᴰ.append_right (table_records contents e.vs.levels) same')))
            (Thinned-Answer thin answer),
        v,
      )
