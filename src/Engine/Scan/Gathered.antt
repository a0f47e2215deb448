-- ===== src/Engine/Scan/Gathered.antt =====
-- The sources that a scan gathers.
use ascent_db.Prelude.{
  append-nil, All-weaken, ℕ, ◌<◌, ◌≡◌, ◌∙◌, refl, sym, ap, arith, List, [], ◌∷◌, ◌++◌, append_assoc,
  All, All-append, Option, none, some, true, less, Bool-cases, inl, inr, Result, ok,
}
use mathlib.Core.Path.{subst}
use mathlib.Core.List.{Permᴰ}
use ascent_db.Bytes.Compare.{compare_bytes}
use ascent_db.Record.{InternalKey, Record}
use ascent_db.Meta.{TableMeta}
use ascent_db.Meta.Overlap.{is_apart, AtMost}
use ascent_db.Memtable.{Skiplist}
use ascent_db.Memtable.Nodes.{height, forward_at-pointer, first_above, Linked-head}
use ascent_db.Memtable.Table.{Memtable, iterator}
use ascent_db.Memtable.Invariant.{entries, IsSkiplist}
use ascent_db.Memtable.Iterate.{visit, from_key, seek-visit}
use ascent_db.Memtable.History.{Holds}
use ascent_db.Merge.Order.{Ascending}
use ascent_db.Merge.Drain.{all_of}
use ascent_db.Engine.Lookup.{HoldsRotated}
use ascent_db.Engine.Scan.Groups.{as_of}
use ascent_db.Engine.Scan.Sources.{
  TableScan, seek_memtable, seek_immt, or_fatal, seek_table, seek_tables, seek_levels,
}
use ascent_db.Engine.Scan.Thinned.{
  Unseen, Thinned, nothing, Thinned-append, all-Unseen, from_key-Thinned, from_key-Ascending,
  Sorted-Ascending,
}
use ascent_db.Engine.Scan.Outside.{apart-Unseen}

-- The iterator of the table visits these records, which are in order and in the table's range, from
-- the key on.
pub record IsScanned (table_scan : TableScan) (key : InternalKey) (t : TableMeta) (rs : List Record)
    : Type 0 where
  pub gives : table_scan t key ≡ some (from_key key rs)
  pub ordered : Ascending rs
  pub inside :
      All (λ r. AtMost t.min_key.user_key r.user_key × AtMost r.user_key t.max_key.user_key) rs

-- The records of a level, and of all levels.
unfoldable pub level_records : (TableMeta → List Record) → List TableMeta → List Record
level_records contents [] = []
level_records contents (t ∷ ts) = contents t ++ level_records contents ts

unfoldable pub table_records : (TableMeta → List Record) → List (List TableMeta) → List Record
table_records contents [] = []
table_records contents (tables ∷ levels) =
    level_records contents tables ++ table_records contents levels

pub all_of-append : (xs ys : List (List Record)) → all_of (xs ++ ys) ≡ all_of xs ++ all_of ys
unfolding all_of
all_of-append [] ys = refl
all_of-append (x ∷ xs) ys =
    ap (λ l. x ++ l) (all_of-append xs ys) ∙ sym (append_assoc x (all_of xs) (all_of ys))

-- The sources are in order, and lack only records that a lookup with the key passes over.
abbrev pub Gathers : InternalKey → List Record → Result (List (List Record)) → Type 0
Gathers key rs m =
    (iters : List (List Record)) × (m ≡ ok iters)
    × All Ascending iters
    × Thinned key rs (all_of iters)

iterator_at :
    {sl : Skiplist} {l : List ℕ}
    → IsSkiplist sl l
    → (curr : Option ℕ) × (iterator sl ≡ ok (record { list = sl; curr = curr }))
unfolding iterator
iterator_at {sl} {l} s =
    let high0 : 0 < height sl.heap 0 = omega (arith, s.head_height, s.level_pos, s.level_fits) in
    (
      first_above sl.heap 0 l,
      rw (forward_at-pointer sl.heap 0 0 (Linked-head sl.heap 0 l s.linked 0 high0)) refl,
    )

module _ (table_scan : TableScan) (contents : TableMeta → List Record) (start end u : List ℕ)
    (n : ℕ) (h : AtMost start u) (h' : compare_bytes u end ≡ less) where
  pub seek_memtable_lem :
      {m : Memtable} {old : List Record}
      → Holds m old
      → (rs : List Record) × (part : List Record) × (seek_memtable (as_of start n) m ≡ ok part)
        × Ascending part
        × Permᴰ rs old
        × Thinned (as_of u n) rs part
  unfolding seek_memtable
  seek_memtable_lem {m} {old} s =
      let rs = entries m.list.heap s.nodes in
      let (first, begun) = iterator_at s.shape in
      let (it, found, visited) = seek-visit (as_of start n) first s.shape in
      let visited' =
        subst (λ k. visit k it ≡ ok (from_key (as_of start n) rs)) (sym s.shape.counted) visited in
      (
        rs,
        from_key (as_of start n) rs,
        rw (begun, found) visited',
        from_key-Ascending (as_of start n) rs (Sorted-Ascending rs s.sorted),
        s.same_records,
        from_key-Thinned start u n rs h,
      )

  pub seek_immt_lem :
      (immt : Option Memtable) (rotated : List Record)
      → HoldsRotated immt rotated
      → (rs : List Record) × Gathers (as_of u n) rs (seek_immt (as_of start n) immt)
        × Permᴰ rs rotated
  unfolding seek_immt all_of
  seek_immt_lem none rotated s =
      ([], ([], refl, tt, nothing), subst (λ l. Permᴰ [] l) (sym s) Permᴰ.nil)
  seek_immt_lem (some m) rotated s =
      let (rs, part, e, asc, same, t) = seek_memtable_lem s in
      (
        rs,
        (
          part ∷ [],
          rw e refl,
          (asc, tt),
          subst (λ l. Thinned (as_of u n) rs l) (sym (append-nil part)) t,
        ),
        same,
      )

  outside-Unseen :
      (t : TableMeta) (rs : List Record)
      → is_apart t start end ≡ true
      → All (λ r. AtMost t.min_key.user_key r.user_key × AtMost r.user_key t.max_key.user_key) rs
      → All (Unseen (as_of u n)) rs
  outside-Unseen t rs e all =
      All-weaken (λ r b. apart-Unseen start end u n t r e h h' b.0 b.1) rs all

  seek_table_lem :
      (t : TableMeta) (rs : List Record)
      → table_scan t (as_of start n) ≡ some rs
      → seek_table table_scan (as_of start n) t ≡ ok rs
  unfolding seek_table or_fatal
  seek_table_lem t rs e = ap or_fatal e

  seek_tables_lem :
      (ts : List TableMeta)
      → All (λ t. IsScanned table_scan (as_of start n) t (contents t)) ts
      → Gathers
          (as_of u n)
          (level_records contents ts)
          (seek_tables table_scan (as_of start n) end ts)
  unfolding seek_tables level_records all_of
  seek_tables_lem [] all = ([], refl, tt, nothing)
  seek_tables_lem (t ∷ ts) (s, all) =
      let (iters, e, asc, thin) = seek_tables_lem ts all in
      elim (Bool-cases (is_apart t start end)) [
        | inl a ↦ (
          iters,
          rw a e,
          asc,
          Thinned-append (all-Unseen (contents t) (outside-Unseen t (contents t) a s.inside)) thin,
        )
        | inr a ↦ (
          from_key (as_of start n) (contents t) ∷ iters,
          rw (a, seek_table_lem t (from_key (as_of start n) (contents t)) s.gives, e) refl,
          (from_key-Ascending (as_of start n) (contents t) s.ordered, asc),
          Thinned-append (from_key-Thinned start u n (contents t) h) thin,
        )
      ]

  pub seek_levels_lem :
      (levels : List (List TableMeta))
      → All (All (λ t. IsScanned table_scan (as_of start n) t (contents t))) levels
      → Gathers
          (as_of u n)
          (table_records contents levels)
          (seek_levels table_scan (as_of start n) end levels)
  unfolding seek_levels table_records all_of
  seek_levels_lem [] all = ([], refl, tt, nothing)
  seek_levels_lem (tables ∷ levels) (s, all) =
      let (iters, e, asc, thin) = seek_tables_lem tables s in
      let (more, e', asc', thin') = seek_levels_lem levels all in
      (
        iters ++ more,
        rw (e, e') refl,
        All-append Ascending iters more asc asc',
        subst
            (λ l.
              Thinned (as_of u n) (level_records contents tables ++ table_records contents levels)
                l)
            (sym (all_of-append iters more)) (Thinned-append thin thin'),
      )
