-- ===== src/Sstable/Iterator/Seek.antt =====
-- Seek of the iterator of a table.
use ascent_db.Prelude.{
  ℕ, suc, ◌+◌, ◌≤◌, ◌<◌, ◌≡◌, ◌∙◌, refl, sym, ap, arith, List, [], ◌∷◌, ◌++◌, append_assoc,
  append-nil, length, length-append, get_elem?, none, some, false, Bool-cases, inl, inr, is_less,
  less, leb, le→leb, ok,
}
use mathlib.Core.Path.{subst}
use ascent_db.Record.{InternalKey, Record, compare}
use ascent_db.Record.Order.{compare_trans}
use ascent_db.Sstable.Format.{IndexEntry}
use ascent_db.Sstable.Reader.{keys, read_block, Sorted, smaller}
use ascent_db.Sstable.Reader.Lookup.{is_less-eq}
use ascent_db.Sstable.Reader.Table.{
  Indexed, none_left, block, All-back, Sorted-parts, separators, separators-Sorted,
  search-separators,
}
use ascent_db.Memtable.Iterate.{from_key}
use ascent_db.Sstable.Iterator.{
  SstableIterator, valid, seek_in_block, seek_at, seek, find_block_index, passed,
}
use ascent_db.Sstable.Iterator.Visits.{
  Visits, ended, Loads, at_entry, get_elem?-middle, in_block, load_some, load_lem,
}

from_key-less :
    (target : InternalKey) (x : Record) (xs : List Record)
    → compare x.internal_key target ≡ less
    → from_key target (x ∷ xs) ≡ from_key target xs
unfolding from_key
from_key-less target x xs h = rw h refl

-- A block whose last key is below the target is passed over.
from_key-back :
    (target : InternalKey) (rs : List Record) (r : Record) (rest : List Record)
    → Sorted (keys (rs ++ (r ∷ rest)))
    → compare r.internal_key target ≡ less
    → from_key target (rs ++ (r ∷ rest)) ≡ from_key target rest
unfolding Sorted
from_key-back target [] r rest s h = from_key-less target r rest h
from_key-back target (x ∷ rs) r rest (before, s) h =
    let below : compare x.internal_key r.internal_key ≡ less =
      All-back (λ k. compare x.internal_key k ≡ less) rs r rest before in
    from_key-less target x (rs ++ (r ∷ rest))
      (compare_trans x.internal_key r.internal_key target below h)
    ∙ from_key-back target rs r rest s h

-- Where the loop of Seek stops in a block whose last key is not below the target.
record Stop (target : InternalKey) (rs : List Record) (r : Record) (rest : List Record)
    : Type 0 where
  front : List Record
  y : Record
  back : List Record
  split : rs ++ (r ∷ []) ≡ front ++ (y ∷ back)
  counted : passed target (rs ++ (r ∷ [])) ≡ length front
  left : from_key target (rs ++ (r ∷ rest)) ≡ y ∷ (back ++ rest)

stop_lem :
    (target : InternalKey) (rs : List Record) (r : Record) (rest : List Record)
    → is_less (compare r.internal_key target) ≡ false
    → Stop target rs r rest
unfolding passed from_key
stop_lem target [] r rest h = record {
  front = [];
  y = r;
  back = [];
  split = refl;
  counted = rw h refl;
  left = rw h refl;
}
stop_lem target (x ∷ rs) r rest h = elim (Bool-cases (is_less (compare x.internal_key target))) [
  | inl e ↦
      let s = stop_lem target rs r rest h in
      record {
        front = x ∷ s.front;
        y = s.y;
        back = s.back;
        split = ap (◌∷◌ x) s.split;
        counted = rw e (ap suc s.counted);
        left = rw e s.left;
      }
  | inr e ↦ record {
    front = [];
    y = x;
    back = rs ++ (r ∷ []);
    split = refl;
    counted = rw e refl;
    left = rw e (ap (◌∷◌ x) (sym (append_assoc rs (r ∷ []) rest)));
  }
]

module _ (file : List ℕ) (index : List IndexEntry) (target : InternalKey) where
  abbrev Seeks : SstableIterator → ℕ → List Record → Type 0
  Seeks iter idx rs =
      (after : SstableIterator) × (seek_at file index target iter idx ≡ ok after)
      × Visits file index after rs

  seek_end : (iter : SstableIterator) (idx : ℕ) → length index ≤ idx → Seeks iter idx []
  unfolding seek_at valid
  seek_end iter idx h =
      (record iter { block = none }, rw (le→leb (length index) idx h) refl, ended refl)

  seek_here :
      (iter : SstableIterator) (idx : ℕ) (e : IndexEntry) (rs : List Record) (r : Record)
      (rest : List Record)
      → get_elem? index idx ≡ some e
      → idx < length index
      → read_block file e ≡ ok (rs ++ (r ∷ []))
      → is_less (compare r.internal_key target) ≡ false
      → ((i : ℕ)
          → Loads file index
              (record (at_entry file index idx (rs ++ (r ∷ [])) i) { block_index = idx + 1 })
              rest)
      → Seeks iter idx (from_key target (rs ++ (r ∷ rest)))
  unfolding seek_at seek_in_block
  seek_here iter idx e rs r rest here lt q h later =
      let s = stop_lem target rs r rest h in
      let inside : leb (length index) idx ≡ false = ground (arith, lt) in
      let n : length s.front < length (rs ++ (r ∷ [])) =
        omega (arith, ap length s.split, length-append s.front (s.y ∷ s.back)) in
      let short : leb (length (rs ++ (r ∷ []))) (length s.front) ≡ false = ground (arith, n) in
      let loaded =
        load_some file index (record iter { block_index = idx }) e (rs ++ (r ∷ [])) here q in
      (
        at_entry file index idx (rs ++ (r ∷ [])) (length s.front),
        rw (inside, loaded, s.counted, short) refl,
        rw (s.left, s.split)
            (in_block file index idx s.front s.y s.back rest (
              subst
                (λ b.
                  (i : ℕ)
                  → Loads file index
                      (record (at_entry file index idx b i) { block_index = idx + 1 }) rest)
                s.split later)),
      )

  seek_at_lem :
      (front : List IndexEntry) {es : List IndexEntry} {rest : List Record} (iter : SstableIterator)
      (idx : ℕ)
      → Indexed file es rest
      → index ≡ front ++ es
      → Sorted (keys rest)
      → idx ≡ length front + smaller target (separators es)
      → Seeks iter idx (from_key target rest)
  unfolding smaller from_key
  seek_at_lem front iter idx none_left e s n =
      seek_end iter idx (omega (arith, n, ap length e, ap length (append-nil front)))
  seek_at_lem front iter idx (block {e = x} {es = es} {rest = rest} rs r q sep i) e s n =
      let (parts, before, later) = Sorted-parts rs r rest s in
      let shifted : index ≡ (front ++ (x ∷ [])) ++ es = e ∙ sym (append_assoc front (x ∷ []) es) in
      let m = length-append front (x ∷ []) in
      elim (Bool-cases (is_less (compare x.separator_key target))) [
        | inl lt ↦
            let below : compare r.internal_key target ≡ less = is_less-eq _ (rw sep at lt) in
            rw (from_key-back target rs r rest s below) (
              seek_at_lem (front ++ (x ∷ [])) iter idx i shifted later
                (omega (arith, m, rw lt at n)))
        | inr ge ↦
            let place : idx ≡ length front = omega (arith, rw ge at n) in
            seek_here iter idx x rs r rest (rw (place, e) (get_elem?-middle front x es))
              (omega (arith, place, ap length e, length-append front (x ∷ es))) q (rw sep at ge)
              (λ j.
                load_lem file index (front ++ (x ∷ []))
                  (record (at_entry file index idx (rs ++ (r ∷ [])) j) { block_index = idx + 1 }) i
                  shifted (omega (arith, place, m)))
      ]

-- On a table whose index stands for its blocks and whose keys are in order over all blocks, Seek ends
-- without a panic, and the iterator then visits all records that are not below the target, in order.
pub seek-Visits :
    (file : List ℕ) (index : List IndexEntry) (all : List Record) (target : InternalKey)
    (iter : SstableIterator)
    → Indexed file index all
    → Sorted (keys all)
    → (after : SstableIterator) × (seek file index target iter ≡ ok after)
      × Visits file index after (from_key target all)
unfolding seek find_block_index
seek-Visits file index all target iter i s =
    seek_at_lem file index target [] iter (find_block_index target index) i refl s
      (omega (arith, search-separators target index (separators-Sorted i s)))
