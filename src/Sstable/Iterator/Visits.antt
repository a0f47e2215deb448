-- ===== src/Sstable/Iterator/Visits.antt =====
-- The iterator of a table visits the records of its blocks.
use ascent_db.Prelude.{
  ℕ, ◌+◌, ◌≡◌, ◌∙◌, refl, sym, arith, List, [], ◌∷◌, ◌++◌, append_assoc, append-nil, length,
  length-append, get_elem?, none, some, true, false, lt→ltb, le→ltb, ok,
}
use ascent_db.Record.{Record}
use ascent_db.Sstable.Format.{IndexEntry}
use ascent_db.Sstable.Reader.{read_block}
use ascent_db.Sstable.Reader.Table.{Indexed, none_left, block}
use ascent_db.Sstable.Iterator.{
  SstableIterator, valid, current, load_block, iterator, next_block, next,
}

pub get_elem?-middle :
    {A : Type 0} (front : List A) (x : A) (back : List A)
    → get_elem? (front ++ (x ∷ back)) (length front) ≡ some x
get_elem?-middle [] x back = refl
get_elem?-middle (y ∷ front) x back = get_elem?-middle front x back

get_elem?-end : {A : Type 0} (l : List A) → get_elem? l (length l) ≡ none
get_elem?-end [] = refl
get_elem?-end (x ∷ l) = get_elem?-end l

module _ (file : List ℕ) (index : List IndexEntry) where
  -- Valid, the current record and Next give these records, one after the other, and then no more.
  pub data Visits : SstableIterator → List Record → Type 0 where
    ended : {iter : SstableIterator} → valid iter ≡ false → Visits iter []
    visit :
        {iter iter' : SstableIterator} {r : Record} {rs : List Record}
        → valid iter ≡ true
        → current iter ≡ ok r
        → next file index iter ≡ ok iter'
        → Visits iter' rs
        → Visits iter (r ∷ rs)

  -- Loading a block leads to an iterator that visits these records.
  abbrev pub Loads : SstableIterator → List Record → Type 0
  Loads iter rs =
      (after : SstableIterator) × (load_block file index iter ≡ ok after) × Visits after rs

  abbrev pub at_entry : ℕ → List Record → ℕ → SstableIterator
  at_entry b entries i = record { block_index = b; block = some entries; entry_index = i }

  -- Inside a block, whose last record is followed by what the next block gives.
  pub in_block :
      (b : ℕ) (front : List Record) (r : Record) (back rest : List Record)
      → ((i : ℕ) → Loads (record (at_entry b (front ++ (r ∷ back)) i) { block_index = b + 1 }) rest)
      → Visits (at_entry b (front ++ (r ∷ back)) (length front)) (r ∷ (back ++ rest))
  unfolding valid current next next_block
  in_block b front r [] rest loads =
      let n : length (front ++ (r ∷ [])) ≡ length front + 1 =
        omega (arith, length-append front (r ∷ [])) in
      visit (lt→ltb _ _ (omega (arith, n))) (rw (get_elem?-middle front r [], current) refl)
        (rw (le→ltb (length front + 1) (length (front ++ (r ∷ []))) (omega (arith, n)), next_block)
          ((loads (length front)).1))
        (loads (length front)).2
  in_block b front r (x ∷ back) rest loads =
      let n : length (front ++ (r ∷ x ∷ back)) ≡ length front + (2 + length back) =
        omega (arith, length-append front (r ∷ x ∷ back)) in
      let e : (front ++ (r ∷ [])) ++ (x ∷ back) ≡ front ++ (r ∷ x ∷ back) =
        append_assoc front (r ∷ []) (x ∷ back) in
      let m : length (front ++ (r ∷ [])) ≡ length front + 1 =
        omega (arith, length-append front (r ∷ [])) in
      let ih = in_block b (front ++ (r ∷ [])) x back rest (rw e loads) in
      visit (lt→ltb _ _ (omega (arith, n))) (rw (get_elem?-middle front r (x ∷ back), current) refl)
        (rw (lt→ltb (length front + 1) (length (front ++ (r ∷ x ∷ back))) (omega (arith, n))) refl)
        (rw (e, m) at ih)

  -- A whole block.
  from_start :
      (b : ℕ) (rs : List Record) (r : Record) (rest : List Record)
      → ((i : ℕ) → Loads (record (at_entry b (rs ++ (r ∷ [])) i) { block_index = b + 1 }) rest)
      → Visits (at_entry b (rs ++ (r ∷ [])) 0) (rs ++ (r ∷ rest))
  from_start b [] r rest loads = in_block b [] r [] rest loads
  from_start b (x ∷ rs) r rest loads =
      rw (append_assoc rs (r ∷ []) rest) at (in_block b [] x (rs ++ (r ∷ [])) rest loads)

  -- Behind the last block.
  load_end : (iter : SstableIterator) → get_elem? index iter.block_index ≡ none → Loads iter []
  unfolding load_block valid
  load_end iter h = (record iter { block = none }, rw (h, load_block) refl, ended refl)

  pub load_some :
      (iter : SstableIterator) (e : IndexEntry) (b : List Record)
      → get_elem? index iter.block_index ≡ some e
      → read_block file e ≡ ok b
      → load_block file index iter ≡ ok (at_entry iter.block_index b 0)
  unfolding load_block
  load_some iter e b h q = rw (h, load_block, q) refl

  -- The blocks that the entries behind `front` stand for.
  pub load_lem :
      (front : List IndexEntry) {es : List IndexEntry} {rest : List Record} (iter : SstableIterator)
      → Indexed file es rest
      → index ≡ front ++ es
      → iter.block_index ≡ length front
      → Loads iter rest
  load_lem front iter none_left e n = load_end iter (rw (e, n, append-nil) (get_elem?-end front))
  load_lem front iter (block {e = x} {es = es} {rest = rest} rs r q sep i) e n =
      let here : get_elem? index iter.block_index ≡ some x =
        rw (e, n) (get_elem?-middle front x es) in
      let later = λ (j : ℕ).
        load_lem (front ++ (x ∷ []))
          (record (at_entry iter.block_index (rs ++ (r ∷ [])) j) {
            block_index = iter.block_index + 1;
          })
          i (e ∙ sym (append_assoc front (x ∷ []) es))
          (omega (arith, n, length-append front (x ∷ []))) in
      (
        at_entry iter.block_index (rs ++ (r ∷ [])) 0,
        load_some iter x (rs ++ (r ∷ [])) here q,
        from_start iter.block_index rs r rest later,
      )

-- On a table whose index stands for its blocks, Iterator ends without a panic, and the iterator
-- visits all records of the table in order, across its blocks.
pub iterator-Visits :
    (file : List ℕ) (index : List IndexEntry) (all : List Record)
    → Indexed file index all
    → (iter : SstableIterator) × (iterator file index ≡ ok iter) × Visits file index iter all
unfolding iterator
iterator-Visits file index all i =
    load_lem file index [] (record { block_index = 0; block = none; entry_index = 0 }) i refl refl
