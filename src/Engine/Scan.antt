-- ===== src/Engine/Scan.antt =====
-- internal/engine/iterator.go: the iterator of a scan, over the heap of the iterators of its sources.
-- Each source is the list of the records that its iterator has still to visit.
pub mod Groups
pub mod Reading
pub mod Shown
pub mod Client
pub mod Sources
pub mod Thinned
pub mod Outside
pub mod Gathered
pub mod Whole
use ascent_db.Prelude.{
  ℕ, zero, suc, List, [], ◌∷◌, Option, none, some, Bool, true, false, ◌&&◌, not, ltb, is_less,
  if◌then◌else◌, Result, ok, panic, ◌>>=◌,
}
use ascent_db.Bytes.Compare.{compare_bytes, equal_bytes}
use ascent_db.Record.{Record, is_tombstone}
use ascent_db.Merge.{Item, new_iterator_heap, empty, merge_record, pop_and_advance}

pub record ScanIterator : Type 0 where
  pub end : List ℕ
  pub seq_num : ℕ
  pub current : Option Record
  pub heap : List Item

-- The best record so far, and the next one of the user key.
unfoldable pub pick : ℕ → Option Record → Record → Option Record
pick seq_num none rec = if ltb seq_num rec.seq_num then none else some rec
pick seq_num (some b) rec =
    if ltb seq_num rec.seq_num
    then some b
    else if ltb b.seq_num rec.seq_num
    then some rec
    else some b

-- The inner loop of advance, at most `fuel` rounds: it takes the records of the user key off the heap.
unfoldable pub collect :
    ℕ → ℕ → List ℕ → List Item → Option Record → Result (Option Record × List Item)
collect zero seq_num user_key heap best = panic
collect (suc fuel) seq_num user_key heap best = if empty heap then ok (best, heap) else (do
  top ← merge_record heap
  let (rec, heap') = pop_and_advance heap
  let rest = collect fuel seq_num user_key heap' (pick seq_num best rec)
  if equal_bytes top.user_key user_key then rest else ok (best, heap))

-- What is shown of the best record of a user key.
unfoldable pub shown : Option Record → Option Record
shown none = none
shown (some r) = if is_tombstone r then none else some r

-- advance behind the inner loop: the best record is shown, or the outer loop goes on.
unfoldable pub show_or_continue :
    ScanIterator → Option Record → List Item → Result ScanIterator → Result ScanIterator
show_or_continue s none heap rest = rest
show_or_continue s (some rec) heap rest = ok (record s { current = some rec; heap = heap })

-- advance at a user key that is below the end, or not.
unfoldable pub at_user_key :
    Bool
    → ScanIterator
    → Result (Option Record × List Item)
    → (List Item → Result ScanIterator)
    → Result ScanIterator
at_user_key false s found continue = ok (record s { current = none })
at_user_key true s found continue = do
  (best, heap) ← found
  show_or_continue s (shown best) heap (continue heap)

-- advance, at most `fuel` rounds of its outer loop.
unfoldable pub advance : ℕ → ScanIterator → Result ScanIterator
advance zero s = panic
advance (suc fuel) s = if empty s.heap then ok (record s { current = none }) else (do
  top ← merge_record s.heap
  at_user_key (is_less (compare_bytes top.user_key s.end)) s
      (collect (suc fuel) s.seq_num top.user_key s.heap none)
      (λ heap. advance fuel (record s { heap = heap })))

-- NewScanIterator
unfoldable pub new_scan_iterator : ℕ → List (List Record) → List ℕ → ℕ → Result ScanIterator
new_scan_iterator fuel iters end seq_num =
    advance fuel
      (record { end = end; seq_num = seq_num; current = none; heap = new_iterator_heap iters })

unfoldable pub valid : ScanIterator → Bool
valid s = elim s.current [ none ↦ false | some r ↦ true ]

-- Key and Value
unfoldable pub key : ScanIterator → Result (List ℕ)
key s = elim s.current [ none ↦ panic | some r ↦ ok r.user_key ]

unfoldable pub value : ScanIterator → Result (List ℕ)
value s = elim s.current [ none ↦ panic | some r ↦ ok r.value ]

-- Next
unfoldable pub next : ℕ → ScanIterator → Result ScanIterator
next fuel s = elim s.current [ none ↦ ok s | some r ↦ advance fuel s ]

-- The loop of a client, while Valid: the keys and values that it sees.
unfoldable pub drain : ℕ → ScanIterator → Result (List (List ℕ × List ℕ))
drain zero s = panic
drain (suc fuel) s =
    let go = (do
      k ← key s
      v ← value s
      s' ← next (suc fuel) s
      rest ← drain fuel s'
      ok ((k, v) ∷ rest)) in
    if valid s then go else ok []
