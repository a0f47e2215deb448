-- ===== src/Merge.antt =====
-- internal/iterator_heap.go and internal/compaction/merger.go: several iterators, merged by a heap. An
-- iterator is the list of the records that it has still to visit.
pub mod Order
pub mod Drain
use ascent_db.Prelude.{
  ℕ, zero, suc, List, [], ◌∷◌, Option, none, some, Bool, true, false, if◌then◌else◌, is_less,
  Result, ok, panic, ◌>>=◌,
}
use ascent_db.Record.{Record, compare}
use ascent_db.Memtable.{zero_key}

pub record Item : Type 0 where
  pub current : Record
  pub iter : List Record

-- An item for the iterator, if it is valid.
unfoldable pub push_iter : List Record → List Item → List Item
push_iter [] items = items
push_iter (r ∷ rs) items = record { current = r; iter = r ∷ rs } ∷ items

unfoldable pub new_iterator_heap : List (List Record) → List Item
new_iterator_heap [] = []
new_iterator_heap (it ∷ iters) = push_iter it (new_iterator_heap iters)

unfoldable pub less_item : Item → Item → Bool
less_item x y = is_less (compare x.current.internal_key y.current.internal_key)

-- heap.Pop takes out an item than which no other is less.
unfoldable pub pop : List Item → Option (Item × List Item)
pop [] = none
pop (x ∷ xs) = elim (pop xs) [
  | none ↦ some (x, [])
  | some p ↦ if less_item p.0 x then some (p.0, x ∷ p.1) else some (x, xs)
]

unfoldable pub empty : List Item → Bool
empty [] = true
empty (x ∷ xs) = false

-- The item in front of the heap is the one that heap.Pop would take out.
unfoldable pub peek : List Item → Option Item
peek items = elim (pop items) [ none ↦ none | some p ↦ some p.0 ]

-- `iter.Next()`
unfoldable pub advanced : List Record → List Record
advanced [] = []
advanced (r ∷ rs) = rs

unfoldable pub pop_and_advance : List Item → Record × List Item
pop_and_advance items = elim (pop items) [
  | none ↦ (record { internal_key = zero_key; value = [] }, [])
  | some p ↦ (p.0.current, push_iter (advanced p.0.iter) p.1)
]

-- `iter.heap.Peek().Record`
unfoldable pub merge_record : List Item → Result Record
merge_record items = elim (peek items) [ none ↦ panic | some x ↦ ok x.current ]

-- The loop over a MergeIterator: the records that it visits, one each round.
unfoldable pub drain : ℕ → List Item → Result (List Record)
drain zero items = panic
drain (suc fuel) items =
    if empty items
    then ok []
    else (do r ← merge_record items; rest ← drain fuel (pop_and_advance items).1; ok (r ∷ rest))
