-- ===== src/Memtable/Iterate.antt =====
-- The iterator visits the records of the skip list in their order.
use ascent_db.Prelude.{
  All-weaken, ℕ, zero, suc, ◌≤◌, ◌<◌, ◌≡◌, ◌∙◌, refl, ap, arith, List, [], ◌∷◌, length,
  length-append, All, Option, if◌then◌else◌, is_less, Bool-cases, inl, inr, Result, ok, panic,
  ◌>>=◌,
}
use ascent_db.Record.{InternalKey, Record, compare}
use ascent_db.Memtable.{Skiplist}
use ascent_db.Memtable.Nodes.{
  node_at, height, load-node_at, forward_at-pointer, first_above, first_above-up, Linked,
  Linked-head, Linked-tail, Linked-suffix,
}
use ascent_db.Memtable.Search.{is_below}
use ascent_db.Memtable.Invariant.{
  entry, entries, IsSkiplist, front, back, back-All, IsSkiplist-Split, front-append-back,
  seek_down-last,
}
use ascent_db.Memtable.Table.{MemtableIterator, next, valid, internal_key, value, seek, iterator}

-- The loop of the code that uses an iterator: the records that it visits, one each round.
unfoldable pub visit : ℕ → MemtableIterator → Result (List Record)
visit zero it = panic
visit (suc fuel) it =
    if valid it
    then (do
      k ← internal_key it
      v ← value it
      it ← next it
      rest ← visit fuel it
      ok (record { internal_key = k; value = v } ∷ rest))
    else ok []

-- The records from the first one that is not before the key.
unfoldable pub from_key : InternalKey → List Record → List Record
from_key key [] = []
from_key key (r ∷ rs) =
    let rest = from_key key rs in if is_less (compare r.internal_key key) then rest else r ∷ rs

visit-nodes :
    (sl : Skiplist) (l : List ℕ) (fuel : ℕ)
    → Linked sl.heap l
    → All (λ p. 0 < height sl.heap p) l
    → length l < fuel
    → visit fuel (record { list = sl; curr = first_above sl.heap 0 l }) ≡ ok (entries sl.heap l)
unfolding visit valid internal_key value next
visit-nodes sl l zero linked high enough = absurd (omega arith)
visit-nodes sl [] (suc fuel) linked high enough = unfold first_above in refl
visit-nodes sl (p ∷ l) (suc fuel) linked (hp, high) enough = rw (first_above-up sl.heap 0 p l hp) (
    rw
      (
        load-node_at sl.heap p hp,
        forward_at-pointer sl.heap p 0 (Linked-head sl.heap p l linked 0 hp),
      )
      (rw (visit-nodes sl l fuel (Linked-tail sl.heap p l linked) high (omega arith))
        (unfold entry in refl)))

back-entries :
    (sl : Skiplist) (key : InternalKey) (l : List ℕ)
    → entries sl.heap (back sl.heap key l) ≡ from_key key (entries sl.heap l)
unfolding back from_key is_below entry
back-entries sl key [] = refl
back-entries sl key (p ∷ l) = elim (Bool-cases (is_less (compare (node_at sl.heap p).key key))) [
  | inl e ↦ rw e (back-entries sl key l)
  | inr e ↦ rw e
]

length-back :
    (sl : Skiplist) (key : InternalKey) (l : List ℕ) → length (back sl.heap key l) ≤ length l
length-back sl key l = omega (
  arith,
  ap length (front-append-back sl.heap key l),
  length-append (front sl.heap key l) (back sl.heap key l),
)

-- On a well-formed skip list Seek ends, and the loop over the iterator from there visits the records
-- from the first one that is not before the key, each once and in their order; as many rounds as the
-- skip list has nodes, and one, are enough.
pub seek-visit :
    {sl : Skiplist} {l : List ℕ} (key : InternalKey) (curr : Option ℕ)
    → IsSkiplist sl l
    → (it : MemtableIterator) × (seek (record { list = sl; curr = curr }) key ≡ ok it)
      × (visit (suc (length l)) it ≡ ok (from_key key (entries sl.heap l)))
unfolding seek
seek-visit {sl} {l} key curr s =
    let (found, e) = seek_down-last key s in
    let behind = back sl.heap key l in
    (
      record { list = sl; curr = first_above sl.heap 0 behind },
      rw (found, forward_at-pointer sl.heap _ 0 e),
      visit-nodes sl behind (suc (length l))
            (Linked-suffix sl.heap (0 ∷ front sl.heap key l) behind (IsSkiplist-Split key s).linked)
            (back-All _ sl.heap key l (All-weaken (λ p b. b.0) l s.heights))
            (omega (arith, length-back sl key l))
          ∙ ap ok (back-entries sl key l),
    )

-- The loop over a new iterator visits all records.
pub iterator-visit :
    {sl : Skiplist} {l : List ℕ}
    → IsSkiplist sl l
    → (it : MemtableIterator) × (iterator sl ≡ ok it)
      × (visit (suc (length l)) it ≡ ok (entries sl.heap l))
unfolding iterator
iterator-visit {sl} {l} s =
    let high0 : 0 < height sl.heap 0 = omega (arith, s.head_height, s.level_pos, s.level_fits) in
    (
      record { list = sl; curr = first_above sl.heap 0 l },
      rw (forward_at-pointer sl.heap 0 0 (Linked-head sl.heap 0 l s.linked 0 high0)),
      visit-nodes sl l (suc (length l)) (Linked-tail sl.heap 0 l s.linked)
          (All-weaken (λ p b. b.0) l s.heights) (omega arith),
    )
