-- ===== src/Merge/Drain.antt =====
-- The merge visits the records of all iterators in order.
use ascent_db.Prelude.{
  All-append, ℕ, zero, suc, ◌≤◌, ◌<◌, ◌≡◌, ◌∙◌, refl, ap, arith, List, [], ◌∷◌, ◌++◌, length, All,
  some, ok,
}
use mathlib.Core.List.{Permᴰ}
use ascent_db.Record.{Record}
use ascent_db.Merge.{
  Item, push_iter, new_iterator_heap, pop, peek, empty, advanced, pop_and_advance, merge_record,
  drain,
}
use ascent_db.Merge.Order.{
  Upto, Ascending, All-Upto, pop-Popped, held, held-Perm, length-Perm, held-push_iter,
}
use ascent_db.Memtable.Permuted.{All-Perm}

-- The item holds the first record of its iterator, whose records are in order.
abbrev pub Sound : Item → Type 0
Sound x = (rs : List Record) × (x.iter ≡ x.current ∷ rs) × Ascending (x.current ∷ rs)

push_iter-Sound :
    (it : List Record) (items : List Item)
    → Ascending it
    → All Sound items
    → All Sound (push_iter it items)
unfolding push_iter
push_iter-Sound [] items o all = all
push_iter-Sound (r ∷ rs) items o all = ((rs, refl, o), all)

pub new_iterator_heap-Sound :
    (iters : List (List Record)) → All Ascending iters → All Sound (new_iterator_heap iters)
unfolding new_iterator_heap
new_iterator_heap-Sound [] all = tt
new_iterator_heap-Sound (it ∷ iters) (o, all) =
    push_iter-Sound it (new_iterator_heap iters) o (new_iterator_heap-Sound iters all)

-- All records of the iterators.
unfoldable pub all_of : List (List Record) → List Record
all_of [] = []
all_of (it ∷ iters) = it ++ all_of iters

pub held-new_iterator_heap :
    (iters : List (List Record)) → held (new_iterator_heap iters) ≡ all_of iters
unfolding new_iterator_heap all_of
held-new_iterator_heap [] = unfold held in refl
held-new_iterator_heap (it ∷ iters) =
    held-push_iter it (new_iterator_heap iters) ∙ ap (◌++◌ it) (held-new_iterator_heap iters)

-- What is not before the first record of each iterator is not before any.
Upto-held :
    (r : Record) (items : List Item)
    → All (λ z. Upto r z.current) items
    → All Sound items
    → All (Upto r) (held items)
unfolding held Ascending
Upto-held r [] least all = tt
Upto-held r (z ∷ items) (h, least) ((rs, e, o), all) =
    rw e (
      h,
      All-append _ rs (held items) (All-Upto r z.current rs h o.0) (Upto-held r items least all),
    )

-- A heap gives the records of a list, one after the other.
pub data Yields : List Item → List Record → Type 0 where
  done : Yields [] []
  more :
      {y : Item} {items rest : List Item} {x : Item} {l : List Record}
      → pop (y ∷ items) ≡ some (x, rest)
      → Yields (push_iter (advanced x.iter) rest) l
      → Yields (y ∷ items) (x.current ∷ l)

-- What one round of the merge takes out and leaves.
record Stepped (items : List Item) : Type 0 where
  x : Item
  rest : List Item
  popped : pop items ≡ some (x, rest)
  sound : All Sound (push_iter (advanced x.iter) rest)
  least : All (Upto x.current) (held (push_iter (advanced x.iter) rest))
  split : Permᴰ (held items) (x.current ∷ held (push_iter (advanced x.iter) rest))

step : (y : Item) (items : List Item) → All Sound (y ∷ items) → Stepped (y ∷ items)
unfolding Ascending
step y items all =
    let (x, rest, p) = pop-Popped y items in
    let ((rs, e, o), others) = All-Perm Sound p.split all in
    let moved : advanced x.iter ≡ rs = ap advanced e ∙ unfold advanced in refl in
    let left : held (push_iter (advanced x.iter) rest) ≡ rs ++ held rest =
      held-push_iter (advanced x.iter) rest ∙ ap (λ l. l ++ held rest) moved in
    let whole : held (x ∷ rest) ≡ x.current ∷ (rs ++ held rest) =
      unfold held in ap (λ l. l ++ held rest) e in
    record {
      x = x;
      rest = rest;
      popped = p.popped;
      sound = rw moved (push_iter-Sound rs rest o.1 others);
      least = rw left (All-append _ rs (held rest) o.0 (Upto-held x.current rest p.least others));
      split = rw left (rw whole at (held-Perm p.split));
    }

-- The heap yields all records of its iterators, in order.
pub merged :
    (n : ℕ) (items : List Item)
    → length (held items) ≤ n
    → All Sound items
    → (l : List Record) × Yields items l × Ascending l × Permᴰ (held items) l
unfolding Ascending
merged n [] enough all = ([], Yields.done, tt, unfold held in Permᴰ.nil)
merged zero (y ∷ items) enough all = absurd (omega (arith, length-Perm (step y items all).split))
merged (suc n) (y ∷ items) enough all =
    let s = step y items all in
    let (l, yields, o, d) =
      merged n (push_iter (advanced s.x.iter) s.rest) (omega (arith, length-Perm s.split))
        s.sound in
    (
      s.x.current ∷ l,
      Yields.more s.popped yields,
      (All-Perm _ d s.least, o),
      Permᴰ.trans s.split (Permᴰ.cons refl d),
    )

-- Peek and PopAndAdvance of a heap that is not empty.
pub merge_record-popped :
    (items rest : List Item) (x : Item)
    → pop items ≡ some (x, rest)
    → merge_record items ≡ ok x.current
unfolding merge_record peek
merge_record-popped items rest x e = rw (e, merge_record, peek)

pub pop_and_advance-popped :
    (items rest : List Item) (x : Item)
    → pop items ≡ some (x, rest)
    → pop_and_advance items ≡ (x.current, push_iter (advanced x.iter) rest)
unfolding pop_and_advance push_iter
pop_and_advance-popped items rest x e = rw (e, pop_and_advance)

drain-Yields :
    (fuel : ℕ) (items : List Item) (l : List Record)
    → Yields items l
    → length l < fuel
    → drain fuel items ≡ ok l
unfolding drain empty
drain-Yields zero items l y enough = absurd (omega arith)
drain-Yields (suc fuel) items [] Yields.done enough = refl
drain-Yields (suc fuel) items (r ∷ l)
      (Yields.more {y = y} {items = others} {rest = rest} {x = x} e m) enough =
    rw (
      merge_record-popped (y ∷ others) rest x e,
      pop_and_advance-popped (y ∷ others) rest x e,
      drain-Yields fuel (push_iter (advanced x.iter) rest) l m (omega arith),
    )

-- Over iterators whose records are in order, the loop over the merge ends, and it visits all their
-- records, each once and in order; one round more than there are records is enough.
pub drain-Ascending :
    (iters : List (List Record))
    → All Ascending iters
    → (l : List Record) × (drain (suc (length (all_of iters))) (new_iterator_heap iters) ≡ ok l)
      × Ascending l
      × Permᴰ (all_of iters) l
drain-Ascending iters all =
    let e = held-new_iterator_heap iters in
    let (l, y, o, d) =
      merged (length (all_of iters)) (new_iterator_heap iters) (omega (arith, ap length e))
        (new_iterator_heap-Sound iters all) in
    let d' : Permᴰ (all_of iters) l = rw e at d in
    (l, drain-Yields _ _ l y (omega (arith, length-Perm d')), o, d')
