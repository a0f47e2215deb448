-- ===== src/Engine/Flushed.antt =====
-- What the loop of flush hands to the table: the records of the memtable in order, and their range.
use ascent_db.Prelude.{
  ℕ, zero, suc, ◌<◌, ◌≡◌, ◌∙◌, refl, sym, arith, List, [], ◌∷◌, ◌++◌, length, All, All-weaken, none,
  some, false, less, is_greater, Result, ok, err, panic, ◌>>=◌,
}
use mathlib.Core.Path.{subst}
use mathlib.Core.List.{Memᴰ, Permᴰ}
use mathlib.Core.List.Permᴰ
use ascent_db.Bytes.Compare.{
  compare_bytes, compare_bytes-eq, compare_bytes_trans, compare_bytes_refl,
}
use ascent_db.Record.{InternalKey, Record, IsRecord, compare}
use ascent_db.Memtable.{Skiplist}
use ascent_db.Memtable.Nodes.{
  height, load-node_at, forward_at-pointer, first_above, first_above-up, Linked, Linked-head,
  Linked-tail,
}
use ascent_db.Memtable.Invariant.{entry, entries}
use ascent_db.Memtable.Permuted.{All-Perm, Memᴰ-Perm}
use ascent_db.Memtable.Table.{
  Memtable, MemtableIterator, iterator, valid, internal_key, value, next,
}
use ascent_db.Memtable.History.{Holds}
use ascent_db.Sstable.Format.{Filter}
use ascent_db.Sstable.Filter as Filter
use ascent_db.Sstable.Reader.{keys, Sorted}
use ascent_db.Sstable.Writer.{TableWriter, create, add}
use ascent_db.Sstable.Writer.Invariant.{IsWriter, all_records, add_records, add_records-create}
use ascent_db.Engine.Flush.{Range, extend, flush_loop}

-- The range after a list of records.
unfoldable pub extend_all : Range → List Record → Range
extend_all range [] = range
extend_all range (r ∷ rs) = extend_all (extend range r.internal_key) rs

bind_ext :
    {A B : Type 0} (m : Result A) {f g : A → Result B}
    → ((a : A) → f a ≡ g a)
    → (m >>= f) ≡ (m >>= g)
bind_ext (ok a) e = e a
bind_ext (err x) e = refl
bind_ext panic e = refl

bind_assoc :
    {A B C : Type 0} (m : Result A) (f : A → Result B) (g : B → Result C)
    → ((m >>= f) >>= g) ≡ (m >>= λ a. f a >>= g)
bind_assoc (ok a) f g = refl
bind_assoc (err x) f g = refl
bind_assoc panic f g = refl

flush_loop-nodes :
    (sl : Skiplist) (l : List ℕ) (fuel : ℕ) (w : TableWriter) (range : Range)
    → Linked sl.heap l
    → All (λ p. 0 < height sl.heap p) l
    → length l < fuel
    → flush_loop fuel (record { list = sl; curr = first_above sl.heap 0 l }) w range
      ≡ (add_records w (entries sl.heap l) >>= λ w'. ok (w', extend_all range (entries sl.heap l)))
unfolding flush_loop valid internal_key value next add_records extend_all entry
flush_loop-nodes sl l zero w range linked high enough = absurd (omega arith)
flush_loop-nodes sl [] (suc fuel) w range linked high enough = unfold first_above in refl
flush_loop-nodes sl (p ∷ l) (suc fuel) w range linked (hp, high) enough =
    rw (first_above-up sl.heap 0 p l hp) (
      rw
        (
          load-node_at sl.heap p hp,
          forward_at-pointer sl.heap p 0 (Linked-head sl.heap p l linked 0 hp),
        )
        (bind_ext (add w (entry sl.heap p)) (λ w'.
            flush_loop-nodes sl l fuel w' (extend range (entry sl.heap p).internal_key)
              (Linked-tail sl.heap p l linked) high (omega arith))
          ∙ sym (bind_assoc (add w (entry sl.heap p)) _ _)))

-- One user key is not behind another.
abbrev pub UptoKey : InternalKey → InternalKey → Type 0
UptoKey a b = is_greater (compare_bytes a.user_key b.user_key) ≡ false

less-UptoKey : (a b : InternalKey) → compare a b ≡ less → UptoKey a b
unfolding compare
less-UptoKey a b e = ground (arith, e)

UptoKey-refl : (a : InternalKey) → UptoKey a a
UptoKey-refl a = rw (compare_bytes_refl a.user_key)

UptoKey-trans : (a b c : InternalKey) → UptoKey a b → UptoKey b c → UptoKey a c
UptoKey-trans a b c p q = ground (
  arith,
  p,
  q,
  compare_bytes_trans a.user_key b.user_key c.user_key,
  compare_bytes-eq a.user_key b.user_key,
  compare_bytes-eq b.user_key c.user_key,
)

-- The range of records in order: from their first key to their last.
pub record Ranged (range : Range) (rs : List Record) : Type 0 where
  pub first : InternalKey
  pub last : InternalKey
  pub is_range : range ≡ some (first, last)
  pub from_first : All (λ r. UptoKey first r.internal_key) rs
  pub to_last : All (λ r. UptoKey r.internal_key last) rs

all_behind :
    (key : InternalKey) (rs : List Record)
    → All (λ k. compare key k ≡ less) (keys rs)
    → All (λ r. UptoKey key r.internal_key) rs
all_behind key [] all = tt
all_behind key (r ∷ rs) (h, all) = (less-UptoKey key r.internal_key h, all_behind key rs all)

to_the_last :
    (first last : InternalKey) (rs : List Record)
    → All (λ k. compare last k ≡ less) (keys rs)
    → Sorted (keys rs)
    → (last' : InternalKey) × (extend_all (some (first, last)) rs ≡ some (first, last'))
      × UptoKey last last'
      × All (λ r. UptoKey r.internal_key last') rs
unfolding extend_all extend Sorted
to_the_last first last [] before s = (last, refl, UptoKey-refl last, tt)
to_the_last first last (r ∷ rs) (h, before) (behind, s) =
    let (last', e, up, all) = to_the_last first r.internal_key rs behind s in
    (
      last',
      e,
      UptoKey-trans last r.internal_key last' (less-UptoKey last r.internal_key h) up,
      (up, all),
    )

extend_all-Ranged :
    (r : Record) (rs : List Record)
    → Sorted (keys (r ∷ rs))
    → Ranged (extend_all none (r ∷ rs)) (r ∷ rs)
unfolding extend_all extend Sorted
extend_all-Ranged r rs (behind, s) =
    let (last, e, up, all) = to_the_last r.internal_key r.internal_key rs behind s in
    record {
      first = r.internal_key;
      last = last;
      is_range = e;
      from_first = (UptoKey-refl r.internal_key, all_behind r.internal_key rs behind);
      to_last = (up, all);
    }

not_empty :
    {A : Type 0} {a : A} {l : List A} (rs : List A)
    → Permᴰ rs (a ∷ l)
    → (x : A) × (xs : List A) × (rs ≡ x ∷ xs)
not_empty {a = a} [] d = elim (Memᴰ-Perm (Permᴰ.symm d) (Memᴰ.head {x = a} refl)) [ ]
not_empty (x ∷ xs) d = (x, xs, refl)

Sorted-Ranged :
    {r : Record} {old : List Record} (rs : List Record)
    → Permᴰ rs (r ∷ old)
    → Sorted (keys rs)
    → Ranged (extend_all none rs) rs
Sorted-Ranged rs d s =
    let (x, xs, e) = not_empty rs d in
    subst (λ l. Ranged (extend_all none l) l) (sym e)
      (extend_all-Ranged x xs (subst (λ l. Sorted (keys l)) e s))

-- The loop of flush over a memtable that holds records in range, at least one, into a new table with
-- a well-formed filter ends without an error. The table then holds the records of the memtable in the order of their keys, as a row of
-- blocks with their index and a filter that knows every key, and the range of the new table meets
-- all of their user keys.
pub flush_loop-Ranged :
    {m : Memtable} {r : Record} {old : List Record} (block_size : ℕ) (filter : Filter)
    → Holds m (r ∷ old)
    → All IsRecord (r ∷ old)
    → Filter.IsFilter filter
    → (it : MemtableIterator) × (w : TableWriter) × (bs : List (List Record)) × (rs : List Record)
      × (range : Range) × (iterator m.list ≡ ok it)
      × (flush_loop m.list.next it (create block_size filter) none ≡ ok (w, range))
      × IsWriter w bs
      × (all_records bs ++ w.entries ≡ rs)
      × Permᴰ rs (r ∷ old)
      × Sorted (keys rs)
      × Ranged range rs
unfolding iterator
flush_loop-Ranged {m} block_size filter h valid filter_ok =
    let sl = m.list in
    let rs = entries sl.heap h.nodes in
    let high0 : 0 < height sl.heap 0 =
      omega (arith, h.shape.head_height, h.shape.level_pos, h.shape.level_fits) in
    let (w, bs, added, is_writer, same) =
      add_records-create block_size filter rs filter_ok
        (All-Perm _ (Permᴰ.symm h.same_records) valid) in
    (
      record { list = sl; curr = first_above sl.heap 0 h.nodes },
      w,
      bs,
      rs,
      extend_all none rs,
      rw (forward_at-pointer sl.heap 0 0 (Linked-head sl.heap 0 h.nodes h.shape.linked 0 high0)),
      flush_loop-nodes sl h.nodes sl.next (create block_size filter) none
            (Linked-tail sl.heap 0 h.nodes h.shape.linked)
            (All-weaken (λ p b. b.0) h.nodes h.shape.heights) (omega (arith, h.shape.counted))
          ∙ rw added,
      is_writer,
      same,
      h.same_records,
      h.sorted,
      Sorted-Ranged rs h.same_records h.sorted,
    )
