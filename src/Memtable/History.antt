-- ===== src/Memtable/History.antt =====
-- A memtable holds the records that were put into it, and Get answers from them.
use ascent_db.Prelude.{
  ◌<◌, ℕ, ◌≡◌, ◌≢◌, refl, List, [], ◌∷◌, ◌+◌, All, Option, same, Bool, Result, ok, ◌>>=◌,
}
use mathlib.Core.List.{Permᴰ}
use mathlib.Core.List.Permᴰ
use ascent_db.Bytes.Word.{u64}
use ascent_db.Record.{InternalKey, Record, compare, size}
use ascent_db.Sstable.Reader.{keys, Sorted}
use ascent_db.Sstable.Reader.Lookup.{Answer}
use ascent_db.Memtable.Table.{Memtable, new, put, get}
use ascent_db.Memtable.Invariant.{entries, IsSkiplist, view, search-Answer}
use ascent_db.Memtable.Permuted.{All-Perm, Answer-Perm, ordered_insert-Perm, ordered_insert-Sorted}
use ascent_db.Memtable.Level.{new_skiplist-IsSkiplist, insert-IsSkiplist}

-- Records to put, each with what randomLevel draws for it.
abbrev pub Puts : Type 0
Puts = List (Record × List Bool)

unfoldable pub put_all : Memtable → Puts → Result Memtable
put_all m [] = ok m
put_all m ((r, coins) ∷ rs) = do m ← put m r coins; put_all m rs

-- The records that were put, the last one first.
unfoldable pub history : List Record → Puts → List Record
history old [] = old
history old ((r, coins) ∷ rs) = history (r ∷ old) rs

-- No record has the user key and the sequence number of one that was put before.
unfoldable pub Fresh : List Record → Puts → Type 0
Fresh old [] = Unit {0}
Fresh old ((r, coins) ∷ rs) =
    All (λ x. compare x.internal_key r.internal_key ≢ same) old × Fresh (r ∷ old) rs

-- What the memtable holds.
pub record Holds (m : Memtable) (old : List Record) : Type 0 where
  pub nodes : List ℕ
  pub shape : IsSkiplist m.list nodes
  pub sorted : Sorted (keys (entries m.list.heap nodes))
  pub same_records : Permᴰ (entries m.list.heap nodes) old

pub put-Holds :
    {m : Memtable} {old : List Record} (r : Record) (coins : List Bool)
    → Holds m old
    → All (λ x. compare x.internal_key r.internal_key ≢ same) old
    → (m' : Memtable) × (put m r coins ≡ ok m') × Holds m' (r ∷ old)
unfolding put
put-Holds {m} {old} r coins s d =
    let (sl, l, e, shape, es) = insert-IsSkiplist r.internal_key r.value coins s.shape in
    let d' = All-Perm _ (Permᴰ.symm s.same_records) d in
    (
      record m { list = sl; size = u64 (m.size + size r) },
      rw e,
      record {
        nodes = l;
        shape = shape;
        sorted = rw es (ordered_insert-Sorted r (entries m.list.heap s.nodes) s.sorted d');
        same_records =
            rw es (Permᴰ.trans (ordered_insert-Perm r _) (Permᴰ.cons refl s.same_records));
      },
    )

put_all-Holds :
    (puts : Puts) {m : Memtable} {old : List Record}
    → Holds m old
    → Fresh old puts
    → (m' : Memtable) × (put_all m puts ≡ ok m') × Holds m' (history old puts)
unfolding put_all history Fresh
put_all-Holds [] {m} s f = (m, refl, s)
put_all-Holds ((r, coins) ∷ rs) s (d, f) =
    let (m1, e, s1) = put-Holds r coins s d in
    let (m2, e', s2) = put_all-Holds rs s1 f in (m2, rw e e', s2)

pub new-Holds : (max_size max_level : ℕ) → 0 < max_level → Holds (new max_size max_level) []
unfolding new Sorted
new-Holds max_size max_level pos = record {
  nodes = [];
  shape = new_skiplist-IsSkiplist max_level pos;
  sorted = tt;
  same_records = Permᴰ.nil;
}

pub get-Holds :
    {m : Memtable} {old : List Record} (key : InternalKey)
    → Holds m old
    → (o : Option Record) × (get m key.user_key key ≡ ok (view o)) × Answer key old o
unfolding get
get-Holds key s =
    let (o, e, a) = search-Answer key s.shape s.sorted in (o, e, Answer-Perm s.same_records a)

-- Records that are put into a new memtable with a positive maximal level, no two of them with the
-- same user key and sequence number, all go in, whatever levels are drawn. For any key Get then returns the newest of these
-- records that has the user key and is not newer than the lookup key: its value, or that it is
-- deleted, or that there is none.
pub put_all-Answer :
    (max_size max_level : ℕ) (puts : Puts)
    → 0 < max_level
    → Fresh [] puts
    → (m : Memtable) × (put_all (new max_size max_level) puts ≡ ok m)
      × ((key : InternalKey)
          → (o : Option Record) × (get m key.user_key key ≡ ok (view o))
            × Answer key (history [] puts) o)
put_all-Answer max_size max_level puts pos fresh =
    let (m, e, s) = put_all-Holds puts (new-Holds max_size max_level pos) fresh in
    (m, e, λ key. get-Holds key s)
