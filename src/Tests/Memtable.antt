-- ===== src/Tests/Memtable.antt =====
-- A memtable with three records.
use ascent_db.Prelude.{ℕ, suc, ◌≤◌, ◌≡◌, arith, List, [], ◌∷◌, length, Option, none, true, ok}
use ascent_db.Bytes.Compare.{compare_bytes}
use ascent_db.Record.{InternalKey, Record, compare}
use ascent_db.Sstable.Reader.{keys, Sorted}
use ascent_db.Sstable.Reader.Lookup.{Answer}
use ascent_db.Memtable.{Skiplist, new_skiplist, search, insert, random_level}
use ascent_db.Memtable.Invariant.{entries, IsSkiplist, view, search-Answer}
use ascent_db.Memtable.Ordered.{ordered_insert}
use ascent_db.Memtable.Level.{random_level-bounds, new_skiplist-IsSkiplist, insert-IsSkiplist}
use ascent_db.Memtable.Table.{Memtable, MemtableIterator, new, get, seek}
use ascent_db.Memtable.History.{Puts, Fresh, put_all, history, put_all-Answer}
use ascent_db.Memtable.Iterate.{visit, from_key, seek-visit}
use ascent_db.Tests.Data.{put_ab, del_c}
use ascent_db.Tests.Lookup.{old_ab, key}

abbrev puts : Puts
puts = (del_c, true ∷ []) ∷ (old_ab, []) ∷ (put_ab, true ∷ true ∷ []) ∷ []

fresh : Fresh [] puts
unfolding Fresh compare compare_bytes
fresh = (tt, (((λ e. cc e), tt), (((λ e. cc e), ((λ e. cc e), tt)), tt)))

put_all-Answer_example :
    (m : Memtable) × (put_all (new 100 2) puts ≡ ok m)
    × ((key : InternalKey)
        → (o : Option Record) × (get m key.user_key key ≡ ok (view o))
          × Answer key (history [] puts) o)
put_all-Answer_example = put_all-Answer 100 2 puts (omega arith) fresh

random_level-bounds_example :
    (1 ≤ random_level 2 (true ∷ true ∷ []) 1) × (random_level 2 (true ∷ true ∷ []) 1 ≤ 2)
random_level-bounds_example = random_level-bounds 2 (true ∷ true ∷ []) 1 (omega arith)

insert-IsSkiplist_example :
    (sl' : Skiplist) × (l' : List ℕ) × (insert
        (new_skiplist 2)
        put_ab.internal_key
        put_ab.value
        (true ∷ [])
      ≡ ok sl')
    × IsSkiplist sl' l'
    × (entries sl'.heap l'
        ≡ ordered_insert
            (record { internal_key = put_ab.internal_key; value = put_ab.value })
            (entries (new_skiplist 2).heap []))
insert-IsSkiplist_example =
    insert-IsSkiplist put_ab.internal_key put_ab.value (true ∷ [])
      (new_skiplist-IsSkiplist 2 (omega arith))

-- A skip list with one record.
filled : (sl : Skiplist) × (l : List ℕ) × IsSkiplist sl l × (entries sl.heap l ≡ put_ab ∷ [])
unfolding ordered_insert
filled =
    let (sl, l, e, s, es) =
      insert-IsSkiplist put_ab.internal_key put_ab.value (true ∷ [])
        (new_skiplist-IsSkiplist 2 (omega arith)) in
    (sl, l, s, es)

sorted : Sorted (keys (entries filled.0.heap filled.1))
unfolding Sorted
sorted = rw filled.3 (tt, tt)

search-Answer_example :
    (o : Option Record) × (search filled.0 key.user_key key ≡ ok (view o))
    × Answer key (entries filled.0.heap filled.1) o
search-Answer_example = search-Answer key filled.2 sorted

seek-visit_example :
    (it : MemtableIterator) × (seek (record { list = filled.0; curr = none }) key ≡ ok it)
    × (visit (suc (length filled.1)) it ≡ ok (from_key key (entries filled.0.heap filled.1)))
seek-visit_example = seek-visit key none filled.2
