-- ===== src/Tests/Write.antt =====
-- A write to the engine of the other tests, and a flush of its memtable.
use ascent_db.Prelude.{
  Option, ◌>>=◌, ℕ, ◌<◌, ◌≤◌, ◌≡◌, refl, arith, List, [], ◌∷◌, ◌++◌, some, none, Bool, true, ok,
  All,
}
use mathlib.Core.List.{Permᴰ}
use ascent_db.Record.{Record, IsRecord, type_del}
use ascent_db.Sstable.Filter as Filter
use ascent_db.Sstable.Filter.Members.{new_filter-IsFilter}
use ascent_db.Sstable.Reader.{keys, Sorted}
use ascent_db.Sstable.Writer.{TableWriter, create}
use ascent_db.Sstable.Writer.Invariant.{IsWriter, all_records}
use ascent_db.Memtable.Table.{MemtableIterator, iterator}
use ascent_db.Engine.{Engine}
use ascent_db.Engine.Read.{get, live}
use ascent_db.Wal.Encode.{encode_records}
use ascent_db.Engine.Write.{write, put_batch}
use ascent_db.Engine.Recover.{recover_log, store_max, max_of, recover_log-put_batch}
use ascent_db.Sstable.Reader.Lookup.{Answer}
use ascent_db.Engine.Lookup.{Stores}
use ascent_db.Engine.Isolation.{new_snapshot, snapshot_get, snapshot_get-write}
use ascent_db.Engine.Written.{written, write-Stores, write-get}
use ascent_db.Engine.Flush.{Range, flush_loop}
use ascent_db.Engine.Flushed.{Ranged, flush_loop-Ranged}
use ascent_db.Tests.Data.{put_ab, del_c, put_ab-IsRecord, del_c-IsRecord}
use ascent_db.Tests.Lookup.{old_ab}
use ascent_db.Tests.Read.{oldest_ab, table_get, mt_holds, engine, stores}

abbrev coins : ℕ → List Bool
coins seq = true ∷ []

seen : All (λ x. x.seq_num ≤ 9) ((put_ab ∷ []) ++ ((old_ab ∷ []) ++ (oldest_ab ∷ [])))
seen = ((omega arith), ((omega arith), ((omega arith), tt)))

deletion-IsRecord : IsRecord (written engine put_ab.user_key [] type_del)
deletion-IsRecord = omega arith

write-Stores_example :
    (e' : Engine) × (recent' : List Record) × (rotated' : List Record) × (write coins
        put_ab.user_key [] type_del engine
      ≡ ok e')
    × Stores table_get e' recent' rotated' (old_ab ∷ []) (oldest_ab ∷ [])
    × (recent' ++ rotated' ≡ written engine put_ab.user_key [] type_del ∷ put_ab ∷ [])
write-Stores_example =
    write-Stores coins put_ab.user_key [] type_del stores refl (omega arith) seen deletion-IsRecord

write-get_example :
    (e' : Engine) × (write coins put_ab.user_key [] type_del engine ≡ ok e')
    × ((seq_num : ℕ)
        → 9 < seq_num
        → get table_get e' put_ab.user_key seq_num
          ≡ ok (live (some (written engine put_ab.user_key [] type_del))))
write-get_example =
    write-get coins put_ab.user_key [] type_del stores refl (omega arith) seen deletion-IsRecord

flush_loop-Ranged_example :
    (it : MemtableIterator) × (w : TableWriter) × (bs : List (List Record)) × (rs : List Record)
    × (range : Range) × (iterator mt_holds.0.list ≡ ok it)
    × (flush_loop mt_holds.0.list.next it (create 40 (Filter.new_filter 20 3)) none ≡ ok (w, range))
    × IsWriter w bs
    × (all_records bs ++ w.entries ≡ rs)
    × Permᴰ rs (put_ab ∷ [])
    × Sorted (keys rs)
    × Ranged range rs
flush_loop-Ranged_example =
    flush_loop-Ranged 40 (Filter.new_filter 20 3) mt_holds.1 (put_ab-IsRecord, tt)
      (new_filter-IsFilter 20 3 (omega arith) (omega arith))

recover_log-put_batch_example :
    (log : List ℕ) × (encode_records (put_ab ∷ del_c ∷ []) ≡ ok log)
    × (recover_log coins log engine ≡ (
        put_batch coins (put_ab ∷ del_c ∷ []) engine >>= λ e'.
        ok (store_max e' (max_of 0 (put_ab ∷ del_c ∷ [])))))
recover_log-put_batch_example =
    recover_log-put_batch coins (put_ab ∷ del_c ∷ []) engine (put_ab-IsRecord, (del_c-IsRecord, tt))

snapshot_get-write_example :
    (e' : Engine) × (write coins put_ab.user_key [] type_del (new_snapshot engine).1 ≡ ok e')
    × ((user_key : List ℕ)
        → (o : Option Record) × (snapshot_get table_get e' (new_snapshot engine).0 user_key
            ≡ ok (live o))
          × Answer
              (record { user_key = user_key; seq_num = 9; typ = 0 })
              ((put_ab ∷ []) ++ ((old_ab ∷ []) ++ (oldest_ab ∷ [])))
              o)
snapshot_get-write_example =
    snapshot_get-write coins put_ab.user_key [] type_del stores refl (omega arith) seen
      deletion-IsRecord
