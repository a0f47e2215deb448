-- ===== src/Tests/Scan.antt =====
-- Table iterators and scans.
use ascent_db.Prelude.{ℕ, suc, ◌≡◌, refl, List, [], ◌∷◌, length, All, Option, ok, ◌>>=◌, less}
use ascent_db.Bytes.Compare.{compare_bytes}
use ascent_db.Record.{Record, compare}
use ascent_db.Sstable.Reader.Lookup.{Answer}
use ascent_db.Memtable.Iterate.{from_key}
use ascent_db.Sstable.Iterator.{SstableIterator, iterator, seek}
use ascent_db.Sstable.Iterator.Visits.{Visits, iterator-Visits}
use ascent_db.Sstable.Iterator.Seek.{seek-Visits}
use ascent_db.Merge.Order.{Ascending}
use ascent_db.Merge.Drain.{all_of}
use ascent_db.Engine.Read.{live}
use ascent_db.Engine.Scan.{new_scan_iterator, drain}
use ascent_db.Engine.Scan.Groups.{as_of}
use ascent_db.Engine.Scan.Client.{find, Rising, drain-new_scan_iterator}
use ascent_db.Tests.Data.{put_ab, del_c}
use ascent_db.Tests.Lookup.{file, entry, indexed, two_ordered, old_ab}

iterator-Visits_example :
    (iter : SstableIterator) × (iterator file (entry ∷ []) ≡ ok iter)
    × Visits file (entry ∷ []) iter (put_ab ∷ del_c ∷ [])
iterator-Visits_example = iterator-Visits file (entry ∷ []) (put_ab ∷ del_c ∷ []) indexed

abbrev start : SstableIterator
start = record { block_index = 0; block = Option.none; entry_index = 0 }

seek-Visits_example :
    (after : SstableIterator) × (seek file (entry ∷ []) del_c.internal_key start ≡ ok after)
    × Visits file (entry ∷ []) after (from_key del_c.internal_key (put_ab ∷ del_c ∷ []))
seek-Visits_example =
    seek-Visits file (entry ∷ []) (put_ab ∷ del_c ∷ []) del_c.internal_key start indexed two_ordered

-- A memtable with a put of "ab" and a deletion, and a table with an older put of "ab".
abbrev pub iters : List (List Record)
iters = (put_ab ∷ del_c ∷ []) ∷ (old_ab ∷ []) ∷ []

pub iters-Ascending : All Ascending iters
unfolding Ascending compare compare_bytes
iters-Ascending = (((refl, tt), (tt, tt)), ((tt, tt), tt))

drain-new_scan_iterator_example :
    (out : List (List ℕ × List ℕ)) × ((new_scan_iterator
          (suc (length (all_of iters)))
          iters
          (b'd' ∷ [])
          9
        >>= drain (suc (length (all_of iters))))
      ≡ ok out)
    × Rising out
    × All (λ p. compare_bytes p.0 (b'd' ∷ []) ≡ less) out
    × (o : Option Record) × Answer (as_of put_ab.user_key 9) (all_of iters) o
    × (find put_ab.user_key out ≡ live o)
drain-new_scan_iterator_example =
    drain-new_scan_iterator iters (b'd' ∷ []) 9 put_ab.user_key iters-Ascending
      (unfold compare_bytes in refl)
