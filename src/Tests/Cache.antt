-- ===== src/Tests/Cache.antt =====
-- The block cache, alone and behind a reader.
use ascent_db.Prelude.{ℕ, ◌≡◌, refl, List, [], ◌∷◌, some, ok, length}
use ascent_db.Sstable.Cache.{BlockKey, Lru, new_lru}
use ascent_db.Sstable.Cache.Views.{IsCache}
use ascent_db.Sstable.Cache.Refines.{new_lru-IsCache}
use ascent_db.Sstable.Cache.Runs.{Call, get_call, set_call, run, run_list, run-run_list}
use ascent_db.Sstable.Reader.{get}
use ascent_db.Sstable.Reader.Cached.{Trusted, Same, get_cached, get_cached-Same}
use ascent_db.Tests.Data.{put_ab, del_c}
use ascent_db.Tests.Lookup.{file, entry, full}

abbrev at : ℕ → BlockKey
at offset = record { file_num = 7; offset = offset }

-- Room for two blocks; the first one is used again before a third one comes.
abbrev calls : List Call
calls =
    set_call (at 0) (put_ab ∷ [])
    ∷ set_call (at 40) (del_c ∷ [])
    ∷ get_call (at 0)
    ∷ set_call (at 80) []
    ∷ get_call (at 40)
    ∷ get_call (at 0)
    ∷ []

run-run_list_example :
    (c : Lru) × (run calls (new_lru 2) ≡ ok (c, (run_list 2 calls []).1))
    × IsCache c (run_list 2 calls []).0
run-run_list_example = run-run_list 2 calls

empty-Trusted : Trusted (λ n. file) (λ n offset. length file) (some (new_lru 4))
unfolding Trusted
empty-Trusted = ([], new_lru-IsCache 4, tt)

get_cached-Same_example :
    Same
      (λ n. file)
      (λ n offset. length file)
      (get_cached (some (new_lru 4)) 7 file full (entry ∷ []) put_ab.internal_key)
      (get file full (entry ∷ []) put_ab.internal_key)
get_cached-Same_example =
    get_cached-Same (λ n. file) (λ n offset. length file) 7 full (entry ∷ []) put_ab.internal_key
      (some (new_lru 4)) empty-Trusted (refl, tt)
