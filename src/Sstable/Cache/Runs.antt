-- ===== src/Sstable/Cache/Runs.antt =====
-- Whole runs of calls of the block cache.
use ascent_db.Prelude.{ℕ, ◌≡◌, ◌∙◌, refl, List, [], ◌∷◌, take, Option, Result, ok, ◌>>=◌}
use mathlib.Core.Path.{subst}
use ascent_db.Record.{Record}
use ascent_db.Sstable.Cache.{BlockKey, Entry, Lru, new_lru, get, set}
use ascent_db.Sstable.Cache.Views.{IsCache, without}
use ascent_db.Sstable.Cache.Calls.{lookup, touch, value_of}
use ascent_db.Sstable.Cache.Refines.{get-touch, set-take, new_lru-IsCache}

pub data Call : Type 0 where
  get_call : BlockKey → Call
  set_call : BlockKey → List Record → Call

-- The calls on a cache, and what the Gets return.
unfoldable pub run : List Call → Lru → Result (Lru × List (Option (List Record)))
run [] c = ok (c, [])
run (get_call key ∷ calls) c = do (c', v) ← get c key; (c'', vs) ← run calls c'; ok (c'', v ∷ vs)
run (set_call key value ∷ calls) c = do c' ← set c key value; run calls c'

-- The same calls on a list of entries.
unfoldable pub run_list : ℕ → List Call → List Entry → List Entry × List (Option (List Record))
run_list cap [] l = (l, [])
run_list cap (get_call key ∷ calls) l =
    let rest = run_list cap calls (touch key l) in (rest.0, value_of (lookup key l) ∷ rest.1)
run_list cap (set_call key value ∷ calls) l =
    run_list cap calls (take cap (record { key = key; value = value } ∷ without key l))

run_lem :
    (calls : List Call) (cap : ℕ) (c : Lru) (l : List Entry)
    → IsCache c l
    → c.cap ≡ cap
    → (c' : Lru) × (run calls c ≡ ok (c', (run_list cap calls l).1))
      × IsCache c' (run_list cap calls l).0
unfolding run run_list
run_lem [] cap c l h n = (c, refl, h)
run_lem (get_call key ∷ calls) cap c l h n =
    let (c1, e, h1, n1) = get-touch c l key h in
    let (c2, e2, h2) = run_lem calls cap c1 (touch key l) h1 (n1 ∙ n) in (c2, rw (e, e2) refl, h2)
run_lem (set_call key value ∷ calls) cap c l h n =
    let (c1, e, h1, n1) = set-take c l key value h in
    let l1 = λ (k : ℕ). take k (record { key = key; value = value } ∷ without key l) in
    let (c2, e2, h2) =
      run_lem calls cap c1 (l1 cap) (subst (λ k. IsCache c1 (l1 k)) n h1) (n1 ∙ n) in
    (c2, rw (e, e2) refl, h2)

-- Any run of calls on a new cache ends without a panic, returns what the same calls return on a list
-- of at most the capacity of entries, the most recently used in front, and ends in that list.
pub run-run_list :
    (cap : ℕ) (calls : List Call)
    → (c : Lru) × (run calls (new_lru cap) ≡ ok (c, (run_list cap calls []).1))
      × IsCache c (run_list cap calls []).0
unfolding new_lru
run-run_list cap calls = run_lem calls cap (new_lru cap) [] (new_lru-IsCache cap) refl
