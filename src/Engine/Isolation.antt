-- ===== src/Engine/Isolation.antt =====
-- Snapshots: a sequence number at which Get reads, and what a later write leaves of it.
use ascent_db.Prelude.{
  ℕ, ◌≤◌, ◌<◌, ◌≡◌, ◌∙◌, sym, ap, arith, List, [], ◌∷◌, ◌++◌, append_assoc, All, Option, none, some,
  Bool, Result, ok,
}
use mathlib.Core.Path.{subst}
use mathlib.Core.List.{Memᴰ}
use ascent_db.Record.{InternalKey, Record, IsRecord}
use ascent_db.Sstable.Reader.Lookup.{Answer}
use ascent_db.Engine.{Engine}
use ascent_db.Engine.Read.{TableGet, get, live}
use ascent_db.Engine.Write.{write}
use ascent_db.Engine.Snapshots.{add, remove}
use ascent_db.Engine.Lookup.{Stores, get-newest}
use ascent_db.Engine.Written.{written, write-Stores}

-- NewSnapshot: the number of the snapshot, and the engine that keeps it.
unfoldable pub new_snapshot : Engine → ℕ × Engine
new_snapshot e = (e.seq_num, record e { snapshots = add e.seq_num e.snapshots })

unfoldable pub snapshot_get : TableGet → Engine → ℕ → List ℕ → Result (Option (List ℕ))
snapshot_get table_get e seq_num key = get table_get e key seq_num

unfoldable pub release : ℕ → Engine → Engine
release seq_num e = record e { snapshots = remove seq_num e.snapshots }

-- A record that is too new to be seen does not matter.
Answer-unseen :
    {key : InternalKey} {r : Record} {l : List Record} (o : Option Record)
    → key.seq_num < r.seq_num
    → Answer key (r ∷ l) o
    → Answer key l o
Answer-unseen none new (Answer.missing (h, all)) = Answer.missing all
Answer-unseen (some x) new (Answer.found (Memᴰ.head p) e n all) =
    absurd (omega (arith, ap (λ y. y.seq_num) p))
Answer-unseen (some x) new (Answer.found (Memᴰ.tail m) e n (h, all)) = Answer.found m e n all

-- After a write of a record in range, while no memtable is being flushed and no stored record has a
-- sequence number above the engine's, and with a positive maximal level of the skip list, a
-- snapshot that was opened just before it finds of any user key the newest of the records that were
-- stored before the write: its value, or none if it is a deletion or there is no record. The engine
-- holds its records as follows. Each part is newer than those behind it for the same user key; the
-- records of a table in level 0 are in its key range; the records of each deeper level are in the
-- order of their keys over its tables, each of which ends with its largest key; and the readers of
-- all tables answer from these records without an error.
pub snapshot_get-write :
    {table_get : TableGet} {e : Engine} {recent top deep : List Record} (coins : ℕ → List Bool)
    (key value : List ℕ) (typ : ℕ)
    → Stores table_get e recent [] top deep
    → e.immt ≡ none
    → 0 < e.skiplist_max_level
    → All (λ x. x.seq_num ≤ e.seq_num) (recent ++ (top ++ deep))
    → IsRecord (written e key value typ)
    → (e' : Engine) × (write coins key value typ (new_snapshot e).1 ≡ ok e')
      × ((user_key : List ℕ)
          → (o : Option Record) × (snapshot_get table_get e' (new_snapshot e).0 user_key
              ≡ ok (live o))
            × Answer
                (record { user_key = user_key; seq_num = e.seq_num; typ = 0 })
                (recent ++ (top ++ deep))
                o)
unfolding new_snapshot snapshot_get
snapshot_get-write {table_get} {e} {recent} {top} {deep} coins key value typ s idle pos seen valid =
    let e0 : Engine = record e { snapshots = add e.seq_num e.snapshots } in
    let s0 : Stores table_get e0 recent [] top deep = record {
      in_mt = s.in_mt;
      in_immt = s.in_immt;
      level0 = s.level0;
      below = s.below;
      levels_eq = s.levels_eq;
      in_level0 = s.in_level0;
      in_below = s.in_below;
      recent_newer = s.recent_newer;
      rotated_newer = s.rotated_newer;
      top_newer = s.top_newer;
    } in
    let r : Record = written e key value typ in
    let (e', recent', rotated', q, s', both) =
      write-Stores {e = e0} coins key value typ s0 idle pos seen valid in
    let joined : recent' ++ (rotated' ++ (top ++ deep)) ≡ r ∷ (recent ++ (top ++ deep)) =
      sym (append_assoc recent' rotated' (top ++ deep)) ∙ ap (λ l. l ++ (top ++ deep)) both in
    (
      e',
      q,
      λ user_key.
          let lookup : InternalKey = record { user_key = user_key; seq_num = e.seq_num; typ = 0 } in
          let (o, read, answer) = get-newest user_key e.seq_num s' in
          (
            o,
            read,
            Answer-unseen {key = lookup} {r = r} o (omega arith)
                (subst (λ l. Answer lookup l o) joined answer),
          ),
    )
