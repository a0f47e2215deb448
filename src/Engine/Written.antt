-- ===== src/Engine/Written.antt =====
-- What a write leaves: the engine stores one record more, and Get finds it.
use ascent_db.Prelude.{
  ℕ, ◌+◌, ◌≤◌, ◌<◌, ◌≡◌, ◌∙◌, refl, sym, ap, arith, List, [], ◌∷◌, ◌++◌, append_assoc, All,
  All-weaken, Option, none, some, Bool, if◌then◌else◌, Bool-cases, inl, inr, ok,
}
use mathlib.Core.Path.{subst}
use mathlib.Core.List.{Memᴰ}
use ascent_db.Bytes.Word.{u64}
use ascent_db.Record.{InternalKey, Record, IsRecord}
use ascent_db.Sstable.Reader.Lookup.{Answer}
use ascent_db.Wal.Encode.{encode_records-frames, frames}
use ascent_db.Engine.{Engine}
use ascent_db.Engine.Read.{TableGet, get, live}
use ascent_db.Engine.Write.{append_batch, put_and_rotate, write}
use ascent_db.Engine.Answers.{All-Memᴰ}
use ascent_db.Engine.Lookup.{Stores, get-newest}
use ascent_db.Engine.Rotated.{put_and_rotate-Stores}

-- The log takes the record.
append_batch-ok :
    (rs : List Record) (e : Engine)
    → All IsRecord rs
    → append_batch rs e
      ≡ ok (record e { wal = if e.crash_recovery then e.wal ++ frames rs else e.wal })
unfolding append_batch
append_batch-ok rs e valid = elim (Bool-cases e.crash_recovery) [
  | inl c ↦ rw c (rw (encode_records-frames rs valid))
  | inr c ↦ rw c
]

-- The record that `write` makes.
abbrev pub written : Engine → List ℕ → List ℕ → ℕ → Record
written e key value typ = record {
  internal_key = record { user_key = key; seq_num = e.seq_num + 1; typ = typ };
  value = value;
}

-- The engine after the record went into the log.
abbrev logged : Engine → List Record → Engine
logged e rs = record e {
  seq_num = e.seq_num + 1;
  wal = if e.crash_recovery then e.wal ++ frames rs else e.wal;
}

write-steps :
    (e : Engine) (coins : ℕ → List Bool) (key value : List ℕ) (typ : ℕ)
    → IsRecord (written e key value typ)
    → write coins key value typ e
      ≡ put_and_rotate
          (written e key value typ)
          (coins (e.seq_num + 1))
          (logged e (written e key value typ ∷ []))
unfolding write
write-steps e coins key value typ valid =
    let no_wrap : u64 (e.seq_num + 1) ≡ e.seq_num + 1 = omega (arith, valid.key_ok.seq_fits) in
    rw no_wrap (
      rw (
        append_batch-ok (written e key value typ ∷ []) (record e { seq_num = e.seq_num + 1 })
          (valid, tt)))

-- A write of a record in range, while no memtable is being flushed and no stored record has a
-- sequence number above the engine's, and with a positive maximal level of the skip list, succeeds,
-- whatever levels are drawn and whether or not the memtable is rotated; the engine then stores the
-- record with the next sequence number on top of the others. Before and behind the write the engine
-- stores its records as get-newest requires: deeper levels in the order of their keys, parts newest
-- first, readers without an error.
pub write-Stores :
    {table_get : TableGet} {e : Engine} {recent top deep : List Record} (coins : ℕ → List Bool)
    (key value : List ℕ) (typ : ℕ)
    → Stores table_get e recent [] top deep
    → e.immt ≡ none
    → 0 < e.skiplist_max_level
    → All (λ x. x.seq_num ≤ e.seq_num) (recent ++ (top ++ deep))
    → IsRecord (written e key value typ)
    → (e' : Engine) × (recent' : List Record) × (rotated' : List Record) × (write coins key value
          typ e
        ≡ ok e')
      × Stores table_get e' recent' rotated' top deep
      × (recent' ++ rotated' ≡ written e key value typ ∷ recent)
write-Stores {table_get} {e} {recent} {top} {deep} coins key value typ s idle pos seen valid =
    let r : Record = written e key value typ in
    let e1 : Engine = logged e (r ∷ []) in
    let s1 : Stores table_get e1 recent [] top deep = record {
      in_mt = s.in_mt;
      in_immt = s.in_immt;
      level0 = s.level0;
      below = s.below;
      levels_eq = s.levels_eq;
      in_level0 = s.in_level0;
      in_below = s.in_below;
      recent_newer = s.recent_newer;
      rotated_newer = s.rotated_newer;
      top_newer = s.top_newer;
    } in
    let (e', recent', rotated', q, s', both) =
      put_and_rotate-Stores r (coins (e.seq_num + 1)) s1 idle pos
        (All-weaken (λ x h. omega arith) (recent ++ (top ++ deep)) seen) in
    (e', recent', rotated', write-steps e coins key value typ valid ∙ q, s', both)

-- Among older records a visible record of the user key is the answer.
Answer-newest :
    (key : InternalKey) (r : Record) (l : List Record) (o : Option Record)
    → r.user_key ≡ key.user_key
    → r.seq_num ≤ key.seq_num
    → All (λ x. x.seq_num < r.seq_num) l
    → Answer key (r ∷ l) o
    → o ≡ some r
Answer-newest key r l none e v older (Answer.missing (h, all)) = absurd (omega (arith, h e))
Answer-newest key r l (some x) e v older (Answer.found (Memᴰ.head p) q n all) = ap some p
Answer-newest key r l (some x) e v older (Answer.found (Memᴰ.tail m) q n (h, all)) =
    absurd (omega (arith, h e v, All-Memᴰ _ l m older))

-- After a write of a record in range, while no memtable is being flushed and no stored record has a
-- sequence number above the engine's, and with a positive maximal level of the skip list, Get of
-- its key, at its sequence number or a later one, ends and returns the value that was written, or
-- none if the write was a deletion. The engine stores its records as get-newest requires: deeper
-- levels in the order of their keys, parts newest first, readers without an error.
pub write-get :
    {table_get : TableGet} {e : Engine} {recent top deep : List Record} (coins : ℕ → List Bool)
    (key value : List ℕ) (typ : ℕ)
    → Stores table_get e recent [] top deep
    → e.immt ≡ none
    → 0 < e.skiplist_max_level
    → All (λ x. x.seq_num ≤ e.seq_num) (recent ++ (top ++ deep))
    → IsRecord (written e key value typ)
    → (e' : Engine) × (write coins key value typ e ≡ ok e')
      × ((seq_num : ℕ)
          → e.seq_num < seq_num
          → get table_get e' key seq_num ≡ ok (live (some (written e key value typ))))
write-get {table_get} {e} {recent} {top} {deep} coins key value typ s idle pos seen valid =
    let r : Record = written e key value typ in
    let (e', recent', rotated', q, s', both) =
      write-Stores coins key value typ s idle pos seen valid in
    let joined : recent' ++ (rotated' ++ (top ++ deep)) ≡ r ∷ (recent ++ (top ++ deep)) =
      sym (append_assoc recent' rotated' (top ++ deep)) ∙ ap (λ l. l ++ (top ++ deep)) both in
    (
      e',
      q,
      λ seq_num later.
          let (o, found_eq, answer) = get-newest key seq_num s' in
          let lookup : InternalKey = record { user_key = key; seq_num = seq_num; typ = 0 } in
          found_eq
          ∙ ap (λ x. ok (live x))
              (Answer-newest lookup r (recent ++ (top ++ deep)) o refl (omega arith)
                (All-weaken (λ x h. omega arith) (recent ++ (top ++ deep)) seen)
                (subst (λ l. Answer lookup l o) joined answer)),
    )
