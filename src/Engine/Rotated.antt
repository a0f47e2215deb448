-- ===== src/Engine/Rotated.antt =====
-- What a record that goes into the memtable leaves, whether or not the memtable is rotated.
use ascent_db.Prelude.{
  ℕ, ◌+◌, ◌<◌, ◌≡◌, ◌∙◌, refl, arith, List, [], ◌∷◌, ◌++◌, append-nil, All, All-weaken, All-left,
  All-right, Option, none, some, Bool, true, Bool-cases, ◌≢◌, same, inl, inr, ok,
}
use ascent_db.Bytes.Word.{u64}
use ascent_db.Record.{Record}
use ascent_db.Meta.Versions.{apply, apply_deletes, apply_adds, take_file_num}
use ascent_db.Memtable.Table.{new, is_full}
use ascent_db.Memtable.History.{new-Holds, put-Holds}
use ascent_db.Record.{compare}
use ascent_db.Record.Order.{compare-same_iff}
use ascent_db.Engine.{Engine, FlushTask}
use ascent_db.Engine.Read.{TableGet}
use ascent_db.Engine.Write.{log_and_apply, rotate_wal, rotate, rotate_if_full, put_and_rotate}
use ascent_db.Engine.Lookup.{Stores}

-- What a rotation does to the parts that Get reads.
record Rotated (e e' : Engine) : Type 0 where
  mt : e'.mt ≡ new e.memtable_size e.skiplist_max_level
  immt : e'.immt ≡ some e.mt
  levels : e'.vs.levels ≡ e.vs.levels

-- A new log changes none of the parts that Get reads.
record Kept (e e' : Engine) : Type 0 where
  immt : e'.immt ≡ e.immt
  levels : e'.vs.levels ≡ e.vs.levels
  size : e'.memtable_size ≡ e.memtable_size
  max_level : e'.skiplist_max_level ≡ e.skiplist_max_level

rotate_wal-Kept :
    (e : Engine) → (w : Option (List ℕ)) × (e' : Engine) × (rotate_wal e ≡ ok (w, e')) × Kept e e'
unfolding rotate_wal log_and_apply apply apply_deletes apply_adds take_file_num
rotate_wal-Kept e = elim (Bool-cases e.crash_recovery) [
  | inl c ↦ (
    some e.wal,
    record e { wal = []; vs = record e.vs { next_file_num = u64 (e.vs.next_file_num + 1) } },
    rw c,
    record { immt = refl; levels = refl; size = refl; max_level = refl },
  )
  | inr c ↦ (none, e, rw c, record { immt = refl; levels = refl; size = refl; max_level = refl })
]

rotate_if_full-Rotated :
    (e : Engine) → is_full e.mt ≡ true → (e' : Engine) × (rotate_if_full e ≡ ok e') × Rotated e e'
unfolding rotate_if_full rotate take_file_num
rotate_if_full-Rotated e full =
    let (w, e1, q, kept) = rotate_wal-Kept (record e { immt = some e.mt }) in
    let task : FlushTask = record { mt = e.mt; old_wal = w; file_num = e1.vs.next_file_num } in
    (
      record e1 {
        mt = new e1.memtable_size e1.skiplist_max_level;
        vs = record e1.vs { next_file_num = u64 (e1.vs.next_file_num + 1) };
        flush_chan = e1.flush_chan ++ (task ∷ []);
      },
      rw (full, q),
      record { mt = rw (kept.size, kept.max_level) refl; immt = kept.immt; levels = kept.levels },
    )

-- A record that is newer than all others.
newest-Newer :
    (r : Record) (l : List Record)
    → All (λ x. x.seq_num < r.seq_num) l
    → All (λ x. r.user_key ≡ x.user_key → x.seq_num < r.seq_num) l
newest-Newer r l all = All-weaken (λ x h e. h) l all

-- The engine stores the record on top of the others; it went into the memtable, which may then have
-- been rotated.
pub put_and_rotate-Stores :
    {table_get : TableGet} {e : Engine} {recent top deep : List Record} (r : Record)
    (coins : List Bool)
    → Stores table_get e recent [] top deep
    → e.immt ≡ none
    → 0 < e.skiplist_max_level
    → All (λ x. x.seq_num < r.seq_num) (recent ++ (top ++ deep))
    → (e' : Engine) × (recent' : List Record) × (rotated' : List Record) × (put_and_rotate r coins e
        ≡ ok e')
      × Stores table_get e' recent' rotated' top deep
      × (recent' ++ rotated' ≡ r ∷ recent)
unfolding put_and_rotate
put_and_rotate-Stores {table_get} {e} {recent} {top} {deep} r coins s idle pos newest =
    let older : All (λ x. x.seq_num < r.seq_num) (top ++ deep) =
      All-right _ recent (top ++ deep) newest in
    let fresh : All (λ x. compare x.internal_key r.internal_key ≢ same) recent =
      All-weaken
        (λ x h e. omega (arith, h, ((compare-same_iff x.internal_key r.internal_key).0 e).1)) recent
        (All-left _ recent (top ++ deep) newest) in
    let (m, q, h) = put-Holds r coins s.in_mt fresh in
    let e1 : Engine = record e { mt = m } in
    elim (Bool-cases (is_full m)) [
      | inl full ↦
          let (e', q', t) = rotate_if_full-Rotated e1 full in
          (
            e',
            [],
            r ∷ recent,
            rw q q',
            record {
              in_mt = rw t.mt (new-Holds e.memtable_size e.skiplist_max_level pos);
              in_immt = rw t.immt h;
              level0 = s.level0;
              below = s.below;
              levels_eq = t.levels ∙ s.levels_eq;
              in_level0 = s.in_level0;
              in_below = s.in_below;
              recent_newer = tt;
              rotated_newer = (newest-Newer r (top ++ deep) older, s.recent_newer);
              top_newer = s.top_newer;
            },
            refl,
          )
      | inr room ↦ (
        e1,
        r ∷ recent,
        [],
        rw q (unfold rotate_if_full in rw room),
        record {
          in_mt = h;
          in_immt = rw idle refl;
          level0 = s.level0;
          below = s.below;
          levels_eq = s.levels_eq;
          in_level0 = s.in_level0;
          in_below = s.in_below;
          recent_newer = (newest-Newer r (top ++ deep) older, s.recent_newer);
          rotated_newer = tt;
          top_newer = s.top_newer;
        },
        append-nil (r ∷ recent),
      )
    ]
