-- ===== src/Engine/Schedule/Edited.antt =====
-- What the edit of a compaction does to the levels.
use ascent_db.Prelude.{
  ℕ, suc, ◌<◌, ◌≡◌, ◌≢◌, ◌∙◌, refl, sym, ap, arith, List, [], ◌∷◌, ◌++◌, append-nil, length, map,
  All, All-append, true, false, ◌==◌, ok,
}
use ascent_db.Meta.{TableMeta, VersionSet}
use ascent_db.Meta.Versions.{level_of, removed, added, apply, apply-removed}
use ascent_db.Meta.Overlap.{key_range_of, find_overlapping}
use ascent_db.Engine.Schedule.{CompactTask, delete_of, install_edit}
use ascent_db.Engine.Schedule.Removed.{
  removed_elsewhere, removed-append, remove_middle, remove_overlapping, delete_of-All, Distinct,
  outside, find_overlapping-All,
}

-- The inputs of a task are a stretch of their level, between `pre` and `post`, and the tables know
-- their levels and have numbers of their own.
pub record IsTask (levels : List (List TableMeta)) (task : CompactTask) (pre post : List TableMeta)
    : Type 0 where
  pub fits : suc task.level < length levels
  pub place : level_of task.level levels ≡ pre ++ (task.inputs ++ post)
  pub apart : All (λ t. All (λ u. u.file_num ≢ t.file_num) task.inputs) pre
  pub inputs_at : All (λ t. t.level ≡ task.level) task.inputs
  pub next_at : All (λ t. t.level ≡ suc task.level) (level_of (suc task.level) levels)
  pub next_distinct : Distinct (level_of (suc task.level) levels)

-- The tables of the next level that are in the range of the inputs, and those that are not.
abbrev pub met : List (List TableMeta) → CompactTask → List TableMeta
met levels task =
    find_overlapping (level_of (suc task.level) levels) (key_range_of task.inputs).0
      (key_range_of task.inputs).1

abbrev pub unmet : List (List TableMeta) → CompactTask → List TableMeta
unmet levels task =
    outside (level_of (suc task.level) levels) (key_range_of task.inputs).0
      (key_range_of task.inputs).1

-- The level has lost the inputs, and the next one consists of the tables that are kept of it and the
-- new ones.
pub record Installed (old : List (List TableMeta)) (task : CompactTask)
    (pre post kept out_tables : List TableMeta) (new : List (List TableMeta)) : Type 0 where
  pub count : length new ≡ length old
  pub here : level_of task.level new ≡ pre ++ post
  pub next : level_of (suc task.level) new ≡ kept ++ out_tables
  pub elsewhere : (i : ℕ) → i ≢ task.level → i ≢ suc task.level → level_of i new ≡ level_of i old

added_here : (i : ℕ) (ts : List TableMeta) → All (λ t. t.level ≡ i) ts → added i ts ≡ ts
unfolding added
added_here i [] h = refl
added_here i (t ∷ ts) (ht, h) =
    let at_level : (t.level == i) ≡ true = ground (arith, ht) in
    rw at_level (ap (λ l. t ∷ l) (added_here i ts h))

added_elsewhere :
    (i j : ℕ) (ts : List TableMeta) → All (λ t. t.level ≡ j) ts → i ≢ j → added i ts ≡ []
unfolding added
added_elsewhere i j [] h ne = refl
added_elsewhere i j (t ∷ ts) (ht, h) ne =
    let off_level : (t.level == i) ≡ false = ground (arith, ht, ne) in
    rw off_level (added_elsewhere i j ts h ne)

deletes_elsewhere :
    (i j : ℕ) (ts : List TableMeta)
    → All (λ t. t.level ≡ j) ts
    → i ≢ j
    → All (λ d. d.level ≢ i) (map delete_of ts)
unfolding delete_of
deletes_elsewhere i j [] h ne = tt
deletes_elsewhere i j (t ∷ ts) (ht, h) ne = (λ e. ne (sym e ∙ ht), deletes_elsewhere i j ts h ne)

map-append :
    (xs ys : List TableMeta) → map delete_of (xs ++ ys) ≡ map delete_of xs ++ map delete_of ys
map-append [] ys = refl
map-append (x ∷ xs) ys = ap (λ l. delete_of x ∷ l) (map-append xs ys)

pub levels_fit :
    (n i : ℕ) (ts : List TableMeta) → All (λ t. t.level ≡ i) ts → i < n → All (λ t. t.level < n) ts
levels_fit n i [] h fits = tt
levels_fit n i (t ∷ ts) (ht, h) fits = (omega (arith, ht), levels_fit n i ts h fits)

module _ (levels : List (List TableMeta)) (task : CompactTask) (pre post : List TableMeta)
    (ok_task : IsTask levels task pre post) where
  met_at : All (λ t. t.level ≡ suc task.level) (met levels task)
  met_at = find_overlapping-All (λ t. t.level ≡ suc task.level) _ _ _ ok_task.next_at

  -- The deletions of both levels, level by level.
  gone :
      (i : ℕ) (l : List TableMeta)
      → removed i (map delete_of (task.inputs ++ met levels task)) l
        ≡ removed i (map delete_of (met levels task)) (removed i (map delete_of task.inputs) l)
  gone i l =
      ap (λ ds. removed i ds l) (map-append task.inputs (met levels task))
      ∙ removed-append i (map delete_of task.inputs) (map delete_of (met levels task)) l

  gone_here :
      removed task.level
        (map delete_of (task.inputs ++ met levels task))
        (level_of task.level levels)
      ≡ pre ++ post
  gone_here =
      gone task.level (level_of task.level levels)
      ∙ removed_elsewhere task.level (map delete_of (met levels task)) _
          (deletes_elsewhere task.level (suc task.level) (met levels task) met_at (omega arith))
      ∙ ap (λ l. removed task.level (map delete_of task.inputs) l) ok_task.place
      ∙ remove_middle task.level pre task.inputs post ok_task.apart ok_task.inputs_at

  gone_next :
      removed
        (suc task.level)
        (map delete_of (task.inputs ++ met levels task))
        (level_of (suc task.level) levels)
      ≡ unmet levels task
  gone_next =
      gone (suc task.level) (level_of (suc task.level) levels)
      ∙ ap (λ l. removed (suc task.level) (map delete_of (met levels task)) l)
          (removed_elsewhere (suc task.level) (map delete_of task.inputs) _ (
            deletes_elsewhere (suc task.level) task.level task.inputs ok_task.inputs_at
              (omega arith)))
      ∙ remove_overlapping (suc task.level) (level_of (suc task.level) levels) _ _ ok_task.next_at
          ok_task.next_distinct

  gone_elsewhere :
      (i : ℕ)
      → i ≢ task.level
      → i ≢ suc task.level
      → removed i (map delete_of (task.inputs ++ met levels task)) (level_of i levels)
        ≡ level_of i levels
  gone_elsewhere i ne ne' =
      gone i (level_of i levels)
      ∙ removed_elsewhere i (map delete_of (met levels task)) _
          (deletes_elsewhere i (suc task.level) (met levels task) met_at ne')
      ∙ removed_elsewhere i (map delete_of task.inputs) _
          (deletes_elsewhere i task.level task.inputs ok_task.inputs_at ne)

  all_fit : All (λ d. d.level < length levels) (map delete_of (task.inputs ++ met levels task))
  unfolding delete_of
  all_fit =
      delete_of-All (λ d. d.level < length levels) (task.inputs ++ met levels task)
        (All-append (λ t. t.level < length levels) task.inputs (met levels task)
          (levels_fit (length levels) task.level task.inputs ok_task.inputs_at
            (omega (arith, ok_task.fits)))
          (levels_fit (length levels) (suc task.level) (met levels task) met_at ok_task.fits))

  pub edit-Installed :
      (vs : VersionSet) (num : ℕ) (out_tables : List TableMeta)
      → vs.levels ≡ levels
      → All (λ t. t.level ≡ suc task.level) out_tables
      → (new : List (List TableMeta)) × (apply vs
            (install_edit num (task.inputs ++ met levels task) out_tables)
          ≡ ok new)
        × Installed levels task pre post (unmet levels task) out_tables new
  unfolding install_edit
  edit-Installed vs num out_tables same outs_at =
      let edit = install_edit num (task.inputs ++ met levels task) out_tables in
      let (new, e, n, l) = apply-removed vs edit (record {
        deletes_fit = rw same all_fit;
        adds_fit =
            rw same (levels_fit (length levels) (suc task.level) out_tables outs_at ok_task.fits);
      }) in
      (
        new,
        e,
        record {
          count = n ∙ ap length same;
          here =
              l task.level
              ∙ ap
                  (λ ls.
                    removed task.level edit.delete_tables (level_of task.level ls)
                    ++ added task.level out_tables)
                  same
              ∙ ap (λ x. removed task.level edit.delete_tables (level_of task.level levels) ++ x)
                  (added_elsewhere task.level (suc task.level) out_tables outs_at (omega arith))
              ∙ append-nil _
              ∙ gone_here;
          next =
              l (suc task.level)
              ∙ ap
                  (λ ls.
                    removed (suc task.level) edit.delete_tables (level_of (suc task.level) ls)
                    ++ added (suc task.level) out_tables)
                  same
              ∙ ap (λ x. x ++ added (suc task.level) out_tables) gone_next
              ∙ ap (λ x. unmet levels task ++ x) (added_here (suc task.level) out_tables outs_at);
          elsewhere = λ i ne ne'.
              l i
              ∙ ap (λ ls. removed i edit.delete_tables (level_of i ls) ++ added i out_tables) same
              ∙ ap (λ x. removed i edit.delete_tables (level_of i levels) ++ x)
                  (added_elsewhere i (suc task.level) out_tables outs_at ne')
              ∙ append-nil _
              ∙ gone_elsewhere i ne ne';
        },
      )
