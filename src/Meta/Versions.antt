-- ===== src/Meta/Versions.antt =====
-- VersionSet: apply, NextFileNum and removeFromLevel.
pub mod Struck
use ascent_db.Prelude.{
  ℕ, zero, suc, ◌+◌, ◌<◌, ◌≡◌, ◌∙◌, refl, ap, arith, List, [], ◌∷◌, ◌++◌, length, append_assoc,
  append-nil, All, ◌==◌, if◌then◌else◌, Result, ok, panic, ◌>>=◌,
}
use ascent_db.Bytes.Word.{u64}
use ascent_db.Meta.{TableMeta, DeletedTableMeta, VersionEdit, VersionSet}

-- The loop over one level that ends at the first table with the number.
unfoldable pub remove_first : ℕ → List TableMeta → List TableMeta
remove_first num [] = []
remove_first num (t ∷ ts) =
    let rest = remove_first num ts in if t.file_num == num then ts else t ∷ rest

-- `levels[lvl] = f(levels[lvl])`: a level that does not exist is an index out of range.
unfoldable pub update_level :
    ℕ → (List TableMeta → List TableMeta) → List (List TableMeta) → Result (List (List TableMeta))
update_level lvl f [] = panic
update_level zero f (l ∷ ls) = ok (f l ∷ ls)
update_level (suc lvl) f (l ∷ ls) = update_level lvl f ls >>= λ ls'. ok (l ∷ ls')

unfoldable pub apply_deletes :
    List DeletedTableMeta → List (List TableMeta) → Result (List (List TableMeta))
apply_deletes [] levels = ok levels
apply_deletes (d ∷ ds) levels =
    update_level d.level (remove_first d.file_num) levels >>= apply_deletes ds

unfoldable pub apply_adds : List TableMeta → List (List TableMeta) → Result (List (List TableMeta))
apply_adds [] levels = ok levels
apply_adds (t ∷ ts) levels = update_level t.level (λ l. l ++ (t ∷ [])) levels >>= apply_adds ts

-- The levels of the new version; the old ones stay as they are.
unfoldable pub apply : VersionSet → VersionEdit → Result (List (List TableMeta))
apply vs edit = apply_deletes edit.delete_tables vs.levels >>= apply_adds edit.add_tables

-- NextFileNum returns the number and moves the counter on.
unfoldable pub take_file_num : VersionSet → ℕ × VersionSet
take_file_num vs = (vs.next_file_num, record vs { next_file_num = u64 (vs.next_file_num + 1) })

-- The tables of one level.
abbrev pub level_of : ℕ → List (List TableMeta) → List TableMeta
level_of i [] = []
level_of zero (l ∷ ls) = l
level_of (suc i) (l ∷ ls) = level_of i ls

-- What a list of deletions and a list of new tables do to level `i`.
unfoldable pub removed : ℕ → List DeletedTableMeta → List TableMeta → List TableMeta
removed i [] l = l
removed i (d ∷ ds) l = removed i ds (if d.level == i then remove_first d.file_num l else l)

unfoldable pub added : ℕ → List TableMeta → List TableMeta
added i [] = []
added i (t ∷ ts) = let rest = added i ts in if t.level == i then t ∷ rest else rest

-- The two ways in which `update_level` shows: at the level, and elsewhere.
record Updated (lvl : ℕ) (f : List TableMeta → List TableMeta) (old new : List (List TableMeta))
    : Type 0 where
  pub count : length new ≡ length old
  pub levels : (i : ℕ) → level_of i new ≡ (if lvl == i then f (level_of i old) else level_of i old)

update_level-Updated :
    (lvl : ℕ) (f : List TableMeta → List TableMeta) (old : List (List TableMeta))
    → lvl < length old
    → (new : List (List TableMeta)) × (update_level lvl f old ≡ ok new) × Updated lvl f old new
unfolding update_level
update_level-Updated lvl f [] h = absurd (omega arith)
update_level-Updated zero f (l ∷ ls) h =
    (f l ∷ ls, refl, record { count = refl; levels = at_level })
  where
    at_level :
        (i : ℕ)
        → level_of i (f l ∷ ls) ≡ (if 0 == i then f (level_of i (l ∷ ls)) else level_of i (l ∷ ls))
    at_level zero = refl
    at_level (suc i) = ground arith
update_level-Updated (suc lvl) f (l ∷ ls) h =
    let (new, e, u) = update_level-Updated lvl f ls (omega arith) in
    (l ∷ new, rw e, record { count = ap suc u.count; levels = at_level new u })
  where
    at_level :
        (new : List (List TableMeta))
        → Updated lvl f ls new
        → (i : ℕ)
        → level_of i (l ∷ new)
          ≡ (if suc lvl == i then f (level_of i (l ∷ ls)) else level_of i (l ∷ ls))
    at_level new u zero = ground arith
    at_level new u (suc i) = ground (arith, u.levels i)

-- What a step of an edit does to level `i`, from what the steps before did.
abbrev Levels : (ℕ → List TableMeta) → ℕ → Result (List (List TableMeta)) → Type 0
Levels at_level n r =
    (new : List (List TableMeta)) × (r ≡ ok new)
    × (length new ≡ n)
    × ((i : ℕ) → level_of i new ≡ at_level i)

apply_deletes-Levels :
    (ds : List DeletedTableMeta) (old : List (List TableMeta))
    → All (λ d. d.level < length old) ds
    → Levels (λ i. removed i ds (level_of i old)) (length old) (apply_deletes ds old)
unfolding apply_deletes removed
apply_deletes-Levels [] old h = (old, refl, refl, λ i. refl)
apply_deletes-Levels (d ∷ ds) old (hd, hds) =
    let (mid, e, u) = update_level-Updated d.level (remove_first d.file_num) old hd in
    let (new, e', n, l) = apply_deletes-Levels ds mid (rw u.count hds) in
    (new, rw e e', n ∙ u.count, λ i. rw (l i, u.levels i))

apply_adds-Levels :
    (ts : List TableMeta) (old : List (List TableMeta))
    → All (λ t. t.level < length old) ts
    → Levels (λ i. level_of i old ++ added i ts) (length old) (apply_adds ts old)
unfolding apply_adds added
apply_adds-Levels [] old h = (old, refl, refl, λ i. rw append-nil)
apply_adds-Levels (t ∷ ts) old (ht, hts) =
    let (mid, e, u) = update_level-Updated t.level (λ l. l ++ (t ∷ [])) old ht in
    let (new, e', n, l) = apply_adds-Levels ts mid (rw u.count hts) in
    (new, rw e e', n ∙ u.count, λ i. rw (l i, u.levels i) (step i))
  where
    step :
        (i : ℕ)
        → ((if t.level == i then level_of i old ++ (t ∷ []) else level_of i old) ++ added i ts)
          ≡ level_of i old ++ (if t.level == i then t ∷ added i ts else added i ts)
    step i = ground (arith, append_assoc (level_of i old) (t ∷ []) (added i ts))

-- An edit that names existing levels only.
pub record IsEdit (levels : ℕ) (edit : VersionEdit) : Type 0 where
  pub deletes_fit : All (λ d. d.level < levels) edit.delete_tables
  pub adds_fit : All (λ t. t.level < levels) edit.add_tables

-- An edit that names existing levels applies, level by level.
pub apply-removed :
    (vs : VersionSet) (edit : VersionEdit)
    → IsEdit (length vs.levels) edit
    → (new : List (List TableMeta)) × (apply vs edit ≡ ok new)
      × (length new ≡ length vs.levels)
      × ((i : ℕ)
          → level_of i new
            ≡ removed i edit.delete_tables (level_of i vs.levels) ++ added i edit.add_tables)
unfolding apply
apply-removed vs edit h =
    let (mid, e, n, l) = apply_deletes-Levels edit.delete_tables vs.levels h.deletes_fit in
    let (new, e', n', l') = apply_adds-Levels edit.add_tables mid (rw n h.adds_fit) in
    (new, rw e e', n' ∙ n, λ i. rw (l' i, l i))
