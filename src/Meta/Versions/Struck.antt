-- ===== src/Meta/Versions/Struck.antt =====
-- What apply does to each level, as relations that do not depend on its loops.
use ascent_db.Prelude.{
  ℕ, ◌≡◌, ◌≢◌, arith, List, [], ◌∷◌, ◌++◌, length, All, ◌==◌, Bool-cases, inl, inr, ok,
}
use ascent_db.Meta.{TableMeta, DeletedTableMeta, VersionEdit, VersionSet}
use ascent_db.Meta.Versions.{remove_first, level_of, removed, added, apply, IsEdit, apply-removed}

-- The second list is the first one without its first table with the number, if it has one.
pub data Struck (num : ℕ) : List TableMeta → List TableMeta → Type 0 where
  absent : {ts : List TableMeta} → All (λ t. t.file_num ≢ num) ts → Struck num ts ts
  struck :
      (before : List TableMeta) (t : TableMeta) (behind : List TableMeta)
      → All (λ u. u.file_num ≢ num) before
      → t.file_num ≡ num
      → Struck num (before ++ (t ∷ behind)) (before ++ behind)

-- What a list of deletions, one after the other, leaves of level `i`.
pub data Left (i : ℕ) : List DeletedTableMeta → List TableMeta → List TableMeta → Type 0 where
  done : {ts : List TableMeta} → Left i [] ts ts
  elsewhere :
      {d : DeletedTableMeta} {ds : List DeletedTableMeta} {ts ts' : List TableMeta}
      → d.level ≢ i
      → Left i ds ts ts'
      → Left i (d ∷ ds) ts ts'
  here :
      {d : DeletedTableMeta} {ds : List DeletedTableMeta} {ts mid ts' : List TableMeta}
      → d.level ≡ i
      → Struck d.file_num ts mid
      → Left i ds mid ts'
      → Left i (d ∷ ds) ts ts'

-- The tables of level `i` among those that are added, in their order.
pub data Gained (i : ℕ) : List TableMeta → List TableMeta → Type 0 where
  none_left : Gained i [] []
  other :
      {t : TableMeta} {ts gained : List TableMeta}
      → t.level ≢ i
      → Gained i ts gained
      → Gained i (t ∷ ts) gained
  own :
      {t : TableMeta} {ts gained : List TableMeta}
      → t.level ≡ i
      → Gained i ts gained
      → Gained i (t ∷ ts) (t ∷ gained)

further :
    {num : ℕ} {t : TableMeta} {ts ts' : List TableMeta}
    → t.file_num ≢ num
    → Struck num ts ts'
    → Struck num (t ∷ ts) (t ∷ ts')
further ne (absent all) = absent (ne, all)
further {t = t} ne (struck before u behind all e) = struck (t ∷ before) u behind (ne, all) e

remove_first-Struck : (num : ℕ) (ts : List TableMeta) → Struck num ts (remove_first num ts)
unfolding remove_first
remove_first-Struck num [] = absent tt
remove_first-Struck num (t ∷ ts) = elim (Bool-cases (t.file_num == num)) [
  | inl e ↦ rw e (struck [] t ts tt (ground (arith, e)))
  | inr e ↦ rw e (further (λ q. ground (arith, e, q)) (remove_first-Struck num ts))
]

removed-Left :
    (i : ℕ) (ds : List DeletedTableMeta) (ts : List TableMeta) → Left i ds ts (removed i ds ts)
unfolding removed
removed-Left i [] ts = done
removed-Left i (d ∷ ds) ts = elim (Bool-cases (d.level == i)) [
  | inl e ↦
      rw e (here (ground (arith, e)) (remove_first-Struck d.file_num ts) (removed-Left i ds _))
  | inr e ↦ rw e (elsewhere (λ q. ground (arith, e, q)) (removed-Left i ds ts))
]

added-Gained : (i : ℕ) (ts : List TableMeta) → Gained i ts (added i ts)
unfolding added
added-Gained i [] = none_left
added-Gained i (t ∷ ts) = elim (Bool-cases (t.level == i)) [
  | inl e ↦ rw e (own (ground (arith, e)) (added-Gained i ts))
  | inr e ↦ rw e (other (λ q. ground (arith, e, q)) (added-Gained i ts))
]

-- An edit whose tables and deletions name existing levels applies without a panic, to a version
-- with as many levels. Each level of it is what the deletions leave of the old level, each deletion
-- that names the level taking away the first table with its number, if there is one, and nothing
-- else; behind that stand the tables that the edit adds to the level, in their order.
pub apply-levels :
    (vs : VersionSet) (edit : VersionEdit)
    → IsEdit (length vs.levels) edit
    → (new : List (List TableMeta)) × (apply vs edit ≡ ok new)
      × (length new ≡ length vs.levels)
      × ((i : ℕ)
          → (kept : List TableMeta) × (gained : List TableMeta) × Left i edit.delete_tables
              (level_of i vs.levels)
              kept
            × Gained i edit.add_tables gained
            × (level_of i new ≡ kept ++ gained))
apply-levels vs edit h =
    let (new, e, n, l) = apply-removed vs edit h in
    (
      new,
      e,
      n,
      λ i. (
        removed i edit.delete_tables (level_of i vs.levels),
        added i edit.add_tables,
        removed-Left i edit.delete_tables (level_of i vs.levels),
        added-Gained i edit.add_tables,
        l i,
      ),
    )
