-- ===== src/Engine/Schedule/Removed.antt =====
-- What the edit of a compaction removes from the levels.
use ascent_db.Prelude.{
  ℕ, ◌≡◌, ◌≢◌, ◌∙◌, refl, ap, arith, List, [], ◌∷◌, ◌++◌, map, All, false, true, ◌==◌,
  if◌then◌else◌, Bool-cases, inl, inr,
}
use ascent_db.Meta.{TableMeta, DeletedTableMeta}
use ascent_db.Meta.Versions.{remove_first, removed}
use ascent_db.Meta.Overlap.{is_apart, find_overlapping, key_range_of}
use ascent_db.Meta.Overlap.Apart.{Split, done, kept, taken, is_apart-Apart, Apart-is_apart}
use ascent_db.Engine.Schedule.{delete_of}

pub removed_elsewhere :
    (i : ℕ) (ds : List DeletedTableMeta) (l : List TableMeta)
    → All (λ d. d.level ≢ i) ds
    → removed i ds l ≡ l
unfolding removed
removed_elsewhere i [] l h = refl
removed_elsewhere i (d ∷ ds) l (hd, hds) = elim (Bool-cases (d.level == i)) [
  | inl e ↦ ground (arith, e, hd)
  | inr e ↦ rw e (removed_elsewhere i ds l hds)
]

pub removed-append :
    (i : ℕ) (xs ys : List DeletedTableMeta) (l : List TableMeta)
    → removed i (xs ++ ys) l ≡ removed i ys (removed i xs l)
unfolding removed
removed-append i [] ys l = refl
removed-append i (x ∷ xs) ys l = removed-append i xs ys _

-- A table of level `i` at the front is the one that its deletion removes.
remove_head :
    (i : ℕ) (t : TableMeta) (ds : List DeletedTableMeta) (l : List TableMeta)
    → t.level ≡ i
    → removed i (delete_of t ∷ ds) (t ∷ l) ≡ removed i ds l
unfolding removed remove_first delete_of
remove_head i t ds l h =
    let at_level : (t.level == i) ≡ true = ground (arith, h) in
    let found : (t.file_num == t.file_num) ≡ true = ground arith in rw (at_level, found) refl

-- A table whose number is not among the deletions stays.
keep_head :
    (i : ℕ) (t : TableMeta) (ds : List DeletedTableMeta) (l : List TableMeta)
    → All (λ d. d.file_num ≢ t.file_num) ds
    → removed i ds (t ∷ l) ≡ t ∷ removed i ds l
unfolding removed remove_first
keep_head i t [] l h = refl
keep_head i t (d ∷ ds) l (hd, h) = elim (Bool-cases (d.level == i)) [
  | inl e ↦
      let other : (t.file_num == d.file_num) ≡ false = ground (arith, hd) in
      rw (e, other) (keep_head i t ds (remove_first d.file_num l) h)
  | inr e ↦ rw e (keep_head i t ds l h)
]

pub delete_of-All :
    (P : DeletedTableMeta → Type 0) (ts : List TableMeta)
    → All (λ t. P (delete_of t)) ts
    → All P (map delete_of ts)
delete_of-All P [] all = tt
delete_of-All P (t ∷ ts) (h, all) = (h, delete_of-All P ts all)

remove_other :
    (i : ℕ) (t : TableMeta) (sel l : List TableMeta)
    → All (λ u. u.file_num ≢ t.file_num) sel
    → removed i (map delete_of sel) (t ∷ l) ≡ t ∷ removed i (map delete_of sel) l
unfolding delete_of
remove_other i t sel l h =
    keep_head i t (map delete_of sel) l (delete_of-All (λ d. d.file_num ≢ t.file_num) sel h)

remove_front :
    (i : ℕ) (sel post : List TableMeta)
    → All (λ t. t.level ≡ i) sel
    → removed i (map delete_of sel) (sel ++ post) ≡ post
remove_front i [] post h = unfold removed in refl
remove_front i (t ∷ sel) post (ht, h) =
    remove_head i t (map delete_of sel) (sel ++ post) ht ∙ remove_front i sel post h

-- The deletions of a stretch of a level leave what is before and behind it.
pub remove_middle :
    (i : ℕ) (pre sel post : List TableMeta)
    → All (λ t. All (λ u. u.file_num ≢ t.file_num) sel) pre
    → All (λ t. t.level ≡ i) sel
    → removed i (map delete_of sel) (pre ++ (sel ++ post)) ≡ pre ++ post
remove_middle i [] sel post apart at_level = remove_front i sel post at_level
remove_middle i (t ∷ pre) sel post (ht, apart) at_level =
    remove_other i t sel (pre ++ (sel ++ post)) ht
    ∙ ap (λ l. t ∷ l) (remove_middle i pre sel post apart at_level)

-- No two tables have the same number.
unfoldable pub Distinct : List TableMeta → Type 0
Distinct [] = Unit {0}
Distinct (t ∷ ts) = All (λ u. u.file_num ≢ t.file_num) ts × Distinct ts

-- The tables that FindOverlapping passes over.
unfoldable pub outside : List TableMeta → List ℕ → List ℕ → List TableMeta
outside [] min_key max_key = []
outside (t ∷ ts) min_key max_key =
    let rest = outside ts min_key max_key in if is_apart t min_key max_key then t ∷ rest else rest

-- What is passed over, and what is found.
pub outside-Split :
    (others ts : List TableMeta)
    → others ≢ []
    → Split others ts
        (outside ts (key_range_of others).0 (key_range_of others).1)
        (find_overlapping ts (key_range_of others).0 (key_range_of others).1)
unfolding outside find_overlapping
outside-Split others [] ne = done
outside-Split others (t ∷ ts) ne =
    let rest = outside-Split others ts ne in
    elim (Bool-cases (is_apart t (key_range_of others).0 (key_range_of others).1)) [
      | inl e ↦ rw e (kept (is_apart-Apart others t ne e) rest)
      | inr e ↦ rw e (taken (λ a. cc (e, Apart-is_apart others t ne a)) rest)
    ]

pub find_overlapping-All :
    (P : TableMeta → Type 0) (ts : List TableMeta) (min_key max_key : List ℕ)
    → All P ts
    → All P (find_overlapping ts min_key max_key)
unfolding find_overlapping
find_overlapping-All P [] min_key max_key all = tt
find_overlapping-All P (t ∷ ts) min_key max_key (h, all) =
    let rest = find_overlapping-All P ts min_key max_key all in
    elim (Bool-cases (is_apart t min_key max_key)) [ inl e ↦ rw e rest | inr e ↦ rw e (h, rest) ]

-- The deletions of the overlapping tables of a level leave the others.
pub remove_overlapping :
    (i : ℕ) (ts : List TableMeta) (min_key max_key : List ℕ)
    → All (λ t. t.level ≡ i) ts
    → Distinct ts
    → removed i (map delete_of (find_overlapping ts min_key max_key)) ts
      ≡ outside ts min_key max_key
unfolding find_overlapping outside Distinct
remove_overlapping i [] min_key max_key at_level d = unfold removed in refl
remove_overlapping i (t ∷ ts) min_key max_key (h, at_level) (other, d) =
    let rest = remove_overlapping i ts min_key max_key at_level d in
    elim (Bool-cases (is_apart t min_key max_key)) [
      | inl e ↦ rw e (
          remove_other i t (find_overlapping ts min_key max_key) ts
            (find_overlapping-All (λ u. u.file_num ≢ t.file_num) ts min_key max_key other)
          ∙ ap (λ l. t ∷ l) rest)
      | inr e ↦
          rw e (remove_head i t (map delete_of (find_overlapping ts min_key max_key)) ts h ∙ rest)
    ]
