-- ===== src/Engine/Schedule/Pick.antt =====
-- The inputs that pickCompactionInputs picks.
use ascent_db.Prelude.{
  get_elem?, some, ◌+◌, ℕ, zero, suc, ◌<◌, ◌≤◌, ◌≡◌, ◌∙◌, refl, sym, ap, arith, List, [], ◌∷◌, ◌++◌,
  append-nil, length, take, drop, take-append-drop, ◌==◌, Bool-cases, inl, inr, ok,
}
use ascent_db.Bytes.Word.{u64}
use ascent_db.Meta.{TableMeta}
use ascent_db.Meta.Versions.{level_of}
use ascent_db.Sstable.Search.{search}
use ascent_db.Engine.Schedule.{
  Compactor, index, signed_less, pick_from, next_tables, is_behind, pick_behind,
  pick_compaction_inputs,
}

pub index_fits : {A : Type 0} (xs : List A) (i : ℕ) → i < length xs → (x : A) × (index xs i ≡ ok x)
unfolding index
index_fits [] i h = absurd (omega arith)
index_fits (x ∷ xs) zero h = (x, refl)
index_fits (x ∷ xs) (suc i) h = index_fits xs i (omega arith)

pub index-some :
    {A : Type 0} (xs : List A) (i : ℕ) (x : A) → get_elem? xs i ≡ some x → index xs i ≡ ok x
unfolding index
index-some [] i x e = cc e
index-some (y ∷ xs) zero x e = let same : y ≡ x = cc e in ap ok same
index-some (y ∷ xs) (suc i) x e = index-some xs i x e

pub index-level_of :
    (levels : List (List TableMeta)) (i : ℕ)
    → i < length levels
    → index levels i ≡ ok (level_of i levels)
unfolding index
index-level_of [] i h = absurd (omega arith)
index-level_of (l ∷ ls) zero h = refl
index-level_of (l ∷ ls) (suc i) h = index-level_of ls i (omega arith)

-- A list and what is before and behind it in another.
abbrev pub Stretch : List TableMeta → List TableMeta → Type 0
Stretch tables inputs =
    (pre : List TableMeta) × (post : List TableMeta) × (tables ≡ pre ++ (inputs ++ post))

pick_from-front :
    (target_size picked_size : ℕ) (ts : List TableMeta)
    → (post : List TableMeta) × (ts ≡ pick_from target_size picked_size ts ++ post)
unfolding pick_from
pick_from-front target_size picked_size [] = ([], refl)
pick_from-front target_size picked_size (t ∷ ts) =
    let (post, e) = pick_from-front target_size (u64 (picked_size + t.file_size)) ts in
    elim (Bool-cases (signed_less (u64 (picked_size + t.file_size)) target_size)) [
      | inl a ↦ (post, rw a (ap (λ l. t ∷ l) e))
      | inr a ↦ (ts, rw a refl)
    ]

-- The options MaxL0Files, MaxBytesBase and LevelMultiplier.
module _ (max_l0_files max_bytes_base level_multiplier : ℕ) where
  pick_behind-Stretch :
      (level : ℕ) (tables : List TableMeta) (pointer : List ℕ)
      → Stretch tables
          (pick_behind max_l0_files max_bytes_base level_multiplier level tables pointer)
  unfolding pick_behind next_tables
  pick_behind-Stretch level tables pointer =
      let i = search (length tables) (is_behind pointer tables) in
      let (post, e) = pick_from-front _ 0 (drop i tables) in
      (take i tables, post, sym (take-append-drop i tables) ∙ ap (λ l. take i tables ++ l) e)

  -- For a level that exists, with a pointer for every level, pickCompactionInputs ends without a
  -- panic, and what it picks is a stretch of the level.
  pub pick_compaction_inputs-Stretch :
      (c : Compactor) (level : ℕ)
      → level < length c.engine.vs.levels
      → length c.engine.vs.levels ≤ length c.compact_pointer
      → (inputs : List TableMeta) × (pick_compaction_inputs max_l0_files max_bytes_base
            level_multiplier c level
          ≡ ok inputs)
        × Stretch (level_of level c.engine.vs.levels) inputs
  unfolding pick_compaction_inputs
  pick_compaction_inputs-Stretch c level fits pointed =
      let tables = level_of level c.engine.vs.levels in
      let (pointer, q) = index_fits c.compact_pointer level (omega arith) in
      let at_level = index-level_of c.engine.vs.levels level fits in
      elim (Bool-cases (length tables == 0)) [
        | inl e ↦ ([], rw (at_level, e) refl, ([], tables, refl))
        | inr e ↦ elim (Bool-cases (level == 0)) [
          | inl e' ↦ (tables, rw (at_level, e, e') refl, ([], [], sym (append-nil tables)))
          | inr e' ↦ (
            pick_behind max_l0_files max_bytes_base level_multiplier level tables pointer,
            rw (at_level, e, e', q) refl,
            pick_behind-Stretch level tables pointer,
          )
        ]
      ]
