-- ===== src/Engine/Schedule/Picked.antt =====
-- Which tables pickCompactionInputs picks of a level below level 0.
use ascent_db.Prelude.{
  ℕ, suc, ◌+◌, ◌-◌, ◌*◌, ◌^◌, ◌≤◌, ◌<◌, ◌≡◌, ◌≢◌, ◌∙◌, ◌⊎◌, refl, sym, ap, arith, List, [], ◌∷◌,
  ◌++◌, length, get_elem?, All, some, true, false, less, ◌==◌, Bool-cases, inl, inr, ok,
}
use mathlib.Core.Path.{subst}
use ascent_db.Bytes.Compare.{compare_bytes}
use ascent_db.Meta.{TableMeta}
use ascent_db.Meta.Versions.{level_of}
use ascent_db.Meta.Overlap.{AtMost}
use ascent_db.Engine.Schedule.{
  Compactor, level_size, level_capacity, multiply, excess, pick_from, next_tables, pick_behind,
  pick_compaction_inputs,
}
use ascent_db.Engine.Schedule.Pick.{index-level_of, index-some}
use ascent_db.Engine.Schedule.Sizes.{bytes_of, level_size-bytes_of, multiply-pow, excess-monus}
use ascent_db.Engine.Schedule.Parted.{Rising, Parted, parted, next_tables-back}
use ascent_db.Engine.Schedule.Loaded.{empty_front, pick_from-Loaded}

-- The inputs stand between `pre`, the tables that start at or before the pointer, and `post`. They are
-- the first tables behind `pre` that have `target` bytes together, or all if those have less, and one
-- table at least if there is one.
pub record Picked (pointer : List ℕ) (target : ℕ) (tables inputs : List TableMeta) : Type 0 where
  pub pre : List TableMeta
  pub post : List TableMeta
  pub place : tables ≡ pre ++ (inputs ++ post)
  pub before : All (λ t. AtMost t.min_key.user_key pointer) pre
  pub behind : All (λ t. compare_bytes pointer t.min_key.user_key ≡ less) (inputs ++ post)
  pub enough : (post ≡ []) ⊎ (target ≤ bytes_of inputs)
  pub no_more :
      (front back : List TableMeta)
      → inputs ≡ front ++ back
      → front ≢ []
      → back ≢ []
      → bytes_of front < target
  pub some_picked : inputs ≡ [] → post ≡ []

bytes_of-append : (xs ys : List TableMeta) → bytes_of (xs ++ ys) ≡ bytes_of xs + bytes_of ys
unfolding bytes_of
bytes_of-append [] ys = omega arith
bytes_of-append (x ∷ xs) ys = omega (arith, bytes_of-append xs ys)

pick_from-Picked :
    (pointer : List ℕ) (target : ℕ) (tables : List TableMeta)
    → Parted pointer tables
    → target < 2 ^ 63
    → bytes_of tables < 2 ^ 63
    → Picked pointer target tables (pick_from target 0 (next_tables pointer tables))
pick_from-Picked pointer target tables p ht hb =
    let room : 0 + bytes_of p.back < 2 ^ 63 =
      omega (arith, hb, ap bytes_of p.whole, bytes_of-append p.front p.back) in
    let l = pick_from-Loaded target 0 p.back ht room in
    subst (λ ts. Picked pointer target tables (pick_from target 0 ts))
      (sym (next_tables-back pointer tables p))
      (record {
        pre = p.front;
        post = l.post;
        place = p.whole ∙ ap (λ x. p.front ++ x) l.whole;
        before = p.before;
        behind =
            subst (All (λ t. compare_bytes pointer t.min_key.user_key ≡ less)) l.whole p.behind;
        enough = elim l.enough [ inl e ↦ inl e | inr h ↦ inr (omega (arith, h)) ];
        no_more = λ front back e ne ne'. omega (arith, l.no_more front back e ne ne');
        some_picked = l.some_picked;
      })

-- The options MaxL0Files, MaxBytesBase and LevelMultiplier.
module _ (max_l0_files max_bytes_base level_multiplier : ℕ) where
  pick_behind-Picked :
      (l : ℕ) (tables : List TableMeta) (pointer : List ℕ)
      → Rising tables
      → bytes_of tables < 2 ^ 63
      → 0 < level_multiplier
      → max_bytes_base * level_multiplier ^ l < 2 ^ 63
      → Picked pointer
          (bytes_of tables - max_bytes_base * level_multiplier ^ l)
          tables
          (pick_behind max_l0_files max_bytes_base level_multiplier (suc l) tables pointer)
  unfolding pick_behind level_capacity
  pick_behind-Picked l tables pointer rising fits pos cap_fits =
      let cap = max_bytes_base * level_multiplier ^ l in
      let rounds : suc l - 1 ≡ l = omega arith in
      let target : excess (level_size tables) (multiply level_multiplier (suc l - 1) max_bytes_base)
          ≡ bytes_of tables - cap =
        ap (λ k. excess (level_size tables) (multiply level_multiplier k max_bytes_base)) rounds
        ∙ ap (λ s. excess s (multiply level_multiplier l max_bytes_base))
            (level_size-bytes_of tables fits)
        ∙ ap (excess (bytes_of tables))
            (multiply-pow level_multiplier l max_bytes_base pos cap_fits)
        ∙ excess-monus (bytes_of tables) cap fits cap_fits in
      subst
        (λ z.
          Picked pointer (bytes_of tables - cap) tables
            (pick_from z 0 (next_tables pointer tables)))
        (sym target)
        (pick_from-Picked pointer (bytes_of tables - cap) tables (parted pointer tables rising)
          (omega (arith, fits)) fits)

  -- For a level below level 0 that exists, with a pointer, and whose tables are in the order of
  -- their smallest keys, with a positive multiplier, and if neither the bytes of the level nor its
  -- capacity overflow an int64, pickCompactionInputs ends without a panic. It passes over the
  -- tables that start at or before the pointer, and picks from the others, which all start behind
  -- it, the first ones that together have the bytes by which the level exceeds its capacity, or all
  -- if those have less, and one table at least if there is one.
  pub pick_compaction_inputs-Picked :
      (c : Compactor) (l : ℕ) (pointer : List ℕ)
      → suc l < length c.engine.vs.levels
      → get_elem? c.compact_pointer (suc l) ≡ some pointer
      → Rising (level_of (suc l) c.engine.vs.levels)
      → bytes_of (level_of (suc l) c.engine.vs.levels) < 2 ^ 63
      → 0 < level_multiplier
      → max_bytes_base * level_multiplier ^ l < 2 ^ 63
      → (inputs : List TableMeta) × (pick_compaction_inputs max_l0_files max_bytes_base
            level_multiplier c
            (suc l)
          ≡ ok inputs)
        × Picked pointer
            (bytes_of (level_of (suc l) c.engine.vs.levels) - max_bytes_base * level_multiplier ^ l)
            (level_of (suc l) c.engine.vs.levels)
            inputs
  unfolding pick_compaction_inputs
  pick_compaction_inputs-Picked c l pointer fits pointed rising bytes_fit pos cap_fits =
      let tables = level_of (suc l) c.engine.vs.levels in
      let at_level = index-level_of c.engine.vs.levels (suc l) fits in
      let deeper : (suc l == 0) ≡ false = ground arith in
      elim (Bool-cases (length tables == 0)) [
        | inl e ↦ ([], rw (at_level, e) refl, nothing tables pointer _ (no_tables tables e))
        | inr e ↦ (
          pick_behind max_l0_files max_bytes_base level_multiplier (suc l) tables pointer,
          rw (at_level, e, deeper, index-some c.compact_pointer (suc l) pointer pointed) refl,
          pick_behind-Picked l tables pointer rising bytes_fit pos cap_fits,
        )
      ]
    where
      no_tables : (ts : List TableMeta) → (length ts == 0) ≡ true → ts ≡ []
      no_tables [] e = refl
      no_tables (t ∷ ts) e = ground (arith, e)

      nothing :
          (ts : List TableMeta) (pointer : List ℕ) (target : ℕ)
          → ts ≡ []
          → Picked pointer target ts []
      nothing ts pointer target e = record {
        pre = [];
        post = [];
        place = e;
        before = tt;
        behind = tt;
        enough = inl refl;
        no_more = λ front back q ne ne'. absurd (empty_front front back q ne);
        some_picked = λ q. refl;
      }
