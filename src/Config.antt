-- ===== src/Config.antt =====
-- internal/config: the defaults of the options. The signed fields stand by their bit patterns, the
-- durations and floats are a parameter, of which only the comparison with zero is used.
use ascent_db.Prelude.{
  ℕ, ◌*◌, ◌≡◌, ◌≢◌, arith, List, Bool, ◌==◌, if◌then◌else◌, Bool-cases, inl, inr,
}

pub data SyncMode : Type 0 where
  sync_none sync_batch : SyncMode

module _ (F : Type 0) where
  pub record Options : Type 0 where
    pub data_dir : List ℕ
    pub crash_recovery : Bool
    pub memtable_size : ℕ
    pub block_size : ℕ
    pub filter_expected_keys : ℕ
    pub filter_fp_rate : F
    pub block_cache_size : ℕ
    pub max_l0_files : ℕ
    pub max_bytes_base : ℕ
    pub level_multiplier : ℕ
    pub max_sstable_size : ℕ
    pub num_levels : ℕ
    pub skiplist_max_level : ℕ
    pub skiplist_p : F
    pub mode : SyncMode
    pub interval : ℕ

-- `if x == 0 { x = v }`
unfoldable pub or_else : {A : Type 0} → (A → Bool) → A → A → A
or_else is_zero x v = if is_zero x then v else x

abbrev is_zero_int : ℕ → Bool
is_zero_int x = x == 0

module _ {F : Type 0} (is_zero : F → Bool) (default_rate default_p : F) where
  unfoldable pub with_defaults : Options F → Options F
  with_defaults opts = record opts {
    filter_expected_keys = or_else is_zero_int opts.filter_expected_keys 1000;
    filter_fp_rate = or_else is_zero opts.filter_fp_rate default_rate;
    block_cache_size = or_else is_zero_int opts.block_cache_size 1024;
    max_l0_files = or_else is_zero_int opts.max_l0_files 4;
    max_bytes_base = or_else is_zero_int opts.max_bytes_base (10 * 1024 * 1024);
    level_multiplier = or_else is_zero_int opts.level_multiplier 10;
    max_sstable_size = or_else is_zero_int opts.max_sstable_size (4 * 1024 * 1024);
    num_levels = or_else is_zero_int opts.num_levels 7;
    skiplist_max_level = or_else is_zero_int opts.skiplist_max_level 16;
    skiplist_p = or_else is_zero opts.skiplist_p default_p;
  }

-- The integer fields that have a default are not zero.
pub record IsFilled {F : Type 0} (opts : Options F) : Type 0 where
  pub keys : opts.filter_expected_keys ≢ 0
  pub cache : opts.block_cache_size ≢ 0
  pub files : opts.max_l0_files ≢ 0
  pub bytes : opts.max_bytes_base ≢ 0
  pub multiplier : opts.level_multiplier ≢ 0
  pub table : opts.max_sstable_size ≢ 0
  pub levels : opts.num_levels ≢ 0
  pub height : opts.skiplist_max_level ≢ 0

or_else-ne_zero : (x v : ℕ) → v ≢ 0 → or_else is_zero_int x v ≢ 0
unfolding or_else
or_else-ne_zero x v h = ground arith

if_same : {A : Type 0} (b : Bool) (v : A) → (if b then v else v) ≡ v
if_same b v = elim (Bool-cases b) [ inl e ↦ rw e | inr e ↦ rw e ]

or_else-again :
    {A : Type 0} (is_zero : A → Bool) (x v : A)
    → or_else is_zero (or_else is_zero x v) v ≡ or_else is_zero x v
unfolding or_else
or_else-again is_zero x v = elim (Bool-cases (is_zero x)) [
  | inl e ↦ rw e (if_same (is_zero v) v)
  | inr e ↦ rw (e, e)
]

module _ {F : Type 0} (is_zero : F → Bool) (default_rate default_p : F) where
  -- Whatever the caller left at zero, WithDefaults returns options whose integer fields with a
  -- default are not zero, and applied to its own result it changes nothing.
  pub with_defaults-again :
      (opts : Options F)
      → IsFilled (with_defaults is_zero default_rate default_p opts)
        × (with_defaults is_zero default_rate default_p
              (with_defaults is_zero default_rate default_p opts)
            ≡ with_defaults is_zero default_rate default_p opts)
  unfolding with_defaults
  with_defaults-again opts = (
    record {
      keys = or_else-ne_zero opts.filter_expected_keys 1000 (omega arith);
      cache = or_else-ne_zero opts.block_cache_size 1024 (omega arith);
      files = or_else-ne_zero opts.max_l0_files 4 (omega arith);
      bytes = or_else-ne_zero opts.max_bytes_base (10 * 1024 * 1024) (omega arith);
      multiplier = or_else-ne_zero opts.level_multiplier 10 (omega arith);
      table = or_else-ne_zero opts.max_sstable_size (4 * 1024 * 1024) (omega arith);
      levels = or_else-ne_zero opts.num_levels 7 (omega arith);
      height = or_else-ne_zero opts.skiplist_max_level 16 (omega arith);
    },
    simp or_else-again,
  )
