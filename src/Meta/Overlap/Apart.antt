-- ===== src/Meta/Overlap/Apart.antt =====
-- FindOverlapping in the range that KeyRangeOf gives: which tables it passes over.
use ascent_db.Prelude.{
  ℕ, ◌≡◌, ◌≢◌, refl, arith, List, [], ◌∷◌, All, true, is_less, is_greater, less, Bool-cases, inl,
  inr, if◌then◌else◌,
}
use ascent_db.Bytes.Compare.{
  compare_bytes, compare_bytes-flip, compare_bytes-eq, compare_bytes_trans,
}
use ascent_db.Meta.{TableMeta}
use ascent_db.Meta.Overlap.{is_apart, widen, key_range_of}

-- The table ends before all of the others start, or starts behind the end of all of them.
pub data Apart (others : List TableMeta) (t : TableMeta) : Type 0 where
  before :
      All (λ u. compare_bytes t.max_key.user_key u.min_key.user_key ≡ less) others → Apart others t
  behind :
      All (λ u. compare_bytes u.max_key.user_key t.min_key.user_key ≡ less) others → Apart others t

below_both :
    (x a m : List ℕ)
    → compare_bytes x (if is_less (compare_bytes m a) then m else a) ≡ less
    → (compare_bytes x a ≡ less) × (compare_bytes x m ≡ less)
below_both x a m h = elim (Bool-cases (is_less (compare_bytes m a))) [
  | inl e ↦
      let h' : compare_bytes x m ≡ less = rw e at h in
      (compare_bytes_trans x m a h' (ground (arith, e)), h')
  | inr e ↦
      let h' : compare_bytes x a ≡ less = rw e at h in
      (
        h',
        ground (
          arith,
          e,
          h',
          compare_bytes_trans x a m h',
          compare_bytes-eq m a,
          compare_bytes-flip m a,
        ),
      )
]

above_both :
    (x b m : List ℕ)
    → compare_bytes (if is_greater (compare_bytes m b) then m else b) x ≡ less
    → (compare_bytes b x ≡ less) × (compare_bytes m x ≡ less)
above_both x b m h = elim (Bool-cases (is_greater (compare_bytes m b))) [
  | inl e ↦
      let h' : compare_bytes m x ≡ less = rw e at h in
      (compare_bytes_trans b m x (ground (arith, e, compare_bytes-flip m b)) h', h')
  | inr e ↦
      let h' : compare_bytes b x ≡ less = rw e at h in
      (h', ground (arith, e, h', compare_bytes_trans m b x, compare_bytes-eq m b))
]

below_widen :
    (x : List ℕ) (ts : List TableMeta) (a b : List ℕ)
    → compare_bytes x (widen ts a b).0 ≡ less
    → (compare_bytes x a ≡ less) × All (λ u. compare_bytes x u.min_key.user_key ≡ less) ts
unfolding widen
below_widen x [] a b h = (h, tt)
below_widen x (t ∷ ts) a b h =
    let (h', all) = below_widen x ts _ _ h in
    let (below, here) = below_both x a t.min_key.user_key h' in (below, (here, all))

widen_below :
    (x : List ℕ) (ts : List TableMeta) (a b : List ℕ)
    → compare_bytes x a ≡ less
    → All (λ u. compare_bytes x u.min_key.user_key ≡ less) ts
    → compare_bytes x (widen ts a b).0 ≡ less
unfolding widen
widen_below x [] a b h all = h
widen_below x (t ∷ ts) a b h (here, all) = widen_below x ts _ _ (ground (arith, h, here)) all

above_widen :
    (x : List ℕ) (ts : List TableMeta) (a b : List ℕ)
    → compare_bytes (widen ts a b).1 x ≡ less
    → (compare_bytes b x ≡ less) × All (λ u. compare_bytes u.max_key.user_key x ≡ less) ts
unfolding widen
above_widen x [] a b h = (h, tt)
above_widen x (t ∷ ts) a b h =
    let (h', all) = above_widen x ts _ _ h in
    let (above, here) = above_both x b t.max_key.user_key h' in (above, (here, all))

widen_above :
    (x : List ℕ) (ts : List TableMeta) (a b : List ℕ)
    → compare_bytes b x ≡ less
    → All (λ u. compare_bytes u.max_key.user_key x ≡ less) ts
    → compare_bytes (widen ts a b).1 x ≡ less
unfolding widen
widen_above x [] a b h all = h
widen_above x (t ∷ ts) a b h (here, all) = widen_above x ts _ _ (ground (arith, h, here)) all

-- Being passed over means to be apart from the tables of the range.
pub is_apart-Apart :
    (others : List TableMeta) (t : TableMeta)
    → others ≢ []
    → is_apart t (key_range_of others).0 (key_range_of others).1 ≡ true
    → Apart others t
unfolding is_apart key_range_of
is_apart-Apart [] t ne e = absurd (ne refl)
is_apart-Apart (u ∷ us) t ne e =
    let range = widen us u.min_key.user_key u.max_key.user_key in
    elim (Bool-cases (is_less (compare_bytes t.max_key.user_key range.0))) [
      | inl h ↦
          let (here, all) =
            below_widen t.max_key.user_key us u.min_key.user_key u.max_key.user_key
              (ground (arith, h)) in
          Apart.before (here, all)
      | inr h ↦
          let greater_end : is_greater (compare_bytes t.min_key.user_key range.1) ≡ true =
            rw h at e in
          let (here, all) =
            above_widen t.min_key.user_key us u.min_key.user_key u.max_key.user_key
              (ground (arith, greater_end, compare_bytes-flip t.min_key.user_key range.1)) in
          Apart.behind (here, all)
    ]

pub Apart-is_apart :
    (others : List TableMeta) (t : TableMeta)
    → others ≢ []
    → Apart others t
    → is_apart t (key_range_of others).0 (key_range_of others).1 ≡ true
unfolding is_apart key_range_of
Apart-is_apart [] t ne a = absurd (ne refl)
Apart-is_apart (u ∷ us) t ne (Apart.before (here, all)) =
    ground (arith, widen_below t.max_key.user_key us _ u.max_key.user_key here all)
Apart-is_apart (u ∷ us) t ne (Apart.behind (here, all)) =
    let range = widen us u.min_key.user_key u.max_key.user_key in
    ground (
      arith,
      widen_above t.min_key.user_key us u.min_key.user_key _ here all,
      compare_bytes-flip range.1 t.min_key.user_key,
    )

-- A list in two parts, in the same order: the tables that are apart from others, and those that are
-- not.
pub data Split (others : List TableMeta)
    : List TableMeta → List TableMeta → List TableMeta → Type 0 where
  done : Split others [] [] []
  kept :
      {t : TableMeta} {ts left used : List TableMeta}
      → Apart others t
      → Split others ts left used
      → Split others (t ∷ ts) (t ∷ left) used
  taken :
      {t : TableMeta} {ts left used : List TableMeta}
      → ¬ Apart others t
      → Split others ts left used
      → Split others (t ∷ ts) left (t ∷ used)
