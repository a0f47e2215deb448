-- ===== src/Meta/Overlap.antt =====
-- FindOverlapping and KeyRangeOf.
pub mod Apart
use ascent_db.Prelude.{
  is_less, is_greater, ℕ, ◌≡◌, ◌≢◌, refl, arith, List, [], ◌∷◌, All, Bool, false, ◌||◌,
  if◌then◌else◌, greater, ◌↔◌, Bool-cases, inl, inr,
}
use mathlib.Core.List.{Memᴰ}
use mathlib.Core.List.Memᴰ as Memᴰ
use ascent_db.Bytes.Compare.{
  compare_bytes, compare_bytes_refl, compare_bytes-eq, compare_bytes-flip, compare_bytes_trans,
}
use ascent_db.Meta.{TableMeta}

-- The test that passes a table over.
unfoldable pub is_apart : TableMeta → List ℕ → List ℕ → Bool
is_apart t min_key max_key =
    is_less (compare_bytes t.max_key.user_key min_key)
    || is_greater (compare_bytes t.min_key.user_key max_key)

unfoldable pub find_overlapping : List TableMeta → List ℕ → List ℕ → List TableMeta
unfolding is_apart
find_overlapping [] min_key max_key = []
find_overlapping (t ∷ ts) min_key max_key =
    let out = find_overlapping ts min_key max_key in
    if is_apart t min_key max_key then out else t ∷ out

-- The loop of KeyRangeOf over the tables behind the first.
unfoldable pub widen : List TableMeta → List ℕ → List ℕ → List ℕ × List ℕ
widen [] min_key max_key = (min_key, max_key)
widen (t ∷ ts) min_key max_key =
    widen ts
      (if is_less (compare_bytes t.min_key.user_key min_key) then t.min_key.user_key else min_key)
      (if is_greater (compare_bytes t.max_key.user_key max_key)
        then t.max_key.user_key
        else max_key)

unfoldable pub key_range_of : List TableMeta → List ℕ × List ℕ
unfolding widen
key_range_of [] = ([], [])
key_range_of (t ∷ ts) = widen ts t.min_key.user_key t.max_key.user_key

-- `a ≤ b` in the order of bytes.Compare.
pub data AtMost (a b : List ℕ) : Type 0 where
  at_most : compare_bytes a b ≢ greater → AtMost a b

AtMost-refl : (a : List ℕ) → AtMost a a
AtMost-refl a = at_most (λ q. cc (compare_bytes_refl a))

AtMost-trans : {a b c : List ℕ} → AtMost a b → AtMost b c → AtMost a c
AtMost-trans {a} {b} {c} (at_most p) (at_most q) = at_most (λ r.
    ground (arith, compare_bytes_trans a b c, compare_bytes-eq a b, compare_bytes-eq b c, r, p, q))

-- A table whose key range meets the range that is asked for.
pub record Overlaps (min_key max_key : List ℕ) (t : TableMeta) : Type 0 where
  pub reaches : AtMost min_key t.max_key.user_key
  pub starts : AtMost t.min_key.user_key max_key

is_apart-Overlaps :
    (t : TableMeta) (min_key max_key : List ℕ)
    → (is_apart t min_key max_key ≡ false) ↔ Overlaps min_key max_key t
unfolding is_apart
is_apart-Overlaps t min_key max_key = (sound, complete)
  where
    sound : is_apart t min_key max_key ≡ false → Overlaps min_key max_key t
    sound h = record {
      reaches = at_most (λ q. ground (arith, compare_bytes-flip min_key t.max_key.user_key, h, q));
      starts = at_most (λ q. ground (arith, h, q));
    }

    complete : Overlaps min_key max_key t → is_apart t min_key max_key ≡ false
    complete o = from o.reaches o.starts
      where
        from :
            AtMost min_key t.max_key.user_key
            → AtMost t.min_key.user_key max_key
            → is_apart t min_key max_key ≡ false
        from (at_most p) (at_most q) =
            ground (arith, compare_bytes-flip min_key t.max_key.user_key, p, q)

found :
    (t : TableMeta) (ts : List TableMeta) (min_key max_key : List ℕ)
    → Memᴰ t (find_overlapping ts min_key max_key)
    → Memᴰ t ts × Overlaps min_key max_key t
unfolding find_overlapping
found t [] min_key max_key m = absurd (Memᴰ.not-nil m)
found t (u ∷ ts) min_key max_key m = elim (Bool-cases (is_apart u min_key max_key)) [
  | inl e ↦ let (m', o) = found t ts min_key max_key (rw e at m) in (Memᴰ.tail m', o)
  | inr e ↦ elim (Memᴰ.cases_cons (rw e at m)) [
    | inl p ↦ (Memᴰ.head p, rw p ((is_apart-Overlaps u min_key max_key).0 e))
    | inr m' ↦ let (m'', o) = found t ts min_key max_key m' in (Memᴰ.tail m'', o)
  ]
]

kept :
    (t : TableMeta) (ts : List TableMeta) (min_key max_key : List ℕ)
    → Memᴰ t ts
    → Overlaps min_key max_key t
    → Memᴰ t (find_overlapping ts min_key max_key)
unfolding find_overlapping
kept t [] min_key max_key m o = absurd (Memᴰ.not-nil m)
kept t (u ∷ ts) min_key max_key (Memᴰ.head p) o =
    rw (← p, (is_apart-Overlaps t min_key max_key).1 o) (Memᴰ.head refl)
kept t (u ∷ ts) min_key max_key (Memᴰ.tail m) o = elim (Bool-cases (is_apart u min_key max_key)) [
  | inl e ↦ rw e (kept t ts min_key max_key m o)
  | inr e ↦ rw e (Memᴰ.tail (kept t ts min_key max_key m o))
]

-- FindOverlapping returns exactly the tables whose key range, ends included, meets the given range.
pub find_overlapping_iff :
    (t : TableMeta) (ts : List TableMeta) (min_key max_key : List ℕ)
    → Memᴰ t (find_overlapping ts min_key max_key) ↔ (Memᴰ t ts × Overlaps min_key max_key t)
find_overlapping_iff t ts min_key max_key =
    (found t ts min_key max_key, λ (m, o). kept t ts min_key max_key m o)

-- The range covers the keys of a table.
pub record Covers (range : List ℕ × List ℕ) (t : TableMeta) : Type 0 where
  pub from : AtMost range.0 t.min_key.user_key
  pub to : AtMost t.max_key.user_key range.1

-- What one table does to the range.
lower : (t : TableMeta) (a : List ℕ) → List ℕ
lower t a = if is_less (compare_bytes t.min_key.user_key a) then t.min_key.user_key else a

lower-AtMost :
    (t : TableMeta) (a : List ℕ) → AtMost (lower t a) a × AtMost (lower t a) t.min_key.user_key
unfolding lower
lower-AtMost t a = (
  at_most (λ q. ground (arith, compare_bytes_refl a, q)),
  at_most (λ q.
      ground
        (arith, compare_bytes_refl t.min_key.user_key, compare_bytes-flip a t.min_key.user_key, q)),
)

upper : (t : TableMeta) (a : List ℕ) → List ℕ
upper t a = if is_greater (compare_bytes t.max_key.user_key a) then t.max_key.user_key else a

upper-AtMost :
    (t : TableMeta) (a : List ℕ) → AtMost a (upper t a) × AtMost t.max_key.user_key (upper t a)
unfolding upper
upper-AtMost t a = (
  at_most (λ q. ground (arith, compare_bytes_refl a, compare_bytes-flip a t.max_key.user_key, q)),
  at_most (λ q. ground (arith, compare_bytes_refl t.max_key.user_key, q)),
)

widen-Covers :
    (ts : List TableMeta) (lo hi : List ℕ)
    → AtMost (widen ts lo hi).0 lo × AtMost hi (widen ts lo hi).1 × All (Covers (widen ts lo hi)) ts
unfolding widen lower upper
widen-Covers [] lo hi = (AtMost-refl lo, AtMost-refl hi, tt)
widen-Covers (t ∷ ts) lo hi =
    let (a, b, cs) = widen-Covers ts (lower t lo) (upper t hi) in
    let (l, l') = lower-AtMost t lo in
    let (u, u') = upper-AtMost t hi in
    (
      AtMost-trans a l,
      AtMost-trans u b,
      (record { from = AtMost-trans a l'; to = AtMost-trans u' b }, cs),
    )

-- The range that KeyRangeOf returns covers every table of the list.
pub key_range_of-Covers : (ts : List TableMeta) → All (Covers (key_range_of ts)) ts
unfolding key_range_of
key_range_of-Covers [] = tt
key_range_of-Covers (t ∷ ts) =
    let (a, b, cs) = widen-Covers ts t.min_key.user_key t.max_key.user_key in
    (record { from = a; to = b }, cs)
