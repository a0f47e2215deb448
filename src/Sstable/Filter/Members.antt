-- ===== src/Sstable/Filter/Members.antt =====
-- The filter has no false negatives: Contains is true of every key that was added.
use ascent_db.Prelude.{
  ℕ, zero, suc, ◌+◌, ◌*◌, ◌/◌, ◌/◌, ◌≤◌, ◌<◌, ◌≡◌, ◌≢◌, refl, arith, List, [], ◌∷◌, length, All,
  Bool, true, false, ◌==◌, if◌then◌else◌, Result, ok, ◌>>=◌, length-replicate, replicate,
}
use native.Mathlib.Nat.{mod-lt}
use ascent_db.Bytes.Word.{u32, IsByte, IsU32}
use ascent_db.Sstable.Format.{Filter}
use ascent_db.Sstable.Filter.{
  new_filter, hash1, hash2, probe, test_bit, add_loop, add, contains_loop, contains, IsFilter,
}
use ascent_db.Sstable.Filter.Bits.{set_bit_lem, test_bit_total}

-- No bit of the first is cleared in the second.
abbrev Keeps : List ℕ → List ℕ → Type 0
Keeps bits bits' = (j : ℕ) → test_bit bits j ≡ ok true → test_bit bits' j ≡ ok true

module _ (h1 h2 m : ℕ) where
  -- The bits of rounds `i` to `i + n - 1` are set.
  Marked : ℕ → ℕ → List ℕ → Type 0
  Marked zero i bits = Unit {0}
  Marked (suc n) i bits = (test_bit bits (probe h1 h2 m i) ≡ ok true) × Marked n (i + 1) bits

  Marked-Keeps :
      (n i : ℕ) (bits bits' : List ℕ) → Keeps bits bits' → Marked n i bits → Marked n i bits'
  unfolding Marked
  Marked-Keeps zero i bits bits' k h = tt
  Marked-Keeps (suc n) i bits bits' k (here, later) =
      (k _ here, Marked-Keeps n (i + 1) bits bits' k later)

  contains_loop-Marked :
      (n i : ℕ) (bits : List ℕ) → m ≢ 0 → Marked n i bits → contains_loop n i h1 h2 m bits ≡ ok true
  unfolding Marked contains_loop
  contains_loop-Marked zero i bits p h = refl
  contains_loop-Marked (suc n) i bits p (here, later) =
      ground (arith, here, contains_loop-Marked n (i + 1) bits p later)

  Marked-contains_loop :
      (n i : ℕ) (bits : List ℕ) → contains_loop n i h1 h2 m bits ≡ ok true → Marked n i bits
  unfolding Marked contains_loop
  Marked-contains_loop zero i bits h = tt
  Marked-contains_loop (suc n) i bits h =
      let step : (test_bit bits (probe h1 h2 m i) ≡ ok true)
          × (contains_loop n (i + 1) h1 h2 m bits ≡ ok true) =
        ground arith in
      (step.0, Marked-contains_loop n (i + 1) bits step.1)

  probe-lt : (i : ℕ) → 0 < m → probe h1 h2 m i < m
  unfolding probe
  probe-lt i h = mod-lt _ h

  add_loop_lem :
      (n i : ℕ) (bits : List ℕ)
      → 0 < m
      → m ≤ 8 * length bits
      → All IsByte bits
      → (bits' : List ℕ) × (add_loop n i h1 h2 m bits ≡ ok bits')
        × (length bits' ≡ length bits)
        × All IsByte bits'
        × Marked n i bits'
        × Keeps bits bits'
  unfolding Marked add_loop
  add_loop_lem zero i bits p c b = (bits, refl, refl, b, tt, λ j h. h)
  add_loop_lem (suc n) i bits p c b =
      let (bits1, stored, len1, b1, has, keep) =
        set_bit_lem bits (probe h1 h2 m i) b (omega (arith, probe-lt i p)) in
      let (bits2, rest, len2, b2, marks, keep2) = add_loop_lem n (i + 1) bits1 p (omega arith) b1 in
      (
        bits2,
        ground (arith, stored, rest),
        omega arith,
        b2,
        (keep2 _ has, marks),
        λ j h. keep2 j (keep j h),
      )

-- Add of one key: it succeeds, the key is found afterwards, and so is every key that was found
-- before.
pub add_lem :
    (key : List ℕ) (f : Filter)
    → IsFilter f
    → (f' : Filter) × (add key f ≡ ok f')
      × IsFilter f'
      × (contains key f' ≡ ok true)
      × ((other : List ℕ) → contains other f ≡ ok true → contains other f' ≡ ok true)
unfolding add contains
add_lem key f h =
    let (bits, stored, len, bytes, marks, keep) =
      add_loop_lem (hash1 key) (hash2 key) f.m f.k 0 f.bits h.some_bits h.covered h.bytes in
    let nonzero : f.m ≢ 0 = omega (arith, h.some_bits) in
    (
      record f { bits = bits },
      rw (stored),
      record { some_bits = h.some_bits; covered = omega (arith, h.covered); bytes = bytes },
      contains_loop-Marked (hash1 key) (hash2 key) f.m f.k 0 bits nonzero marks,
      λ other found. contains_loop-Marked (hash1 other) (hash2 other) f.m f.k 0 bits nonzero (
          Marked-Keeps (hash1 other) (hash2 other) f.m f.k 0 f.bits bits keep
            (Marked-contains_loop (hash1 other) (hash2 other) f.m f.k 0 f.bits found)),
    )

-- Contains of a filter whose bits are all there does not panic.
contains_loop_total :
    (n i h1 h2 m : ℕ) (bits : List ℕ)
    → 0 < m
    → m ≤ 8 * length bits
    → (t : Bool) × (contains_loop n i h1 h2 m bits ≡ ok t)
unfolding contains_loop
contains_loop_total zero i h1 h2 m bits p c = (true, refl)
contains_loop_total (suc n) i h1 h2 m bits p c =
    let (t, e) = test_bit_total bits (probe h1 h2 m i) (omega (arith, probe-lt h1 h2 m i p)) in
    let (rest, e') = contains_loop_total n (i + 1) h1 h2 m bits p c in
    let nonzero : (m == 0) ≡ false = ground arith in
    (if t then rest else false, rw (nonzero, e, e') (picked t rest))
  where
    picked : (t rest : Bool) → (if t then ok rest else ok false) ≡ ok (if t then rest else false)
    picked true rest = refl
    picked false rest = refl

pub contains_total : (key : List ℕ) (f : Filter) → IsFilter f → (t : Bool) × (contains key f ≡ ok t)
unfolding contains
contains_total key f h =
    contains_loop_total f.k 0 (hash1 key) (hash2 key) f.m f.bits h.some_bits h.covered

-- The Adds of a table's keys, in order.
pub add_all : List (List ℕ) → Filter → Result Filter
add_all [] f = ok f
add_all (key ∷ keys) f = do f' ← add key f; add_all keys f'

add_all_lem :
    (keys : List (List ℕ)) (f : Filter)
    → IsFilter f
    → (f' : Filter) × (add_all keys f ≡ ok f')
      × IsFilter f'
      × All (λ key. contains key f' ≡ ok true) keys
      × ((other : List ℕ) → contains other f ≡ ok true → contains other f' ≡ ok true)
unfolding add_all
add_all_lem [] f h = (f, refl, h, tt, λ other found. found)
add_all_lem (key ∷ keys) f h =
    let (f1, added, valid, here, keep) = add_lem key f h in
    let (f2, rest, fine, found, keep2) = add_all_lem keys f1 valid in
    (f2, rw added rest, fine, (keep2 key here, found), λ other h. keep2 other (keep other h))

-- A filter with at least one bit, as NewFilter makes it, has all its bits in its bytes.
pub new_filter-IsFilter : (m k : ℕ) → 0 < m → IsU32 (m + 7) → IsFilter (new_filter m k)
unfolding new_filter
new_filter-IsFilter m k h fits = record {
  some_bits = h;
  covered = omega (arith, length-replicate {A = ℕ} (u32 (m + 7) / 8) 0);
  bytes = zeros (u32 (m + 7) / 8);
}
  where
    zeros : (n : ℕ) → All IsByte (replicate n 0)
    zeros zero = tt
    zeros (suc n) = (omega arith, zeros n)

-- On a new filter with at least one bit, and with few enough that their number and 7 fit a uint32,
-- the Adds of any keys never panic. Behind them Contains panics for no key at all, and is true of
-- every key that was added.
pub contains-add_all :
    (m k : ℕ) (keys : List (List ℕ))
    → 0 < m
    → IsU32 (m + 7)
    → (f : Filter) × (add_all keys (new_filter m k) ≡ ok f)
      × All (λ key. contains key f ≡ ok true) keys
      × ((key : List ℕ) → (t : Bool) × (contains key f ≡ ok t))
contains-add_all m k keys h fits =
    let (f, added, fine, found, keep) =
      add_all_lem keys (new_filter m k) (new_filter-IsFilter m k h fits) in
    (f, added, found, λ key. contains_total key f fine)
