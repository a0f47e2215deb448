-- ===== src/Sstable/Filter.antt =====
-- filter.go: the Bloom filter of a table. The number of bits and of hash functions that NewFilter
-- computes in floating point are arguments here.
pub mod Bits
pub mod Members
use Prim.Native.Nat.{bit_and, bit_or}
use ascent_db.Prelude.{
  ℕ, zero, suc, ◌+◌, ◌*◌, ◌/◌, ◌%◌, ◌^◌, ◌≤◌, ◌<◌, List, [], ◌∷◌, ◌++◌, length, All, get_elem?, set,
  replicate, Option, none, some, Bool, true, false, not, ◌==◌, if◌then◌else◌, Result, ok, panic,
  ◌>>=◌, ◌>>◌, demand,
}
use ascent_db.Bytes.Word.{u32, u64, IsByte}
use ascent_db.Bytes.Checksum.{fnv64a}
use ascent_db.Sstable.Format.{Filter}

-- NewFilter, from the rounded float results on.
unfoldable pub new_filter : ℕ → ℕ → Filter
new_filter m k = record { bits = replicate (u32 (m + 7) / 8) 0; m = m; k = if k == 0 then 1 else k }

unfoldable pub hash1 : List ℕ → ℕ
hash1 key = fnv64a key

unfoldable pub hash2 : List ℕ → ℕ
hash2 key = fnv64a (key ++ (0xde ∷ 0xad ∷ 0xbe ∷ 0xef ∷ []))

-- `(h1 + i*h2) % uint64(f.m)`
unfoldable pub probe : ℕ → ℕ → ℕ → ℕ → ℕ
probe h1 h2 m i = u64 (h1 + u64 (i * h2)) % m

-- `f.bits[idx/8] |= 1 << (idx % 8)`
unfoldable pub set_bit : List ℕ → ℕ → Result (List ℕ)
set_bit bits idx = elim (get_elem? bits (idx / 8)) [
  | none ↦ panic
  | some b ↦ ok (set bits (idx / 8) (bit_or b (2 ^ (idx % 8))))
]

-- `f.bits[idx/8]&(1<<(idx%8)) != 0`
unfoldable pub test_bit : List ℕ → ℕ → Result Bool
test_bit bits idx = elim (get_elem? bits (idx / 8)) [
  | none ↦ panic
  | some b ↦ ok (not (bit_and b (2 ^ (idx % 8)) == 0))
]

-- The loop of Add: `n` rounds from `i` on. A zero `m` is a division by zero.
unfoldable pub add_loop : ℕ → ℕ → ℕ → ℕ → ℕ → List ℕ → Result (List ℕ)
unfolding probe
add_loop zero i h1 h2 m bits = ok bits
add_loop (suc n) i h1 h2 m bits = do
  demand (not (m == 0))
  bits' ← set_bit bits (probe h1 h2 m i)
  add_loop n (i + 1) h1 h2 m bits'

unfoldable pub add : List ℕ → Filter → Result Filter
unfolding hash1 hash2
add key f = do
  bits ← add_loop f.k 0 (hash1 key) (hash2 key) f.m f.bits
  ok (record f { bits = bits })

-- The loop of Contains, which stops at the first bit that is not set.
unfoldable pub contains_loop : ℕ → ℕ → ℕ → ℕ → ℕ → List ℕ → Result Bool
unfolding probe
contains_loop zero i h1 h2 m bits = ok true
contains_loop (suc n) i h1 h2 m bits = do
  demand (not (m == 0))
  marked ← test_bit bits (probe h1 h2 m i)
  let rest = contains_loop n (i + 1) h1 h2 m bits
  if marked then rest else ok false

unfoldable pub contains : List ℕ → Filter → Result Bool
unfolding hash1 hash2
contains key f = contains_loop f.k 0 (hash1 key) (hash2 key) f.m f.bits

-- Every index below `m` has its byte.
pub record IsFilter (f : Filter) : Type 0 where
  pub some_bits : 0 < f.m
  pub covered : f.m ≤ 8 * length f.bits
  pub bytes : All IsByte f.bits
