-- ===== src/Sstable/Reader.antt =====
-- reader.go: Get, its searches in the index and in a block, and readBlock.
pub mod Lookup
pub mod Table
pub mod Cached
use ascent_db.Prelude.{
  ◌==◌, ◌&&◌, ltb, is_less, leb, take, drop, Result, ok, err, ◌>>=◌, read_eof, ℕ, zero, suc, ◌+◌,
  ◌≤◌, ◌<◌, ◌≡◌, ◌≢◌, refl, ap, arith, List, [], ◌∷◌, length, get_elem?, All, map, Option, none,
  some, Bool, true, false, not, if◌then◌else◌, less, Bool-cases, inl, inr, Sign,
}
use ascent_db.Bytes.Compare.{equal_bytes}
use ascent_db.Record.{InternalKey, Record, compare}
use ascent_db.Sstable.Format.{IndexEntry, Filter}
use ascent_db.Sstable.Filter as Filter
use ascent_db.Sstable.Block.{decode_block}
use ascent_db.Record.Order.{compare_trans, compare-same_user_key}
use ascent_db.Sstable.Search.{search, TurnsAt, search-TurnsAt}

-- `keys[i].Compare(key) >= 0`; the search asks for indices in range only.
unfoldable pub at_least : InternalKey → List InternalKey → ℕ → Bool
at_least key keys i = elim (get_elem? keys i) [
  | none ↦ false
  | some k ↦ not (is_less (compare k key))
]

-- findBlock: the entry of the first block whose last key is not below the key.
unfoldable pub find_block : InternalKey → List IndexEntry → Option IndexEntry
find_block key entries =
    get_elem? entries (search (length entries) (at_least key (map (λ e. e.separator_key) entries)))

abbrev pub keys : List Record → List InternalKey
keys = map (λ r. r.internal_key)

-- The record at the index, if there is one and its user key is the one that is looked for.
unfoldable pub picked : InternalKey → Option Record → Option Record
picked key none = none
picked key (some r) = if equal_bytes r.user_key key.user_key then some r else none

-- The search of Get in a block.
unfoldable pub search_block : InternalKey → List Record → Option Record
search_block key entries =
    picked key (get_elem? entries (search (length entries) (at_least key (keys entries))))

-- readBlock of a reader that has no cache.
unfoldable pub read_block : List ℕ → IndexEntry → Result (List Record)
read_block file e =
    if leb (e.block_offset + e.block_size) (length file)
    then decode_block (take e.block_size (drop e.block_offset file))
    else if (e.block_size == 0) && ltb e.block_offset 0x8000_0000_0000_0000
    then decode_block []
    else err read_eof

-- Get from the block that findBlock returned.
unfoldable pub get_from : List ℕ → InternalKey → Option IndexEntry → Result (Option Record)
get_from file key none = ok none
get_from file key (some e) = do block ← read_block file e; ok (search_block key block)

unfoldable pub get : List ℕ → Filter → List IndexEntry → InternalKey → Result (Option Record)
get file filter index key = do
  in_filter ← Filter.contains key.user_key filter
  if in_filter then get_from file key (find_block key index) else ok none

-- The keys of a table come in the order of Compare.
unfoldable pub Sorted : List InternalKey → Type 0
Sorted [] = Unit {0}
Sorted (k ∷ ks) = All (λ k'. compare k k' ≡ less) ks × Sorted ks

-- How many keys are below the key.
unfoldable pub smaller : InternalKey → List InternalKey → ℕ
smaller key [] = 0
smaller key (k ∷ ks) = let rest = smaller key ks in if is_less (compare k key) then suc rest else 0

smaller-le : (key : InternalKey) (ks : List InternalKey) → smaller key ks ≤ length ks
unfolding smaller
smaller-le key [] = omega arith
smaller-le key (k ∷ ks) = ground (arith, smaller-le key ks)

-- Behind a key that is not below, none is.
behind :
    (key k : InternalKey) (ks : List InternalKey)
    → All (λ k'. compare k k' ≡ less) ks
    → is_less (compare k key) ≡ false
    → (i : ℕ) → i < length ks
    → at_least key ks i ≡ true
unfolding at_least
behind key k [] all h i n = absurd (omega arith)
behind key k (k' ∷ ks) (before, all) h zero n = ground (arith, compare_trans k k' key before)
behind key k (k' ∷ ks) (before, all) h (suc i) n = behind key k ks all h i (omega arith)

-- A key below in front moves the turn.
moved :
    (key k : InternalKey) (ks : List InternalKey) (p : ℕ)
    → is_less (compare k key) ≡ true
    → TurnsAt (at_least key ks) (length ks) p
    → TurnsAt (at_least key (k ∷ ks)) (suc (length ks)) (suc p)
unfolding at_least
moved key k ks p e t = record { below = below; above = above }
  where
    below : (i : ℕ) → i < suc p → at_least key (k ∷ ks) i ≡ false
    below zero h = rw e
    below (suc i) h = t.below i (omega arith)

    above : (i : ℕ) → suc p ≤ i → i < suc (length ks) → at_least key (k ∷ ks) i ≡ true
    above zero h n = absurd (omega arith)
    above (suc i) h n = t.above i (omega arith) (omega arith)

-- A key that is not below in front: the turn is at the start.
stays :
    (key k : InternalKey) (ks : List InternalKey)
    → All (λ k'. compare k k' ≡ less) ks
    → is_less (compare k key) ≡ false
    → TurnsAt (at_least key (k ∷ ks)) (suc (length ks)) 0
unfolding at_least
stays key k ks before e = record { below = λ i h. absurd (omega arith); above = above }
  where
    above : (i : ℕ) → 0 ≤ i → i < suc (length ks) → at_least key (k ∷ ks) i ≡ true
    above zero h n = rw e
    above (suc i) h n = behind key k ks before e i (omega arith)

at_least-TurnsAt :
    (key : InternalKey) (ks : List InternalKey)
    → Sorted ks
    → TurnsAt (at_least key ks) (length ks) (smaller key ks)
unfolding smaller Sorted
at_least-TurnsAt key [] s = record {
  below = λ k h. absurd (omega arith);
  above = λ k h n. absurd (omega arith);
}
at_least-TurnsAt key (k ∷ ks) (before, s) = elim (Bool-cases (is_less (compare k key))) [
  | inl e ↦ rw e (moved key k ks (smaller key ks) e (at_least-TurnsAt key ks s))
  | inr e ↦ rw e (stays key k ks before e)
]

-- Search finds the number of smaller keys.
pub search-smaller :
    (key : InternalKey) (ks : List InternalKey)
    → Sorted ks
    → search (length ks) (at_least key ks) ≡ smaller key ks
search-smaller key ks s =
    search-TurnsAt (at_least key ks) (length ks) (smaller key ks) (at_least-TurnsAt key ks s)
      (smaller-le key ks)
