-- ===== src/Sstable/Filter/Bits.antt =====
-- Setting a bit of a byte slice, and testing it.
use Prim.Native.Nat.{bit_and, bit_or}
use ascent_db.Prelude.{
  ℕ, zero, suc, ◌*◌, ◌/◌, ◌%◌, ◌^◌, ◌<◌, ◌≡◌, ◌≢◌, refl, arith, List, [], ◌∷◌, length, All,
  get_elem?, set, some, Bool, true, not, ◌==◌, ltb, ◌&&◌, ◌||◌, ok, length-set,
}
use ascent_db.Bytes.Word.{IsByte}
use ascent_db.Sstable.Filter.{set_bit, test_bit}

-- A test at every number below the bound, and what it tells of one of them.
checked_to : (ℕ → Bool) → ℕ → Bool
checked_to test zero = true
checked_to test (suc bound) = checked_to test bound && test bound

checked_at :
    (test : ℕ → Bool) (bound i : ℕ) → i < bound → checked_to test bound ≡ true → test i ≡ true
unfolding checked_to
checked_at test zero i lt passed = elim lt [ ]
checked_at test (suc bound) i lt passed = ground (arith, checked_at test bound i)

-- With bit `s` set the byte `b` stays a byte, has bit `s`, and keeps each bit `t` that it had.
byte_test : ℕ → ℕ → ℕ → Bool
byte_test b s t =
    ltb (bit_or b (2 ^ s)) 256
    && (not (bit_and (bit_or b (2 ^ s)) (2 ^ s) == 0)
        && ((bit_and b (2 ^ t) == 0) || not (bit_and (bit_or b (2 ^ s)) (2 ^ t) == 0)))

byte_table : checked_to (λ b. checked_to (λ s. checked_to (byte_test b s) 8) 8) 256 ≡ true
unfolding checked_to byte_test
byte_table = refl

byte_facts :
    (b s t : ℕ)
    → b < 256
    → s < 8
    → t < 8
    → (bit_or b (2 ^ s) < 256)
      × (bit_and (bit_or b (2 ^ s)) (2 ^ s) ≢ 0)
      × (bit_and b (2 ^ t) ≢ 0 → bit_and (bit_or b (2 ^ s)) (2 ^ t) ≢ 0)
unfolding byte_test
byte_facts b s t hb hs ht =
    let row = checked_at _ 256 b hb byte_table in
    let cell = checked_at _ 8 s hs row in
    let e : byte_test b s t ≡ true = checked_at _ 8 t ht cell in ground (arith, e)

get_elem?-IsByte : (bits : List ℕ) (j b : ℕ) → All IsByte bits → get_elem? bits j ≡ some b → b < 256
get_elem?-IsByte [] j b h e = cc
get_elem?-IsByte (x ∷ bits) zero b h e = ground arith
get_elem?-IsByte (x ∷ bits) (suc j) b h e = get_elem?-IsByte bits j b h.1 e

set-IsByte : (bits : List ℕ) (j v : ℕ) → All IsByte bits → v < 256 → All IsByte (set bits j v)
set-IsByte [] j v h hv = tt
set-IsByte (x ∷ bits) zero v h hv = (hv, h.1)
set-IsByte (x ∷ bits) (suc j) v h hv = (h.0, set-IsByte bits j v h.1 hv)

get_elem?-in_range :
    (bits : List ℕ) (j : ℕ) → j < length bits → (b : ℕ) × (get_elem? bits j ≡ some b)
get_elem?-in_range [] j h = elim h [ ]
get_elem?-in_range (x ∷ bits) zero h = (x, refl)
get_elem?-in_range (x ∷ bits) (suc j) h = get_elem?-in_range bits j (omega arith)

get_elem?-set_self :
    (bits : List ℕ) (i v : ℕ) → i < length bits → get_elem? (set bits i v) i ≡ some v
get_elem?-set_self [] i v h = elim h [ ]
get_elem?-set_self (x ∷ bits) zero v h = refl
get_elem?-set_self (x ∷ bits) (suc i) v h = get_elem?-set_self bits i v (omega arith)

get_elem?-set_ne :
    (bits : List ℕ) (i j v : ℕ) → i ≢ j → get_elem? (set bits i v) j ≡ get_elem? bits j
get_elem?-set_ne [] i j v h = refl
get_elem?-set_ne (x ∷ bits) zero zero v h = absurd (h refl)
get_elem?-set_ne (x ∷ bits) zero (suc j) v h = refl
get_elem?-set_ne (x ∷ bits) (suc i) zero v h = refl
get_elem?-set_ne (x ∷ bits) (suc i) (suc j) v h = get_elem?-set_ne bits i j v (omega arith)

module _ (bits : List ℕ) (idx b : ℕ) (hb : All IsByte bits) (lt : idx / 8 < length bits)
    (e : get_elem? bits (idx / 8) ≡ some b) where
  marked : List ℕ
  marked = set bits (idx / 8) (bit_or b (2 ^ (idx % 8)))

  marked_facts :
      (t : ℕ)
      → (bit_or b (2 ^ (idx % 8)) < 256)
        × (bit_and (bit_or b (2 ^ (idx % 8))) (2 ^ (idx % 8)) ≢ 0)
        × (bit_and b (2 ^ (t % 8)) ≢ 0 → bit_and (bit_or b (2 ^ (idx % 8))) (2 ^ (t % 8)) ≢ 0)
  marked_facts t =
      byte_facts b (idx % 8) (t % 8) (get_elem?-IsByte bits (idx / 8) b hb e) (omega arith)
        (omega arith)

  marked-has : test_bit marked idx ≡ ok true
  unfolding test_bit marked
  marked-has =
      ground
        (arith, get_elem?-set_self bits (idx / 8) (bit_or b (2 ^ (idx % 8))) lt, (marked_facts 0).1)

  marked_keeps : (j : ℕ) → test_bit bits j ≡ ok true → test_bit marked j ≡ ok true
  unfolding test_bit marked
  marked_keeps j h = ground (
    arith,
    get_elem?-set_self bits (idx / 8) (bit_or b (2 ^ (idx % 8))) lt,
    get_elem?-set_ne bits (idx / 8) (j / 8) (bit_or b (2 ^ (idx % 8))),
    (marked_facts j).2,
  )

-- What `f.bits[idx/8] |= 1 << (idx%8)` does to an index in range.
pub set_bit_lem :
    (bits : List ℕ) (idx : ℕ)
    → All IsByte bits
    → idx < 8 * length bits
    → (bits' : List ℕ) × (set_bit bits idx ≡ ok bits')
      × (length bits' ≡ length bits)
      × All IsByte bits'
      × (test_bit bits' idx ≡ ok true)
      × ((j : ℕ) → test_bit bits j ≡ ok true → test_bit bits' j ≡ ok true)
unfolding set_bit marked
set_bit_lem bits idx hb lt =
    let in_range : idx / 8 < length bits = omega arith in
    let (b, e) = get_elem?-in_range bits (idx / 8) in_range in
    (
      marked bits idx b hb in_range e,
      rw (e, set_bit),
      length-set bits (idx / 8) _,
      set-IsByte bits (idx / 8) _ hb (marked_facts bits idx b hb in_range e 0).0,
      marked-has bits idx b hb in_range e,
      marked_keeps bits idx b hb in_range e,
    )

-- A test in range does not panic.
pub test_bit_total :
    (bits : List ℕ) (idx : ℕ) → idx < 8 * length bits → (t : Bool) × (test_bit bits idx ≡ ok t)
unfolding test_bit
test_bit_total bits idx lt =
    let (b, e) = get_elem?-in_range bits (idx / 8) (omega arith) in
    (not (bit_and b (2 ^ (idx % 8)) == 0), rw (e, test_bit))
