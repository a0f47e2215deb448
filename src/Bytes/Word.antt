-- ===== src/Bytes/Word.antt =====
-- encoding/binary's LittleEndian: fixed-width integers as bytes, lowest first.
use ascent_db.Prelude.{
  ℕ, zero, suc, ◌+◌, ◌*◌, ◌/◌, ◌%◌, ◌^◌, ◌<◌, ◌≡◌, refl, ap, ◌∙◌, arith, List, [], ◌∷◌, length, All,
}
use native.Mathlib.Nat.{pow-suc}

abbrev pub IsByte : ℕ → Type 0
IsByte b = b < 256

abbrev pub IsU32 : ℕ → Type 0
IsU32 x = x < 2 ^ 32

abbrev pub IsU64 : ℕ → Type 0
IsU64 x = x < 2 ^ 64

-- Go's conversion `uint32(x)`.
abbrev pub u32 : ℕ → ℕ
u32 x = x % 2 ^ 32

abbrev pub u64 : ℕ → ℕ
u64 x = x % 2 ^ 64

-- The lowest `n` bytes of `x`.
unfoldable pub le_bytes : ℕ → ℕ → List ℕ
le_bytes zero x = []
le_bytes (suc n) x = (x % 256) ∷ le_bytes n (x / 256)

unfoldable pub of_le_bytes : List ℕ → ℕ
of_le_bytes [] = 0
of_le_bytes (b ∷ bs) = b + 256 * of_le_bytes bs

pub length-le_bytes : (n x : ℕ) → length (le_bytes n x) ≡ n
unfolding le_bytes
length-le_bytes zero x = refl
length-le_bytes (suc n) x = ap suc (length-le_bytes n (x / 256))

pub le_bytes-IsByte : (n x : ℕ) → All IsByte (le_bytes n x)
unfolding le_bytes
le_bytes-IsByte zero x = tt
le_bytes-IsByte (suc n) x = (omega arith, le_bytes-IsByte n (x / 256))

-- `n` bytes hold every number below 256 ^ n.
pub of_le_bytes-le_bytes : (n x : ℕ) → x < 256 ^ n → of_le_bytes (le_bytes n x) ≡ x
unfolding le_bytes of_le_bytes
of_le_bytes-le_bytes zero x h = omega arith
of_le_bytes-le_bytes (suc n) x h =
    omega (arith, of_le_bytes-le_bytes n (x / 256) (omega (arith, pow-suc 256 n)))

-- Reading back a uint32 that was written.
pub of_le_bytes-u32 : (x : ℕ) → IsU32 x → of_le_bytes (le_bytes 4 (u32 x)) ≡ x
of_le_bytes-u32 x h = of_le_bytes-le_bytes 4 (u32 x) (omega arith) ∙ omega arith

-- What `n` bytes spell is below 256 ^ n.
pub of_le_bytes-lt : (bs : List ℕ) → All IsByte bs → of_le_bytes bs < 256 ^ length bs
unfolding of_le_bytes
of_le_bytes-lt [] h = omega arith
of_le_bytes-lt (b ∷ bs) (hb, hbs) = omega (arith, of_le_bytes-lt bs hbs, pow-suc 256 (length bs))

-- Reading bytes and writing them again gives them back.
pub le_bytes-of_le_bytes :
    (bs : List ℕ) → All IsByte bs → le_bytes (length bs) (of_le_bytes bs) ≡ bs
unfolding le_bytes of_le_bytes
le_bytes-of_le_bytes [] h = refl
le_bytes-of_le_bytes (b ∷ bs) (hb, hbs) =
    let low : (b + 256 * of_le_bytes bs) % 256 ≡ b = omega arith in
    let high : (b + 256 * of_le_bytes bs) / 256 ≡ of_le_bytes bs = omega arith in
    rw (low, high) (ap (◌∷◌ b) (le_bytes-of_le_bytes bs hbs))
