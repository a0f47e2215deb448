-- ===== src/Meta/Uvarint.antt =====
-- encoding/binary's PutUvarint and ReadUvarint.
use ascent_db.Prelude.{
  ℕ, zero, suc, ◌+◌, ◌*◌, ◌/◌, ◌%◌, ◌^◌, ◌≤◌, ◌<◌, ◌≡◌, ◌∙◌, refl, arith, List, [], ◌∷◌, ◌++◌,
  length, length-append, append_assoc, Option, none, some, get_elem?, ltb, ◌==◌, ◌&&◌,
  if◌then◌else◌, Bool-cases, inl, inr, ltb→lt, ok, Error, read_eof, read_unexpected_eof,
  varint_overflow,
}
use native.Mathlib.Nat.{pow-suc}
use ascent_db.Bytes.Word.{u64, IsU64}
use ascent_db.Bytes.Reader.{Read, Reads}

-- Seven bits a byte, lowest first, with the top bit set on all bytes but the last; `n` more bytes
-- may follow the first.
unfoldable pub uvarint_bytes : ℕ → ℕ → List ℕ
uvarint_bytes zero x = (x % 256) ∷ []
uvarint_bytes (suc n) x =
    let rest = uvarint_bytes n (x / 128) in if ltb x 128 then x ∷ [] else (x % 128 + 128) ∷ rest

-- PutUvarint into a buffer of MaxVarintLen64 bytes.
unfoldable pub put_uvarint : ℕ → List ℕ
put_uvarint x = uvarint_bytes 9 x

-- ReadUvarint with `n` rounds left: the value so far is `x`, and the next group counts `w`. The
-- result is a value with an error or none, as in Go, where the value is there in both cases.
unfoldable pub uvarint_loop : ℕ → Error → ℕ → ℕ → Read (ℕ × Option Error)
uvarint_loop zero at_end x w b off = ok ((x, some varint_overflow), off)
uvarint_loop (suc n) at_end x w b off = elim (get_elem? b off) [
  | none ↦ ok ((x, some at_end), off)
  | some c ↦
      let more = uvarint_loop n read_unexpected_eof (u64 (x + c % 128 * w)) (w * 128) b (off + 1) in
      if ltb c 128
      then if n == 0 && ltb 1 c
        then ok ((x, some varint_overflow), off + 1)
        else ok ((u64 (x + c * w), none), off + 1)
      else more
]

unfoldable pub read_uvarint : Read (ℕ × Option Error)
read_uvarint = uvarint_loop 10 read_eof 0 1

get_elem?-append :
    (front : List ℕ) (c : ℕ) (rest : List ℕ)
    → get_elem? (front ++ (c ∷ rest)) (length front) ≡ some c
get_elem?-append [] c rest = refl
get_elem?-append (x ∷ front) c rest = get_elem?-append front c rest

-- The last byte of a number, and an inner byte.
last_byte :
    (n c x w : ℕ) (e : Error) (front rest : List ℕ)
    → c < 128
    → (n ≡ 0 → c ≤ 1)
    → IsU64 (x + c * w)
    → uvarint_loop (suc n) e x w (front ++ (c ∷ rest)) (length front)
      ≡ ok ((x + c * w, none), length front + 1)
unfolding uvarint_loop
last_byte n c x w e front rest h top fits = ground (arith, get_elem?-append front c rest)

inner_byte :
    (n g x w : ℕ) (e : Error) (front rest : List ℕ)
    → g < 128
    → IsU64 (x + g * w)
    → uvarint_loop (suc n) e x w (front ++ ((g + 128) ∷ rest)) (length front)
      ≡ uvarint_loop n read_unexpected_eof
          (x + g * w)
          (w * 128)
          (front ++ ((g + 128) ∷ rest))
          (length front + 1)
unfolding uvarint_loop
inner_byte n g x w e front rest h fits =
    let low : (g + 128) % 128 ≡ g = omega arith in
    ground (arith, get_elem?-append front (g + 128) rest, low)

weigh : (g q w v : ℕ) → v ≡ 128 * q + g → g * w + q * (w * 128) ≡ v * w
weigh g q w v e = rw e (omega arith)

-- Groups with `n` more to come weigh `w`, and the last of ten has one bit.
uvarint_bytes-loop :
    (n v x w : ℕ) (e : Error) (front rest : List ℕ)
    → v < 128 ^ n * 2
    → IsU64 (x + v * w)
    → uvarint_loop (suc n) e x w (front ++ (uvarint_bytes n v ++ rest)) (length front)
      ≡ ok ((x + v * w, none), length (front ++ uvarint_bytes n v))
unfolding uvarint_bytes
uvarint_bytes-loop zero v x w e front rest h fits =
    let low : v % 256 ≡ v = omega arith in
    rw (low, length-append front (v ∷ []))
      (last_byte 0 v x w e front rest (omega arith) (λ z. omega arith) fits)
uvarint_bytes-loop (suc n) v x w e front rest h fits = elim (Bool-cases (ltb v 128)) [
  | inl s ↦
      rw (s, length-append front (v ∷ []))
        (last_byte (suc n) v x w e front rest (ltb→lt v 128 s) (λ z. absurd (omega arith)) fits)
  | inr s ↦
      let split : v % 128 * w + v / 128 * (w * 128) ≡ v * w =
        weigh (v % 128) (v / 128) w v (omega arith) in
      let c : ℕ = v % 128 + 128 in
      let more : List ℕ = uvarint_bytes n (v / 128) in
      let sum : x + v % 128 * w + v / 128 * (w * 128) ≡ x + v * w = omega (arith, split) in
      let later : uvarint_loop (suc n) read_unexpected_eof (x + v % 128 * w) (w * 128)
            ((front ++ (c ∷ [])) ++ (more ++ rest)) (length (front ++ (c ∷ [])))
          ≡ ok (
            (x + v % 128 * w + v / 128 * (w * 128), none),
            length ((front ++ (c ∷ [])) ++ more),
          ) =
        uvarint_bytes-loop n (v / 128) (x + v % 128 * w) (w * 128) read_unexpected_eof
          (front ++ (c ∷ [])) rest (omega (arith, pow-suc 128 n)) (omega (arith, sum)) in
      rw s (
        inner_byte (suc n) (v % 128) x w e front (more ++ rest) (omega arith) (omega (arith, split))
        ∙ rw (← append_assoc front (c ∷ []) (more ++ rest), ← append_assoc front (c ∷ []) more)
            (rw (sum, length-append front (c ∷ [])) at later))
]

-- ReadUvarint reads what PutUvarint wrote, for every uint64.
pub read_uvarint-Reads : (v : ℕ) → IsU64 v → Reads read_uvarint (put_uvarint v) (v, none)
unfolding read_uvarint put_uvarint
read_uvarint-Reads v h = record {
  run = λ front rest.
      let e : 0 + v * 1 ≡ v = omega arith in
      rw e at (uvarint_bytes-loop 9 v 0 1 read_eof front rest (omega arith) (omega arith));
}

pub put_uvarint-nonempty : (x : ℕ) → 0 < length (put_uvarint x)
unfolding put_uvarint uvarint_bytes
put_uvarint-nonempty x = ground arith
