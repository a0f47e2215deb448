-- ===== src/Bytes/Reader.antt =====
-- Reading a slice at an offset that moves: `x := binary.LittleEndian.Uint32(b[off:]); off += 4`.
use ascent_db.Prelude.{
  ℕ, zero, suc, ◌+◌, ◌-◌, ◌≤◌, ◌<◌, ◌^◌, ◌%◌, ◌≡◌, ◌≢◌, ◌∙◌, refl, sym, ap, arith, List, [], ◌∷◌,
  ◌++◌, length, drop, take, append_assoc, length-append, drop-append, take-append, leb, ltb, le→leb,
  le→ltb, if◌then◌else◌, Result, ok, err, panic, reject, demand, Error,
}
use ascent_db.Prelude
use ascent_db.Bytes.Word.{
  u32, u64, le_bytes, of_le_bytes, length-le_bytes, of_le_bytes-le_bytes, IsByte, IsU32, IsU64,
}

-- The slice stays; the offset is the state.
abbrev pub Read : Type 0 → Type 0
Read A = List ℕ → ℕ → Result (A × ℕ)

abbrev pub return : {A : Type 0} → A → Read A
return a b off = ok (a, off)

-- What follows a read runs on the same slice, at the new offset.
abbrev pub resume : {A B : Type 0} → Result (A × ℕ) → (A → ℕ → Result (B × ℕ)) → Result (B × ℕ)
resume (ok (a, off)) k = k a off
resume (err e) k = err e
resume panic k = panic

infixl 5 ◌>>=◌ ◌>>◌
abbrev pub ◌>>=◌ : {A B : Type 0} → Read A → (A → Read B) → Read B
◌>>=◌ p f b off = resume (p b off) (λ a. f a b)

abbrev pub ◌>>◌ : {B : Type 0} → Read (Unit {0}) → Read B → Read B
p >> q = p >>= λ _. q

-- `if off+n > len(b) { return e }`
unfoldable pub need : ℕ → Error → Read (Unit {0})
need n e b off = if ltb (length b) (off + n) then err e else ok (tt, off)

-- `b[off:off+n]; off += n`
unfoldable pub get_bytes : ℕ → Read (List ℕ)
get_bytes n b off = if leb (off + n) (length b) then ok (take n (drop off b), off + n) else panic

-- A fixed-width integer of `n` bytes.
unfoldable pub get_le : ℕ → Read ℕ
get_le n = do s ← get_bytes n; return (of_le_bytes s)

abbrev pub get_u32 : Read ℕ
get_u32 = get_le 4

abbrev pub get_u64 : Read ℕ
get_u64 = get_le 8

abbrev pub get_u8 : Read ℕ
get_u8 = get_le 1

-- `off += n`
unfoldable pub skip : ℕ → Read (Unit {0})
skip n b off = ok (tt, off + n)

-- The check and the read in one, as the decoders mostly have them.
abbrev pub take_le : ℕ → Error → Read ℕ
take_le n e = do need n e; get_le n

abbrev pub take_bytes : ℕ → Error → Read (List ℕ)
take_bytes n e = do need n e; get_bytes n

-- `p` at the start of `bytes` returns `a` and stops behind them, whatever stands around.
pub record Reads {A : Type 0} (p : Read A) (bytes : List ℕ) (a : A) : Type 0 where
  pub run :
      (front rest : List ℕ)
      → p (front ++ (bytes ++ rest)) (length front) ≡ ok (a, length (front ++ bytes))

fits : (front bytes rest : List ℕ) → length front + length bytes ≤ length (front ++ (bytes ++ rest))
fits front bytes rest = omega (arith, length-append front (bytes ++ rest), length-append bytes rest)

pub get_bytes-Reads : (s : List ℕ) {n : ℕ} → length s ≡ n → Reads (get_bytes n) s s
unfolding get_bytes
get_bytes-Reads s e = rw (← e) (record {
  run = λ front rest.
      rw
        (
          get_bytes,
          le→leb (length front + length s) _ (fits front s rest),
          drop-append,
          take-append,
        )
        (rw (length-append front s));
})

pub get_le-Reads : (n x : ℕ) → x < 256 ^ n → Reads (get_le n) (le_bytes n x) x
unfolding get_le
get_le-Reads n x h = record {
  run = λ front rest.
      let r : Reads (get_bytes n) (le_bytes n x) (le_bytes n x) =
        get_bytes-Reads (le_bytes n x) (length-le_bytes n x) in
      rw (get_le, r.run front rest, of_le_bytes-le_bytes n x h);
}

pub Reads-return : {A : Type 0} (a : A) → Reads (return a) [] a
Reads-return a = record { run = λ front rest. rw Prelude.append-nil }

pub Reads-bind :
    {A B : Type 0} {p : Read A} (f : A → Read B) {s t : List ℕ} {a : A} {b : B}
    → Reads p s a
    → Reads (f a) t b
    → Reads (p >>= f) (s ++ t) b
Reads-bind f {s = s} {t = t} {a = a} hp hf = record {
  run = λ front rest.
      rw (append_assoc s t rest, hp.run front (t ++ rest), ← append_assoc front s (t ++ rest))
        (hf.run (front ++ s) rest ∙ rw (append_assoc front s t));
}

-- A check that the bytes behind it pass.
pub Reads-need :
    {A : Type 0} (n : ℕ) (e : Error) {p : Read A} {s : List ℕ} {a : A}
    → n ≤ length s
    → Reads p s a
    → Reads (need n e >> p) s a
unfolding need
Reads-need n e {s = s} h hp = record {
  run = λ front rest.
      rw
        (
          need,
          le→ltb (length (front ++ (s ++ rest))) (length front + n)
              (omega (arith, fits front s rest)),
        )
        (hp.run front rest);
}

-- Bytes that are passed over.
pub Reads-skip : (s : List ℕ) {n : ℕ} → length s ≡ n → Reads (skip n) s tt
unfolding skip
Reads-skip s e = rw (← e) (record { run = λ front rest. rw (length-append front s) })

pub take_bytes-Reads : (s : List ℕ) (e : Error) {n : ℕ} → length s ≡ n → Reads (take_bytes n e) s s
take_bytes-Reads s e {n} h = Reads-need n e (omega arith) (get_bytes-Reads s h)

-- The last read, with checks behind it that read nothing.
pub Reads-last :
    {A B : Type 0} {p : Read A} (f : A → Read B) {s : List ℕ} {a : A} {b : B}
    → Reads p s a
    → Reads (f a) [] b
    → Reads (p >>= f) s b
Reads-last f {s = s} hp hf = rw Prelude.append-nil at (Reads-bind f hp hf)

-- The last read, whose value goes into the result.
pub Reads-end :
    {A B : Type 0} {p : Read A} (g : A → B) {s : List ℕ} {a : A}
    → Reads p s a
    → Reads (p >>= λ x. return (g x)) s (g a)
Reads-end g hp = record { run = λ front rest. rw (hp.run front rest) }

-- A decoder that runs on bytes that were read before.
abbrev pub lift : {A : Type 0} → Result A → Read A
lift (ok a) b off = ok (a, off)
lift (err e) b off = err e
lift panic b off = panic

pub Reads-lift :
    {A B : Type 0} {r : Result A} (f : A → Read B) {t : List ℕ} {a : A} {b : B}
    → r ≡ ok a
    → Reads (f a) t b
    → Reads (lift r >>= f) t b
Reads-lift f e h = rw e h

-- The widths that the program writes, for values in range.
pub get_u32-Reads : (x : ℕ) → IsU32 x → Reads (get_le 4) (le_bytes 4 (u32 x)) x
get_u32-Reads x h = let e : u32 x ≡ x = omega arith in rw e (get_le-Reads 4 x (omega arith))

pub get_u64-Reads : (x : ℕ) → IsU64 x → Reads (get_le 8) (le_bytes 8 (u64 x)) x
get_u64-Reads x h = let e : u64 x ≡ x = omega arith in rw e (get_le-Reads 8 x (omega arith))

pub get_u8-Reads : (x : ℕ) → IsByte x → Reads (get_le 1) (x ∷ []) x
unfolding le_bytes
get_u8-Reads x h = let e : x % 256 ≡ x = omega arith in rw e at (get_le-Reads 1 x (omega arith))

pub take_u32-Reads : (x : ℕ) (e : Error) → IsU32 x → Reads (take_le 4 e) (le_bytes 4 (u32 x)) x
take_u32-Reads x e h = Reads-need 4 e (omega (arith, length-le_bytes 4 (u32 x))) (get_u32-Reads x h)

pub take_u64-Reads : (x : ℕ) (e : Error) → IsU64 x → Reads (take_le 8 e) (le_bytes 8 (u64 x)) x
take_u64-Reads x e h = Reads-need 8 e (omega (arith, length-le_bytes 8 (u64 x))) (get_u64-Reads x h)

pub take_u8-Reads : (x : ℕ) (e : Error) → IsByte x → Reads (take_le 1 e) (x ∷ []) x
take_u8-Reads x e h = Reads-need 1 e (omega arith) (get_u8-Reads x h)

-- `p` never panics, on any slice and at any offset.
pub record NoPanic {A : Type 0} (p : Read A) : Type 0 where
  pub run : (b : List ℕ) (off : ℕ) → p b off ≢ panic

pub NoPanic-bind :
    {A B : Type 0} {p : Read A} {f : A → Read B}
    → NoPanic p
    → ((a : A) → NoPanic (f a))
    → NoPanic (p >>= f)
NoPanic-bind {A} {B} {p} {f} hp hf = record { run = λ b off. go b (p b off) (hp.run b off) }
  where
    go : (b : List ℕ) (r : Result (A × ℕ)) → r ≢ panic → resume r (λ a. f a b) ≢ panic
    go b (ok (a, off')) h = (hf a).run b off'
    go b (err e) h = λ q. cc
    go b panic h = λ q. h refl

pub NoPanic-return : {A : Type 0} (a : A) → NoPanic (return a)
NoPanic-return a = record { run = λ b off q. cc }

pub NoPanic-take_bytes : (n : ℕ) (e : Error) → NoPanic (take_bytes n e)
unfolding need get_bytes
NoPanic-take_bytes n e = record { run = λ b off. ground arith }

pub NoPanic-take_le : (n : ℕ) (e : Error) → NoPanic (take_le n e)
unfolding need get_bytes get_le
NoPanic-take_le n e = record { run = λ b off. ground arith }

pub NoPanic-lift : {A : Type 0} (r : Result A) → r ≢ panic → NoPanic (lift r)
NoPanic-lift (ok a) h = NoPanic-return a
NoPanic-lift (err e) h = record { run = λ b off q. cc }
NoPanic-lift panic h = absurd (h refl)

-- A decoder that starts at offset 0 and does not return the offset.
abbrev pub from_start : {A : Type 0} → Read A → List ℕ → Result A
from_start p b = elim (p b 0) [ ok (a, off) ↦ ok a | err e ↦ err e | panic ↦ panic ]

pub from_start-Reads :
    {A : Type 0} {p : Read A} {s : List ℕ} {a : A} (rest : List ℕ)
    → Reads p s a
    → from_start p (s ++ rest) ≡ ok a
from_start-Reads rest h = ground (arith, h.run [] rest)

pub from_start-Reads_all :
    {A : Type 0} {p : Read A} {s : List ℕ} {a : A} → Reads p s a → from_start p s ≡ ok a
from_start-Reads_all h = rw Prelude.append-nil at (from_start-Reads [] h)
