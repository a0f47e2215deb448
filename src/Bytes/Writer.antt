-- ===== src/Bytes/Writer.antt =====
-- Filling a buffer at an offset: binary.LittleEndian.PutUint32(buf[off:], x) and copy(buf[off:], s).
use ascent_db.Prelude.{
  ℕ, zero, suc, ◌+◌, ◌≤◌, ◌≡◌, ◌∙◌, refl, ap, arith, List, [], ◌∷◌, ◌++◌, length, drop, replicate,
  append_assoc, append-nil, length-append, length-replicate, length-drop, leb, le→leb, drop_all,
  Result, ok, ◌>>=◌, ◌>>◌, demand,
}
use ascent_db.Bytes.Word.{u32, u64, le_bytes}

-- A buffer and the offset at which the next field goes.
pub record Cursor : Type 0 where
  pub buf : List ℕ
  pub off : ℕ

-- copy(buf[off:], s) as far as the buffer reaches.
unfoldable pub overwrite : List ℕ → ℕ → List ℕ → List ℕ
overwrite [] off s = []
overwrite (x ∷ buf) (suc off) s = x ∷ overwrite buf off s
overwrite (x ∷ buf) zero [] = x ∷ buf
overwrite (x ∷ buf) zero (b ∷ s) = b ∷ overwrite buf zero s

-- A fixed-width store panics if the buffer is too short.
unfoldable pub store : List ℕ → Cursor → Result Cursor
store s c = do
  demand (leb (c.off + length s) (length c.buf))
  ok (record { buf = overwrite c.buf c.off s; off = c.off + length s })

-- `copy(buf[off:], s); off += len(s)`: only the slice expression can panic.
unfoldable pub copy : List ℕ → Cursor → Result Cursor
copy s c = do
  demand (leb c.off (length c.buf))
  ok (record { buf = overwrite c.buf c.off s; off = c.off + length s })

unfoldable pub put_u32 : ℕ → Cursor → Result Cursor
put_u32 x = store (le_bytes 4 (u32 x))

unfoldable pub put_u64 : ℕ → Cursor → Result Cursor
put_u64 x = store (le_bytes 8 (u64 x))

-- `dst[off] = b; off++`
unfoldable pub put_u8 : ℕ → Cursor → Result Cursor
put_u8 b = store (b ∷ [])

-- make([]byte, n), with the offset at its start.
unfoldable pub make : ℕ → Cursor
make n = record { buf = replicate n 0; off = 0 }

pub overwrite-append :
    (front room s : List ℕ)
    → length s ≤ length room
    → overwrite (front ++ room) (length front) s ≡ (front ++ s) ++ drop (length s) room
unfolding overwrite
overwrite-append (x ∷ front) room s h = ap (◌∷◌ x) (overwrite-append front room s h)
overwrite-append [] [] [] h = refl
overwrite-append [] [] (b ∷ s) h = absurd (omega arith)
overwrite-append [] (x ∷ room) [] h = refl
overwrite-append [] (x ∷ room) (b ∷ s) h = ap (◌∷◌ b) (overwrite-append [] room s (omega arith))

pub length-overwrite :
    (buf : List ℕ) (off : ℕ) (s : List ℕ) → length (overwrite buf off s) ≡ length buf
unfolding overwrite
length-overwrite [] off s = refl
length-overwrite (x ∷ buf) (suc off) s = ap suc (length-overwrite buf off s)
length-overwrite (x ∷ buf) zero [] = refl
length-overwrite (x ∷ buf) zero (b ∷ s) = ap suc (length-overwrite buf zero s)

-- A cursor behind `front`, with `room` ahead.
abbrev pub at : List ℕ → List ℕ → Cursor
at front room = record { buf = front ++ room; off = length front }

-- `f` puts `bytes` at the offset, moves behind them, and touches nothing else.
pub record Writes (f : Cursor → Result Cursor) (bytes : List ℕ) : Type 0 where
  pub run :
      (front room : List ℕ)
      → length bytes ≤ length room
      → f (at front room) ≡ ok (at (front ++ bytes) (drop (length bytes) room))

moved :
    (front room s : List ℕ)
    → length s ≤ length room
    → ◌≡◌ {A = Cursor}
        (record { buf = overwrite (front ++ room) (length front) s; off = length front + length s })
        (at (front ++ s) (drop (length s) room))
moved front room s h = ground (arith, overwrite-append front room s h, length-append front s)

pub store-Writes : (s : List ℕ) → Writes (store s) s
unfolding store
store-Writes s = record {
  run = λ front room h.
      rw
        (le→leb (length front + length s) (length (front ++ room))
          (omega (arith, length-append front room)))
        (ap ok (moved front room s h));
}

pub copy-Writes : (s : List ℕ) → Writes (copy s) s
unfolding copy
copy-Writes s = record {
  run = λ front room h.
      rw (le→leb (length front) (length (front ++ room)) (omega (arith, length-append front room)))
        (ap ok (moved front room s h));
}

pub put_u32-Writes : (x : ℕ) → Writes (put_u32 x) (le_bytes 4 (u32 x))
unfolding put_u32
put_u32-Writes x = store-Writes _

pub put_u64-Writes : (x : ℕ) → Writes (put_u64 x) (le_bytes 8 (u64 x))
unfolding put_u64
put_u64-Writes x = store-Writes _

pub put_u8-Writes : (b : ℕ) → Writes (put_u8 b) (b ∷ [])
unfolding put_u8
put_u8-Writes b = store-Writes _

drop-drop : (n m : ℕ) (xs : List ℕ) → drop m (drop n xs) ≡ drop (n + m) xs
drop-drop zero m xs = rw (Prim.Native.Nat.add.zero m)
drop-drop (suc n) m [] = rw (Prim.Native.Nat.add.suc n m) (drop_all m [] (omega arith))
drop-drop (suc n) m (x ∷ xs) = rw (Prim.Native.Nat.add.suc n m) (drop-drop n m xs)

-- A write that comes behind another.
pub Writes-after :
    {g : Cursor → Result Cursor} {b : List ℕ} (front room a : List ℕ)
    → Writes g b
    → length (a ++ b) ≤ length room
    → g (at (front ++ a) (drop (length a) room))
      ≡ ok (at (front ++ (a ++ b)) (drop (length (a ++ b)) room))
Writes-after {b = b} front room a hg h =
    let hb : length b ≤ length (drop (length a) room) =
      omega (arith, length-append a b, length-drop (length a) room) in
    rw (hg.run (front ++ a) (drop (length a) room) hb)
      (rw (append_assoc front a b, drop-drop, ← length-append a b))

-- Two writes in a row.
pub Writes-bind :
    {f g : Cursor → Result Cursor} {a b : List ℕ}
    → Writes f a
    → Writes g b
    → Writes (λ c. f c >>= g) (a ++ b)
Writes-bind {f} {g} {a} {b} hf hg = record {
  run = λ front room h.
      rw (hf.run front room (omega (arith, length-append a b))) (Writes-after front room a hg h);
}

-- Nothing written.
pub Writes-ok : Writes ok []
Writes-ok = record { run = λ front room h. rw append-nil }

-- A buffer of just the right size is filled.
pub Writes-fill :
    {f : Cursor → Result Cursor} {bytes : List ℕ} (dst : List ℕ)
    → Writes f bytes
    → length dst ≡ length bytes
    → f (record { buf = dst; off = 0 }) ≡ ok (record { buf = bytes; off = length bytes })
Writes-fill {f} {bytes} dst hf e =
    hf.run [] dst (omega arith) ∙ rw (drop_all (length bytes) dst (omega arith), append-nil)

pub Writes-make :
    {f : Cursor → Result Cursor} {bytes : List ℕ} {n : ℕ}
    → Writes f bytes
    → length bytes ≡ n
    → f (make n) ≡ ok (record { buf = bytes; off = n })
unfolding make
Writes-make {f} {bytes} {n} hf e =
    rw (← e) (Writes-fill (replicate (length bytes) 0) hf (length-replicate (length bytes) 0))

-- The buffer that a chain of writes returns.
abbrev pub filled : Result Cursor → Result (List ℕ)
filled r = r >>= λ c. ok c.buf

pub Writes-filled :
    {f : Cursor → Result Cursor} {bytes : List ℕ} {n : ℕ}
    → Writes f bytes
    → length bytes ≡ n
    → filled (f (make n)) ≡ ok bytes
Writes-filled hf e = rw (Writes-make hf e)
