-- ===== src/Engine/Schedule/Sizes.antt =====
-- The sizes of levels and their capacities, where int64 does not overflow.
use ascent_db.Prelude.{
  ℕ, zero, suc, ◌+◌, ◌-◌, ◌*◌, ◌^◌, ◌≤◌, ◌<◌, ◌≡◌, ◌∙◌, sym, ap, arith, List, [], ◌∷◌, ltb,
}
use native.Mathlib.Nat.{mul_assoc, pow-succ', pow-zero, le-mul_of_pos_right, pow-le-pow_right}
use mathlib.Core.Path.{subst}
use ascent_db.Bytes.Word.{u64}
use ascent_db.Meta.{TableMeta}
use ascent_db.Engine.Schedule.{signed_less, add_sizes, level_size, multiply, excess}

-- The bytes of some tables.
unfoldable pub bytes_of : List TableMeta → ℕ
bytes_of [] = 0
bytes_of (t ∷ ts) = t.file_size + bytes_of ts

pub signed_less-ltb : (a b : ℕ) → a < 2 ^ 63 → b < 2 ^ 63 → signed_less a b ≡ ltb a b
unfolding signed_less
signed_less-ltb a b ha hb =
    let ea : u64 (a + 2 ^ 63) ≡ a + 2 ^ 63 = omega arith in
    let eb : u64 (b + 2 ^ 63) ≡ b + 2 ^ 63 = omega arith in rw (ea, eb) (ground arith)

add_sizes-bytes_of :
    (total : ℕ) (ts : List TableMeta)
    → total + bytes_of ts < 2 ^ 63
    → add_sizes total ts ≡ total + bytes_of ts
unfolding add_sizes bytes_of
add_sizes-bytes_of total [] h = omega arith
add_sizes-bytes_of total (t ∷ ts) h =
    let e : u64 (total + t.file_size) ≡ total + t.file_size = omega (arith, h) in
    rw e (add_sizes-bytes_of (total + t.file_size) ts (omega (arith, h)) ∙ omega arith)

pub level_size-bytes_of : (ts : List TableMeta) → bytes_of ts < 2 ^ 63 → level_size ts ≡ bytes_of ts
unfolding level_size
level_size-bytes_of ts h = add_sizes-bytes_of 0 ts (omega (arith, h)) ∙ omega arith

pub multiply-pow : (m n cap : ℕ) → 0 < m → cap * m ^ n < 2 ^ 63 → multiply m n cap ≡ cap * m ^ n
unfolding multiply
multiply-pow m zero cap pos h = rw (pow-zero m) (omega arith)
multiply-pow m (suc n) cap pos h =
    let split : cap * m ^ suc n ≡ cap * m * m ^ n =
      ap (λ x. cap * x) (pow-succ' m n) ∙ sym (mul_assoc cap m (m ^ n)) in
    let h' : cap * m * m ^ n < 2 ^ 63 = subst (λ x. x < 2 ^ 63) split h in
    let one : 1 ≤ m ^ n =
      subst (λ x. x ≤ m ^ n) (pow-zero m) (pow-le-pow_right pos {i = 0} {j = n} (omega arith)) in
    let up : cap * m ≤ cap * m * m ^ n = le-mul_of_pos_right (cap * m) (omega (arith, one)) in
    let e : u64 (cap * m) ≡ cap * m = omega (arith, up, h') in
    rw e (multiply-pow m n (cap * m) pos h' ∙ sym split)

pub excess-monus : (size cap : ℕ) → size < 2 ^ 63 → cap < 2 ^ 63 → excess size cap ≡ size - cap
unfolding excess signed_less
excess-monus size cap hs hc = ground arith
