-- ===== src/Bytes/Compare.antt =====
-- bytes.Compare and bytes.Equal.
use ascent_db.Prelude.{
  ℕ, ◌≡◌, refl, arith, List, [], ◌∷◌, Bool, true, false, if◌then◌else◌, ltb, ◌==◌, Sign, less, same,
  greater, flip, ◌↔◌,
}

-- Lexicographic order; a proper prefix is less.
unfoldable pub compare_bytes : List ℕ → List ℕ → Sign
compare_bytes [] [] = same
compare_bytes [] (b ∷ bs) = less
compare_bytes (a ∷ as') [] = greater
compare_bytes (a ∷ as') (b ∷ bs) =
    if ltb a b then less else if ltb b a then greater else compare_bytes as' bs

pub compare_bytes_refl : (a : List ℕ) → compare_bytes a a ≡ same
unfolding compare_bytes
compare_bytes_refl [] = refl
compare_bytes_refl (x ∷ xs) = ground (arith, compare_bytes_refl xs)

pub compare_bytes-eq : (a b : List ℕ) → compare_bytes a b ≡ same → a ≡ b
unfolding compare_bytes
compare_bytes-eq [] [] h = refl
compare_bytes-eq [] (y ∷ ys) h = cc
compare_bytes-eq (x ∷ xs) [] h = cc
compare_bytes-eq (x ∷ xs) (y ∷ ys) h = ground (arith, compare_bytes-eq xs ys)

pub compare_bytes-flip : (a b : List ℕ) → compare_bytes b a ≡ flip (compare_bytes a b)
unfolding compare_bytes
compare_bytes-flip [] [] = refl
compare_bytes-flip [] (y ∷ ys) = refl
compare_bytes-flip (x ∷ xs) [] = refl
compare_bytes-flip (x ∷ xs) (y ∷ ys) = ground (arith, compare_bytes-flip xs ys)

pub compare_bytes_trans :
    (a b c : List ℕ)
    → compare_bytes a b ≡ less
    → compare_bytes b c ≡ less
    → compare_bytes a c ≡ less
unfolding compare_bytes
compare_bytes_trans [] [] c p q = cc
compare_bytes_trans [] (y ∷ ys) [] p q = cc
compare_bytes_trans [] (y ∷ ys) (z ∷ zs) p q = refl
compare_bytes_trans (x ∷ xs) [] c p q = cc
compare_bytes_trans (x ∷ xs) (y ∷ ys) [] p q = cc
compare_bytes_trans (x ∷ xs) (y ∷ ys) (z ∷ zs) p q = ground (arith, compare_bytes_trans xs ys zs)

-- bytes.Equal
unfoldable pub equal_bytes : List ℕ → List ℕ → Bool
equal_bytes [] [] = true
equal_bytes [] (b ∷ bs) = false
equal_bytes (a ∷ as') [] = false
equal_bytes (a ∷ as') (b ∷ bs) = if a == b then equal_bytes as' bs else false

pub equal_bytes_iff : (a b : List ℕ) → (equal_bytes a b ≡ true) ↔ (a ≡ b)
unfolding equal_bytes
equal_bytes_iff a b = (sound a b, λ e. rw e (complete b))
  where
    sound : (a b : List ℕ) → equal_bytes a b ≡ true → a ≡ b
    sound [] [] h = refl
    sound [] (y ∷ ys) h = cc
    sound (x ∷ xs) [] h = cc
    sound (x ∷ xs) (y ∷ ys) h = ground (arith, sound xs ys)

    complete : (a : List ℕ) → equal_bytes a a ≡ true
    complete [] = refl
    complete (x ∷ xs) = ground (arith, complete xs)
