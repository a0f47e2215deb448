-- ===== src/Sstable/Search.antt =====
-- sort.Search: binary search for the first index at which a test holds.
use ascent_db.Prelude.{
  ℕ, zero, suc, ◌+◌, ◌-◌, ◌/◌, ◌≤◌, ◌<◌, ◌≡◌, arith, Bool, true, false, ltb, Bool-cases, inl, inr,
  ltb→lt, ltb→le, if◌then◌else◌,
}

-- The loop with `i < j`; `n` bounds the rounds.
unfoldable pub search_loop : (ℕ → Bool) → ℕ → ℕ → ℕ → ℕ
search_loop f zero i j = i
search_loop f (suc n) i j =
    let h = (i + j) / 2 in
    let left = search_loop f n i h in
    let right = search_loop f n (h + 1) j in if ltb i j then if f h then left else right else i

unfoldable pub search : ℕ → (ℕ → Bool) → ℕ
search n f = search_loop f n 0 n

-- The test fails below `p` and holds from `p` to the end.
pub record TurnsAt (f : ℕ → Bool) (n p : ℕ) : Type 0 where
  pub below : (k : ℕ) → k < p → f k ≡ false
  pub above : (k : ℕ) → p ≤ k → k < n → f k ≡ true

turn-le : (f : ℕ → Bool) (n p h : ℕ) → TurnsAt f n p → f h ≡ true → p ≤ h
turn-le f n p h t e = elim (Bool-cases (ltb h p)) [
  | inl lt ↦ cc (e, t.below h (ltb→lt h p lt))
  | inr le ↦ ltb→le h p le
]

lt-turn : (f : ℕ → Bool) (n p h : ℕ) → TurnsAt f n p → h < n → f h ≡ false → h < p
lt-turn f n p h t fits e = elim (Bool-cases (ltb h p)) [
  | inl lt ↦ ltb→lt h p lt
  | inr le ↦ cc (e, t.above h (ltb→le h p le) fits)
]

search_loop_lem :
    (f : ℕ → Bool) (n p fuel i j : ℕ)
    → TurnsAt f n p
    → i ≤ p
    → p ≤ j
    → j ≤ n
    → j - i ≤ fuel
    → search_loop f fuel i j ≡ p
unfolding search_loop
search_loop_lem f n p zero i j t hi hj hn enough = omega arith
search_loop_lem f n p (suc fuel) i j t hi hj hn enough = elim (Bool-cases (ltb i j)) [
  | inl e ↦ elim (Bool-cases (f ((i + j) / 2))) [
    | inl e' ↦
        let far : p ≤ (i + j) / 2 = turn-le f n p _ t e' in
        let ij : i < j = ltb→lt i j e in
        rw (e, e') (search_loop_lem f n p fuel i _ t hi far (omega arith) (omega arith))
    | inr e' ↦
        let ij : i < j = ltb→lt i j e in
        let near : (i + j) / 2 < p = lt-turn f n p _ t (omega arith) e' in
        rw (e, e') (search_loop_lem f n p fuel _ j t (omega arith) hj hn (omega arith))
  ]
  | inr e ↦ rw e (omega (arith, ltb→le i j e))
]

-- On a test that turns once, Search returns the place where it turns.
pub search-TurnsAt : (f : ℕ → Bool) (n p : ℕ) → TurnsAt f n p → p ≤ n → search n f ≡ p
unfolding search
search-TurnsAt f n p t h = search_loop_lem f n p n 0 n t (omega arith) h (omega arith) (omega arith)
