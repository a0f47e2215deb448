-- ===== src/Memtable/Link.antt =====
-- The loops of `insert`: where each level is left, and the pointers that the new node changes.
use ascent_db.Prelude.{
  ℕ, zero, suc, ◌+◌, ◌≤◌, ◌<◌, ◌≡◌, ◌≢◌, ◌⊎◌, ◌∙◌, refl, arith, List, ◌∷◌, length, get_elem?, set,
  get_elem?-set_self, get_elem?-set_ne, length-set, Option, some, true, ◌==◌, ==_iff, lt→ltb,
  Bool-cases, inl, inr, ok,
}
use ascent_db.Record.{InternalKey}
use ascent_db.Memtable.{Heap, assign, descend, raise}
use ascent_db.Memtable.Nodes.{height, last_above, has, last_above-has}
use ascent_db.Memtable.Search.{Split, walk-front}

pub Eq-cases : (a b : ℕ) → (a ≡ b) ⊎ (a ≢ b)
Eq-cases a b = elim (Bool-cases (a == b)) [
  | inl e ↦ inl ((==_iff a b).0 e)
  | inr e ↦ inr (λ p. cc (e, (==_iff a b).1 p))
]

-- The entries of `update` from `i` up to `j` are `u`, the others are those of `old`.
pub record Notes (old update : List (Option ℕ)) (u : ℕ → ℕ) (i j : ℕ) : Type 0 where
  pub noted : (k : ℕ) → i ≤ k → k < j → get_elem? update k ≡ some (some (u k))
  pub others : (k : ℕ) → (k < i) ⊎ (j ≤ k) → get_elem? update k ≡ get_elem? old k
  pub as_long : length update ≡ length old

pub assign-ok :
    {A : Type 0} (xs : List A) (i : ℕ) (v : A) → i < length xs → assign xs i v ≡ ok (set xs i v)
unfolding assign
assign-ok xs i v h = rw (lt→ltb i (length xs) h)

module _ (fuel : ℕ) (h : Heap) (key : InternalKey) (front back : List ℕ)
    (split : Split h key front back) (enough : length front < fuel) where
  -- `descend` notes for each level the last node of the front above it.
  pub descend-Notes :
      (n p : ℕ) (update : List (Option ℕ))
      → has p (0 ∷ front) ≡ true
      → n ≤ height h p
      → n ≤ height h 0
      → n ≤ length update
      → (update' : List (Option ℕ)) × (descend fuel n h key p update ≡ ok update')
        × Notes update update' (λ i. last_above h i 0 front) 0 n
  unfolding descend
  descend-Notes zero p update m high high0 fits = (
    update,
    refl,
    record { noted = λ k a b. absurd (omega arith); others = λ k a. refl; as_long = refl },
  )
  descend-Notes (suc i) p update m high high0 fits =
      let q = last_above h i 0 front in
      let (mq, highq) = last_above-has h front 0 i (omega arith) in
      let (update', e, notes) =
        descend-Notes i q (set update i (some q)) mq (omega arith) (omega arith)
          (omega (arith, length-set update i (some q))) in
      (
        update',
        rw
            (
              walk-front fuel h key front back split enough i p m (omega arith) (omega arith),
              assign-ok update i (some q) (omega arith),
            )
            e,
        record {
          noted = λ k a b. elim (Eq-cases k i) [
            | inl ki ↦ rw ki (
                notes.others i (inr (omega arith))
                ∙ get_elem?-set_self update i (some q) (omega arith))
            | inr ki ↦ notes.noted k a (omega arith)
          ];
          others = λ k a.
              notes.others k (inr (omega arith))
              ∙ get_elem?-set_ne update i k (some q) (λ ki. omega arith);
          as_long = notes.as_long ∙ length-set update i (some q);
        },
      )

pub raise-Notes :
    (n i : ℕ) (update : List (Option ℕ))
    → i + n ≤ length update
    → (update' : List (Option ℕ)) × (raise n i update ≡ ok update')
      × Notes update update' (λ k. 0) i (i + n)
unfolding raise
raise-Notes zero i update fits = (
  update,
  refl,
  record { noted = λ k a b. absurd (omega arith); others = λ k a. refl; as_long = refl },
)
raise-Notes (suc n) i update fits =
    let (update', e, notes) =
      raise-Notes n (i + 1) (set update i (some 0)) (omega (arith, length-set update i (some 0))) in
    (
      update',
      rw (assign-ok update i (some 0) (omega arith)) e,
      record {
        noted = λ k a b. elim (Eq-cases k i) [
          | inl ki ↦ rw ki (
              notes.others i (inl (omega arith))
              ∙ get_elem?-set_self update i (some 0) (omega arith))
          | inr ki ↦ notes.noted k (omega arith) (omega arith)
        ];
        others = λ k a.
            notes.others k (elim a [ inl b ↦ inl (omega arith) | inr b ↦ inr (omega arith) ])
            ∙ get_elem?-set_ne update i k (some 0) (λ ki. omega arith);
        as_long = notes.as_long ∙ length-set update i (some 0);
      },
    )
