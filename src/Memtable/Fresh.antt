-- ===== src/Memtable/Fresh.antt =====
-- What does not change where only one node, which is not in the list, differs.
use ascent_db.Prelude.{
  ℕ, ◌≡◌, ◌≢◌, ◌∙◌, refl, sym, ap, List, [], ◌∷◌, ◌++◌, length, get_elem?, All, ◌≤◌, ◌<◌, some,
  true, false, ◌||◌, arith, Bool-cases, inl, inr, ◌==◌, ==_iff,
}
use ascent_db.Memtable.{Heap}
use ascent_db.Memtable.Nodes.{
  node_at, height, pointer, first_above, last_above, last_above-skip, Linked, has,
}
use ascent_db.Memtable.Invariant.{Distinct}
use ascent_db.Memtable.Relink.{has-false}

module _ (h h' : Heap) (new : ℕ) (same : (p : ℕ) → p ≢ new → node_at h' p ≡ node_at h p) where
  pub height-fresh : (p : ℕ) → p ≢ new → height h' p ≡ height h p
  unfolding height
  height-fresh p d = ap (λ n. length n.forward) (same p d)

  pub pointer-fresh : (p i : ℕ) → p ≢ new → pointer h' p i ≡ pointer h p i
  unfolding pointer
  pointer-fresh p i d = ap (λ n. get_elem? n.forward i) (same p d)

  pub first_above-fresh :
      (i : ℕ) (l : List ℕ) → has new l ≡ false → first_above h' i l ≡ first_above h i l
  unfolding first_above
  first_above-fresh i [] m = refl
  first_above-fresh i (q ∷ l) m =
      let (d, m') = has-false new q l m in
      rw (height-fresh q (λ e. d (sym e)), first_above-fresh i l m')

  pub last_above-fresh :
      (i p : ℕ) (l : List ℕ) → has new l ≡ false → last_above h' i p l ≡ last_above h i p l
  unfolding last_above
  last_above-fresh i p [] m = refl
  last_above-fresh i p (q ∷ l) m =
      let (d, m') = has-false new q l m in
      rw (height-fresh q (λ e. d (sym e)), last_above-fresh i q l m', last_above-fresh i p l m')

  pub Linked-fresh : (l : List ℕ) → has new l ≡ false → Linked h l → Linked h' l
  unfolding Linked
  Linked-fresh [] m linked = tt
  Linked-fresh (p ∷ l) m (leads, linked) =
      let (d, m') = has-false new p l m in
      let d' : p ≢ new = λ e. d (sym e) in
      (
        λ i high.
            pointer-fresh p i d'
            ∙ leads i (rw (← height-fresh p d') high)
            ∙ ap some (sym (first_above-fresh i l m')),
        Linked-fresh l m' linked,
      )

pub has-append : (a : ℕ) (l r : List ℕ) → has a (l ++ r) ≡ (has a l || has a r)
unfolding has
has-append a [] r = refl
has-append a (b ∷ l) r = elim (Bool-cases (a == b)) [
  | inl e ↦ rw e
  | inr e ↦ rw e (has-append a l r)
]

-- A node of the front is not behind.
pub Distinct-apart : (a : ℕ) (l r : List ℕ) → Distinct (l ++ r) → has a l ≡ true → has a r ≡ false
unfolding has Distinct
Distinct-apart a [] r d m = cc
Distinct-apart a (b ∷ l) r (n, d) m = elim (Bool-cases (a == b)) [
  | inl e ↦
      let nl : has a (l ++ r) ≡ false = rw ((==_iff a b).0 e) n in
      ground (arith, nl, has-append a l r)
  | inr e ↦ Distinct-apart a l r d (rw e at m)
]

pub Distinct-front : (l r : List ℕ) → Distinct (l ++ r) → Distinct l
unfolding Distinct
Distinct-front [] r d = tt
Distinct-front (a ∷ l) r (n, d) = (ground (arith, n, has-append a l r), Distinct-front l r d)

has-middle :
    (a new : ℕ) (l r : List ℕ) → has a (l ++ r) ≡ false → a ≢ new → has a (l ++ new ∷ r) ≡ false
unfolding has
has-middle a new [] r m d = elim (Bool-cases (a == new)) [
  | inl e ↦ absurd (d ((==_iff a new).0 e))
  | inr e ↦ rw e m
]
has-middle a new (b ∷ l) r m d = elim (Bool-cases (a == b)) [
  | inl e ↦ cc (rw e at m)
  | inr e ↦ rw e (has-middle a new l r (rw e at m) d)
]

pub Distinct-middle :
    (new : ℕ) (l r : List ℕ)
    → Distinct (l ++ r)
    → has new (l ++ r) ≡ false
    → Distinct (l ++ new ∷ r)
unfolding Distinct
Distinct-middle new [] r d m = (m, d)
Distinct-middle new (a ∷ l) r (n, d) m =
    let (ne, m') = has-false new a (l ++ r) m in
    (has-middle a new l r n (λ e. ne (sym e)), Distinct-middle new l r d m')

-- Above all nodes of a list, the last one is the one in front.
pub last_above-none :
    (h : Heap) (i : ℕ) (l : List ℕ) → All (λ p. height h p ≤ i) l → last_above h i 0 l ≡ 0
last_above-none h i [] all = unfold last_above in refl
last_above-none h i (q ∷ l) (hq, all) = last_above-skip h i 0 q l hq ∙ last_above-none h i l all

pub has-not : (a b : ℕ) (l : List ℕ) → a ≢ b → has a l ≡ false → has a (b ∷ l) ≡ false
unfolding has
has-not a b l d m = elim (Bool-cases (a == b)) [
  | inl e ↦ absurd (d ((==_iff a b).0 e))
  | inr e ↦ rw e m
]

-- The next free address is not in use.
pub unused : (n : ℕ) (l : List ℕ) → All (λ p. p < n) l → has n l ≡ false
unused n [] all = unfold has in refl
unused n (p ∷ l) (hp, all) = has-not n p l (λ e. omega arith) (unused n l all)
