-- ===== src/Memtable/Nodes.antt =====
-- Which list of nodes a skip list stands for: at each level the pointers lead through the nodes that
-- are high enough.
use ascent_db.Prelude.{
  ℕ, ◌≤◌, ◌<◌, ◌≡◌, ◌⊎◌, ◌∙◌, sym, ap, arith, List, [], ◌∷◌, ◌++◌, length, get_elem?, get_elem?-lt,
  Option, none, some, Bool, true, false, ◌==◌, ==_iff, ltb, ltb→lt, ltb→le, lt→ltb, le→ltb,
  if◌then◌else◌, Bool-cases, Option-cases, inl, inr, ok,
}
use ascent_db.Memtable.{Node, Heap, zero_key, load, at_index, forward_at}

abbrev no_node : Node
no_node = record { key = zero_key; value = []; forward = [] }

-- The node at an address.
unfoldable pub node_at : Heap → ℕ → Node
node_at h p = elim (h p) [ none ↦ no_node | some n ↦ n ]

unfoldable pub height : Heap → ℕ → ℕ
unfolding node_at
height h p = length (node_at h p).forward

-- The pointer of a node at a level, if the node is high enough.
unfoldable pub pointer : Heap → ℕ → ℕ → Option (Option ℕ)
unfolding node_at
pointer h p i = get_elem? (node_at h p).forward i

pub at_index-some :
    {A : Type 0} (xs : List A) (i : ℕ) {x : A} → get_elem? xs i ≡ some x → at_index xs i ≡ ok x
unfolding at_index
at_index-some xs i e = rw (e, at_index)

pub load-node_at : (h : Heap) (p : ℕ) → 0 < height h p → load h p ≡ ok (node_at h p)
unfolding height load
load-node_at h p e = elim (Option-cases (h p)) [
  | inl q ↦ absurd (omega (arith, rw (q, height, node_at) at e))
  | inr (n, q) ↦ rw (q, load, node_at)
]

pub forward_at-pointer :
    (h : Heap) (p i : ℕ) {q : Option ℕ} → pointer h p i ≡ some q → forward_at h p i ≡ ok q
unfolding forward_at pointer height
forward_at-pointer h p i {q} e =
    let at_i : get_elem? (node_at h p).forward i ≡ some q = e in
    let high : 0 < height h p = omega (arith, get_elem?-lt (node_at h p).forward i at_i) in
    rw (load-node_at h p high) (at_index-some (node_at h p).forward i at_i)

-- The first node of a list above a level.
unfoldable pub first_above : Heap → ℕ → List ℕ → Option ℕ
first_above h i [] = none
first_above h i (q ∷ l) =
    let rest = first_above h i l in if ltb i (height h q) then some q else rest

-- The last node of a list above a level, or `p`.
unfoldable pub last_above : Heap → ℕ → ℕ → List ℕ → ℕ
last_above h i p [] = p
last_above h i p (q ∷ l) =
    let moved = last_above h i q l in
    let kept = last_above h i p l in if ltb i (height h q) then moved else kept

-- One step of either, by the height of the first node.
pub first_above-up :
    (h : Heap) (i q : ℕ) (l : List ℕ) → i < height h q → first_above h i (q ∷ l) ≡ some q
unfolding first_above
first_above-up h i q l e = rw (lt→ltb _ _ e)

pub first_above-skip :
    (h : Heap) (i q : ℕ) (l : List ℕ) → height h q ≤ i → first_above h i (q ∷ l) ≡ first_above h i l
unfolding first_above
first_above-skip h i q l e = rw (le→ltb _ _ e)

pub last_above-up :
    (h : Heap) (i p q : ℕ) (l : List ℕ)
    → i < height h q
    → last_above h i p (q ∷ l) ≡ last_above h i q l
unfolding last_above
last_above-up h i p q l e = rw (lt→ltb _ _ e)

pub last_above-skip :
    (h : Heap) (i p q : ℕ) (l : List ℕ)
    → height h q ≤ i
    → last_above h i p (q ∷ l) ≡ last_above h i p l
unfolding last_above
last_above-skip h i p q l e = rw (le→ltb _ _ e)

-- A node is above a level or not.
pub Above-cases : (h : Heap) (i q : ℕ) → (i < height h q) ⊎ (height h q ≤ i)
Above-cases h i q = elim (Bool-cases (ltb i (height h q))) [
  | inl e ↦ inl (ltb→lt _ _ e)
  | inr e ↦ inr (ltb→le _ _ e)
]

-- The pointers of each node lead to the first node behind it that is high enough.
abbrev pub Leads : Heap → ℕ → List ℕ → Type 0
Leads h p l = (i : ℕ) → i < height h p → pointer h p i ≡ some (first_above h i l)

unfoldable pub Linked : Heap → List ℕ → Type 0
Linked h [] = Unit {0}
Linked h (p ∷ l) = Leads h p l × Linked h l

pub Linked-head : (h : Heap) (p : ℕ) (l : List ℕ) → Linked h (p ∷ l) → Leads h p l
unfolding Linked
Linked-head h p l s = s.0

pub Linked-tail : (h : Heap) (p : ℕ) (l : List ℕ) → Linked h (p ∷ l) → Linked h l
unfolding Linked
Linked-tail h p l s = s.1

pub Linked-suffix : (h : Heap) (l r : List ℕ) → Linked h (l ++ r) → Linked h r
Linked-suffix h [] r linked = linked
Linked-suffix h (p ∷ l) r linked = Linked-suffix h l r (Linked-tail h p (l ++ r) linked)

unfoldable pub has : ℕ → List ℕ → Bool
has a [] = false
has a (p ∷ l) = if a == p then true else has a l

pub has-cons : (a b : ℕ) (l : List ℕ) → has a l ≡ true → has a (b ∷ l) ≡ true
unfolding has
has-cons a b l m = elim (Bool-cases (a == b)) [ inl e ↦ rw e | inr e ↦ rw e m ]

pub has-second : (a b q : ℕ) (l : List ℕ) → has a (b ∷ l) ≡ true → has a (b ∷ q ∷ l) ≡ true
unfolding has
has-second a b q l m = elim (Bool-cases (a == b)) [
  | inl e ↦ rw e
  | inr e ↦ rw e (has-cons a q l (rw e at m))
]

-- What follows a node.
unfoldable pub after : ℕ → List ℕ → List ℕ
after p [] = []
after p (q ∷ l) = if p == q then l else after p l

pub Linked-after :
    (h : Heap) (l rest : List ℕ) (p : ℕ)
    → has p l ≡ true
    → Linked h (l ++ rest)
    → Leads h p (after p l ++ rest) × Linked h (after p l ++ rest)
unfolding Linked after has
Linked-after h [] rest p m s = cc
Linked-after h (q ∷ l) rest p m (leads, s) = elim (Bool-cases (p == q)) [
  | inl e ↦ rw (e, (==_iff p q).0 e) (leads, s)
  | inr e ↦ rw e (Linked-after h l rest p (rw e at m) s)
]

pub last_above-after :
    (h : Heap) (l : List ℕ) (p b i : ℕ)
    → has p l ≡ true
    → i < height h p
    → last_above h i p (after p l) ≡ last_above h i b l
unfolding after has
last_above-after h [] p b i m high = cc
last_above-after h (q ∷ l) p b i m high = elim (Bool-cases (p == q)) [
  | inl e ↦
      let pq : p ≡ q = (==_iff p q).0 e in rw (e, last_above-up h i b q l (rw (← pq) high), pq)
  | inr e ↦ rw e (elim (Above-cases h i q) [
    | inl u ↦ last_above-after h l p q i (rw e at m) high ∙ sym (last_above-up h i b q l u)
    | inr u ↦ last_above-after h l p b i (rw e at m) high ∙ sym (last_above-skip h i b q l u)
  ])
]

-- The last node above a level is in the list or in front of it, and above the level if the node in
-- front is.
pub last_above-has :
    (h : Heap) (l : List ℕ) (b i : ℕ)
    → i < height h b
    → (has (last_above h i b l) (b ∷ l) ≡ true) × (i < height h (last_above h i b l))
last_above-has h [] b i high = unfold last_above has in (ground arith, high)
last_above-has h (q ∷ l) b i high = elim (Above-cases h i q) [
  | inl u ↦
      let (m, a) = last_above-has h l q i u in
      rw (last_above-up h i b q l u) (has-cons _ b (q ∷ l) m, a)
  | inr u ↦
      let (m, a) = last_above-has h l b i high in
      rw (last_above-skip h i b q l u) (has-second _ b q l m, a)
]

-- The pointer of the last node above a level leads to the first one behind.
pub pointer-last_above :
    (h : Heap) (i b : ℕ) (l rest : List ℕ)
    → pointer h b i ≡ some (first_above h i (l ++ rest))
    → Linked h (l ++ rest)
    → pointer h (last_above h i b l) i ≡ some (first_above h i rest)
pointer-last_above h i b [] rest e s = unfold last_above in e
pointer-last_above h i b (q ∷ l) rest e s = elim (Above-cases h i q) [
  | inl u ↦ rw (last_above-up h i b q l u) (
      pointer-last_above h i q l rest (Linked-head h q (l ++ rest) s i u)
        (Linked-tail h q (l ++ rest) s))
  | inr u ↦ rw (last_above-skip h i b q l u) (
      pointer-last_above h i b l rest (e ∙ ap some (first_above-skip h i q (l ++ rest) u))
        (Linked-tail h q (l ++ rest) s))
]
