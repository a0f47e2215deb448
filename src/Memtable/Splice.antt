-- ===== src/Memtable/Splice.antt =====
-- The loop of `insert` that puts the new node in: which pointers it changes.
use ascent_db.Prelude.{
  ℕ, zero, suc, ◌+◌, ◌≤◌, ◌<◌, ◌≡◌, ◌≢◌, ◌⊎◌, ◌∙◌, refl, sym, ap, arith, List, [], ◌∷◌, ltb, ltb→lt,
  ltb→le, length, get_elem?, set, get_elem?-set_self, get_elem?-set_ne, length-set, Option, some,
  ◌==◌, ==_iff, Bool-cases, inl, inr, ok,
}
use ascent_db.Memtable.{Node, Heap, write, set_forward, not_nil, link}
use ascent_db.Memtable.Nodes.{
  node_at, height, pointer, at_index-some, load-node_at, forward_at-pointer,
}
use ascent_db.Memtable.Link.{Eq-cases, assign-ok}

-- The nodes have the same keys, values and heights in both heaps.
pub record SameNodes (h h' : Heap) : Type 0 where
  pub keys : (p : ℕ) → (node_at h' p).key ≡ (node_at h p).key
  pub values : (p : ℕ) → (node_at h' p).value ≡ (node_at h p).value
  pub heights : (p : ℕ) → height h' p ≡ height h p

pub node_at-write_self : (h : Heap) (p : ℕ) (n : Node) → node_at (write h p n) p ≡ n
unfolding node_at write
node_at-write_self h p n = rw ((==_iff p p).1 refl, node_at)

pub node_at-write_ne :
    (h : Heap) (p q : ℕ) (n : Node) → q ≢ p → node_at (write h p n) q ≡ node_at h q
unfolding node_at write
node_at-write_ne h p q n d = elim (Bool-cases (q == p)) [
  | inl e ↦ absurd (d ((==_iff q p).0 e))
  | inr e ↦ rw (e, node_at)
]

-- The pointer of `p` at level `i` is now `v`, and nothing else has changed.
record Stored (h h' : Heap) (p i : ℕ) (v : Option ℕ) : Type 0 where
  same : SameNodes h h'
  at_self : pointer h' p i ≡ some v
  elsewhere : (q j : ℕ) → (q ≢ p) ⊎ (j ≢ i) → pointer h' q j ≡ pointer h q j

set_forward-Stored :
    (h : Heap) (p i : ℕ) (v : Option ℕ)
    → i < height h p
    → (h' : Heap) × (set_forward h p i v ≡ ok h') × Stored h h' p i v
unfolding set_forward height pointer
set_forward-Stored h p i v high =
    let n : Node = node_at h p in
    let fits : i < length n.forward = high in
    let n' : Node = record n { forward = set n.forward i v } in
    let h' : Heap = write h p n' in
    let self : node_at h' p ≡ n' = node_at-write_self h p n' in
    let other : (q : ℕ) → q ≢ p → node_at h' q ≡ node_at h q = λ q d. node_at-write_ne h p q n' d in
    (
      h',
      rw (load-node_at h p (omega arith), assign-ok n.forward i v fits),
      record {
        same = record {
          keys = λ q. elim (Eq-cases q p) [
            | inl e ↦ rw e (ap (λ m. m.key) self)
            | inr d ↦ ap (λ m. m.key) (other q d)
          ];
          values = λ q. elim (Eq-cases q p) [
            | inl e ↦ rw e (ap (λ m. m.value) self)
            | inr d ↦ ap (λ m. m.value) (other q d)
          ];
          heights = λ q. elim (Eq-cases q p) [
            | inl e ↦ rw e (ap (λ m. length m.forward) self ∙ length-set n.forward i v)
            | inr d ↦ ap (λ m. length m.forward) (other q d)
          ];
        };
        at_self = ap (λ m. get_elem? m.forward i) self ∙ get_elem?-set_self n.forward i v fits;
        elsewhere = λ q j a. elim (Eq-cases q p) [
          | inl e ↦ rw e (
              ap (λ m. get_elem? m.forward j) self
              ∙ get_elem?-set_ne n.forward i j v (elim a [ inl d ↦ absurd (d e) | inr d ↦ d ]))
          | inr d ↦ ap (λ m. get_elem? m.forward j) (other q d)
        ];
      },
    )

-- From `h` to `h'` the node has been put in at the levels from `i` up to `j`, behind `u k` at the
-- level `k`.
pub record Spliced (h h' : Heap) (node : ℕ) (u : ℕ → ℕ) (i j : ℕ) : Type 0 where
  pub same : SameNodes h h'
  pub at_node : (k : ℕ) → i ≤ k → k < j → pointer h' node k ≡ pointer h (u k) k
  pub at_update : (k : ℕ) → i ≤ k → k < j → pointer h' (u k) k ≡ some (some node)
  pub other_levels : (p k : ℕ) → (k < i) ⊎ (j ≤ k) → pointer h' p k ≡ pointer h p k
  pub other_nodes : (p k : ℕ) → p ≢ node → p ≢ u k → pointer h' p k ≡ pointer h p k

SameNodes-trans : {h h' h'' : Heap} → SameNodes h h' → SameNodes h' h'' → SameNodes h h''
SameNodes-trans s t = record {
  keys = λ p. t.keys p ∙ s.keys p;
  values = λ p. t.values p ∙ s.values p;
  heights = λ p. t.heights p ∙ s.heights p;
}

Spliced-none : (h : Heap) (node : ℕ) (u : ℕ → ℕ) (i : ℕ) → Spliced h h node u i i
Spliced-none h node u i = record {
  same = record { keys = λ p. refl; values = λ p. refl; heights = λ p. refl };
  at_node = λ k a b. absurd (omega arith);
  at_update = λ k a b. absurd (omega arith);
  other_levels = λ p k a. refl;
  other_nodes = λ p k a b. refl;
}

Spliced-trans :
    {h h' h'' : Heap} {node : ℕ} {u : ℕ → ℕ} (i m j : ℕ)
    → i ≤ m
    → m ≤ j
    → Spliced h h' node u i m
    → Spliced h' h'' node u m j
    → Spliced h h'' node u i j
Spliced-trans {h} {h'} {h''} {node} {u} i m j im mj s t = record {
  same = SameNodes-trans s.same t.same;
  at_node = λ k a b. elim (Bool-cases (ltb k m)) [
    | inl e ↦ t.other_levels node k (inl (ltb→lt k m e)) ∙ s.at_node k a (ltb→lt k m e)
    | inr e ↦ t.at_node k (ltb→le k m e) b ∙ s.other_levels (u k) k (inr (ltb→le k m e))
  ];
  at_update = λ k a b. elim (Bool-cases (ltb k m)) [
    | inl e ↦ t.other_levels (u k) k (inl (ltb→lt k m e)) ∙ s.at_update k a (ltb→lt k m e)
    | inr e ↦ t.at_update k (ltb→le k m e) b
  ];
  other_levels = λ p k a. elim a [
    | inl b ↦ t.other_levels p k (inl (omega arith)) ∙ s.other_levels p k (inl b)
    | inr b ↦ t.other_levels p k (inr b) ∙ s.other_levels p k (inr (omega arith))
  ];
  other_nodes = λ p k a b. t.other_nodes p k a b ∙ s.other_nodes p k a b;
}

-- One round.
Spliced-round :
    {h h1 h2 : Heap} {node i : ℕ} {u : ℕ → ℕ} {next : Option ℕ}
    → u i ≢ node
    → pointer h (u i) i ≡ some next
    → Stored h h1 node i next
    → Stored h1 h2 (u i) i (some node)
    → Spliced h h2 node u i (i + 1)
Spliced-round {h} {h1} {h2} {node} {i} {u} {next} d e s t =
    let only : (k : ℕ) → i ≤ k → k < i + 1 → k ≡ i = λ k a b. omega arith in
    record {
      same = SameNodes-trans s.same t.same;
      at_node =
          λ k a b. rw (only k a b) (t.elsewhere node i (inl (λ q. d (sym q))) ∙ s.at_self ∙ sym e);
      at_update = λ k a b. rw (only k a b) t.at_self;
      other_levels = λ p k a.
          let ne : k ≢ i = λ q. elim a [ inl b ↦ omega arith | inr b ↦ omega arith ] in
          t.elsewhere p k (inr ne) ∙ s.elsewhere p k (inr ne);
      other_nodes = λ p k a b. elim (Eq-cases k i) [
        | inl q ↦ t.elsewhere p k (inl (rw q at b)) ∙ s.elsewhere p k (inl a)
        | inr q ↦ t.elsewhere p k (inr q) ∙ s.elsewhere p k (inl a)
      ];
    }

get_elem?-ok :
    {A : Type 0} (xs : List A) (i : ℕ) → i < length xs → (x : A) × (get_elem? xs i ≡ some x)
get_elem?-ok [] i h = absurd (omega arith)
get_elem?-ok (x ∷ xs) zero h = (x, refl)
get_elem?-ok (x ∷ xs) (suc i) h = get_elem?-ok xs i (omega arith)

pointer-high : (h : Heap) (p i : ℕ) → i < height h p → (v : Option ℕ) × (pointer h p i ≡ some v)
unfolding pointer height
pointer-high h p i high = get_elem?-ok (node_at h p).forward i high

-- From level `i` on, for `n` rounds.
pub link-Spliced :
    (n i node : ℕ) (u : ℕ → ℕ) (update : List (Option ℕ)) (h : Heap)
    → ((k : ℕ) → i ≤ k → k < i + n → get_elem? update k ≡ some (some (u k)))
    → ((k : ℕ) → i ≤ k → k < i + n → k < height h (u k))
    → ((k : ℕ) → i ≤ k → k < i + n → u k ≢ node)
    → i + n ≤ height h node
    → (h' : Heap) × (link n i node update h ≡ ok h') × Spliced h h' node u i (i + n)
unfolding link not_nil
link-Spliced zero i node u update h noted high d fits =
    let none_left : i + 0 ≡ i = omega arith in (h, refl, rw none_left (Spliced-none h node u i))
link-Spliced (suc n) i node u update h noted high d fits =
    let (next, e) = pointer-high h (u i) i (high i (omega arith) (omega arith)) in
    let (h1, e1, s1) = set_forward-Stored h node i next (omega arith) in
    let (h2, e2, s2) =
      set_forward-Stored h1 (u i) i (some node)
        (omega (arith, s1.same.heights (u i), high i (omega arith) (omega arith))) in
    let round : Spliced h h2 node u i (i + 1) =
      Spliced-round (d i (omega arith) (omega arith)) e s1 s2 in
    let (h', e', s') =
      link-Spliced n (i + 1) node u update h2 (λ k a b. noted k (omega arith) (omega arith))
        (λ k a b. omega (arith, round.same.heights (u k), high k (omega arith) (omega arith)))
        (λ k a b. d k (omega arith) (omega arith)) (omega (arith, round.same.heights node)) in
    let ends : i + 1 + n ≡ i + suc n = omega arith in
    (
      h',
      rw
          (
            at_index-some update i (noted i (omega arith) (omega arith)),
            forward_at-pointer h (u i) i e,
            e1,
            e2,
          )
          e',
      rw (← ends) (Spliced-trans i (i + 1) (i + 1 + n) (omega arith) (omega arith) round s'),
    )
