-- ===== src/Sstable/Cache/Views.antt =====
-- The invariant of the block cache: list, map and elements are one list of entries.
use ascent_db.Prelude.{
  ℕ, zero, suc, ◌≤◌, ◌≡◌, ◌≢◌, ◌∙◌, refl, sym, ap, arith, List, [], ◌∷◌, ◌++◌, length, get_elem?,
  set as replace, get_elem?-set_ne, All, Option, none, some, true, false, ◌==◌, if◌then◌else◌,
  Bool-cases, inl, inr, ==_iff,
}
use ascent_db.Sstable.Cache.{BlockKey, Entry, Lru, same_key, item, remove}

-- The elements on the list hold these entries, front first.
abbrev pub Held : List Entry → List ℕ → List Entry → Type 0
Held es [] [] = Unit {0}
Held es [] (e ∷ l) = ⊥
Held es (i ∷ ll) [] = ⊥
Held es (i ∷ ll) (e ∷ l) = (get_elem? es i ≡ some e) × Held es ll l

-- The first element that holds the key.
unfoldable pub position : BlockKey → List ℕ → List Entry → Option ℕ
position key [] l = none
position key (i ∷ ll) [] = none
position key (i ∷ ll) (e ∷ l) = if same_key e.key key then some i else position key ll l

abbrev pub Absent : BlockKey → List Entry → Type 0
Absent key l = All (λ e. same_key e.key key ≡ false) l

-- No key stands twice.
abbrev pub Distinct : List Entry → Type 0
Distinct [] = Unit {0}
Distinct (e ∷ l) = Absent e.key l × Distinct l

-- The cache is this list of entries, the most recently used in front: the list elements hold them,
-- the map gives the element of each key and of no other key, no key stands twice, and there are no
-- more than the capacity.
pub record IsCache (c : Lru) (l : List Entry) : Type 0 where
  pub held : Held c.elements c.ll l
  pub mapped : (key : BlockKey) → item key c.items ≡ position key c.ll l
  pub distinct : Distinct l
  pub bounded : length l ≤ c.cap

-- The entries without the first of the key.
unfoldable pub without : BlockKey → List Entry → List Entry
without key [] = []
without key (e ∷ l) = if same_key e.key key then l else e ∷ without key l

-- Keys as an equivalence.
pub same_key_refl : (k : BlockKey) → same_key k k ≡ true
unfolding same_key
same_key_refl k = ground arith

pub same_key_trans :
    (a b c : BlockKey) → same_key a b ≡ true → same_key b c ≡ true → same_key a c ≡ true
unfolding same_key
same_key_trans a b c p q = ground arith

pub same_key_sym : (a b : BlockKey) → same_key a b ≡ true → same_key b a ≡ true
unfolding same_key
same_key_sym a b p = ground arith

-- Keys that are the same differ from the same keys.
pub same_key-other :
    (a b c : BlockKey) → same_key a b ≡ true → same_key a c ≡ false → same_key b c ≡ false
same_key-other a b c p q = elim (Bool-cases (same_key b c)) [
  | inl r ↦ cc (same_key_trans a b c p r, q)
  | inr r ↦ r
]

pub same_key-fields :
    (a b : BlockKey) → same_key a b ≡ true → (a.file_num ≡ b.file_num) × (a.offset ≡ b.offset)
unfolding same_key
same_key-fields a b p = ground arith

pub same_key-eq : (a b : BlockKey) → same_key a b ≡ true → a ≡ b
same_key-eq a b p =
    let (f, o) = same_key-fields a b p in λ i. record { file_num = f i; offset = o i }

pub Absent-other : (a b : BlockKey) (l : List Entry) → same_key a b ≡ true → Absent a l → Absent b l
Absent-other a b [] p h = tt
Absent-other a b (e ∷ l) p (h, hs) = (
  elim (Bool-cases (same_key e.key b)) [
    | inl r ↦ cc (same_key_trans e.key b a r (same_key_sym a b p), h)
    | inr r ↦ r
  ],
  Absent-other a b l p hs,
)

module _ (es : List Entry) where
  pub Held-length : (ll : List ℕ) (l : List Entry) → Held es ll l → length ll ≡ length l
  Held-length [] [] h = refl
  Held-length [] (e ∷ l) h = absurd h
  Held-length (i ∷ ll) [] h = absurd h
  Held-length (i ∷ ll) (e ∷ l) (p, h) = ap suc (Held-length ll l h)

  -- A key without a position is absent, and the other way round.
  pub position-none :
      (key : BlockKey) (ll : List ℕ) (l : List Entry)
      → Held es ll l
      → position key ll l ≡ none
      → Absent key l
  unfolding position
  position-none key [] [] h e = tt
  position-none key [] (x ∷ l) h e = absurd h
  position-none key (i ∷ ll) [] h e = absurd h
  position-none key (i ∷ ll) (x ∷ l) (p, h) e = elim (Bool-cases (same_key x.key key)) [
    | inl t ↦ cc (sym e, ap (λ b. if b then some i else position key ll l) t)
    | inr t ↦ (t, position-none key ll l h (rw t at e))
  ]

  -- The element at the position of a key holds an entry of that key; without it, the entry is gone.
  pub position-some :
      (key : BlockKey) (ll : List ℕ) (l : List Entry) (i : ℕ)
      → Held es ll l
      → position key ll l ≡ some i
      → (x : Entry) × (get_elem? es i ≡ some x)
        × (same_key x.key key ≡ true)
        × Held es (remove i ll) (without key l)
  unfolding position remove without
  position-some key [] l i h e = cc
  position-some key (j ∷ ll) [] i h e = absurd h
  position-some key (j ∷ ll) (x ∷ l) i (p, h) e = elim (Bool-cases (same_key x.key key)) [
    | inl t ↦
        let q : some j ≡ some i = rw t at e in
        let r : j ≡ i = cc q in
        let same : (j == i) ≡ true = (==_iff j i).1 r in (x, rw r at p, t, rw (same, t) h)
    | inr t ↦
        let (y, at_i, k, rest) = position-some key ll l i h (rw t at e) in
        elim (Bool-cases (j == i)) [
          | inl s ↦
              let r : j ≡ i = (==_iff j i).0 s in
              let q : some x ≡ some y = cc (ap (get_elem? es) r, p, at_i) in
              let same : x ≡ y = cc q in absurd (cc (ap (λ z. same_key z.key key) same, t, k))
          | inr s ↦ (y, at_i, k, rw (s, t) (p, rest))
        ]
  ]

-- An element that holds an entry of another key is not at the position.
elsewhere :
    (es : List Entry) (key : BlockKey) (ll : List ℕ) (l : List Entry) (i j : ℕ) (x : Entry)
    → Held es ll l
    → position key ll l ≡ some i
    → get_elem? es j ≡ some x
    → same_key x.key key ≡ false
    → (j == i) ≡ false
elsewhere es key ll l i j x h e p t = elim (Bool-cases (j == i)) [
  | inl s ↦
      let (y, at_i, k, rest) = position-some es key ll l i h e in
      let q : some x ≡ some y = cc (ap (get_elem? es) ((==_iff j i).0 s), p, at_i) in
      let same : x ≡ y = cc q in cc (ap (λ z. same_key z.key key) same, t, k)
  | inr s ↦ s
]

-- Without one key, the positions of the others are as before.
pub position-without :
    (es : List Entry) (key k : BlockKey) (ll : List ℕ) (l : List Entry) (i : ℕ)
    → Held es ll l
    → position key ll l ≡ some i
    → same_key key k ≡ false
    → position k (remove i ll) (without key l) ≡ position k ll l
unfolding position remove without
position-without es key k [] l i h e ne = cc
position-without es key k (j ∷ ll) [] i h e ne = absurd h
position-without es key k (j ∷ ll) (x ∷ l) i (p, h) e ne = elim (Bool-cases (same_key x.key key)) [
  | inl t ↦
      let q : some j ≡ some i = rw t at e in
      let r : j ≡ i = cc q in
      let same : (j == i) ≡ true = (==_iff j i).1 r in
      let other : same_key x.key k ≡ false =
        same_key-other key x.key k (same_key_sym x.key key t) ne in
      rw (same, t, other) refl
  | inr t ↦
      let e' : position key ll l ≡ some i = rw t at e in
      rw (elsewhere es key ll l i j x h e' p t, t)
        (ap (λ o. if same_key x.key k then some j else o)
          (position-without es key k ll l i h e' ne))
]

pub Absent-without : (key : BlockKey) (l : List Entry) → Distinct l → Absent key (without key l)
unfolding without
Absent-without key [] d = tt
Absent-without key (x ∷ l) (a, d) = elim (Bool-cases (same_key x.key key)) [
  | inl t ↦ rw t (Absent-other x.key key l t a)
  | inr t ↦ rw t (t, Absent-without key l d)
]

pub All-without :
    (P : Entry → Type 0) (key : BlockKey) (l : List Entry) → All P l → All P (without key l)
unfolding without
All-without P key [] h = tt
All-without P key (x ∷ l) (h, hs) = elim (Bool-cases (same_key x.key key)) [
  | inl t ↦ rw t hs
  | inr t ↦ rw t (h, All-without P key l hs)
]

pub Distinct-without : (key : BlockKey) (l : List Entry) → Distinct l → Distinct (without key l)
unfolding without
Distinct-without key [] d = tt
Distinct-without key (x ∷ l) (a, d) = elim (Bool-cases (same_key x.key key)) [
  | inl t ↦ rw t d
  | inr t ↦ rw t (All-without _ key l a, Distinct-without key l d)
]

-- A new value for an element changes no entry of another key.
pub Held-replace :
    (es : List Entry) (key : BlockKey) (ll : List ℕ) (l : List Entry) (i : ℕ) (x y : Entry)
    → Held es ll l
    → Absent key l
    → get_elem? es i ≡ some x
    → same_key x.key key ≡ true
    → Held (replace es i y) ll l
Held-replace es key [] [] i x y h a p t = tt
Held-replace es key [] (z ∷ l) i x y h a p t = absurd h
Held-replace es key (j ∷ ll) [] i x y h a p t = absurd h
Held-replace es key (j ∷ ll) (z ∷ l) i x y (q, h) (n, a) p t =
    let ne : j ≢ i = λ r.
      let s : some z ≡ some x = cc (ap (get_elem? es) r, p, q) in
      let same : z ≡ x = cc s in absurd (cc (ap (λ u. same_key u.key key) same, t, n)) in
    (get_elem?-set_ne es i j y ne ∙ q, Held-replace es key ll l i x y h a p t)

get_elem?-append :
    (es fs : List Entry) (i : ℕ) (x : Entry)
    → get_elem? es i ≡ some x
    → get_elem? (es ++ fs) i ≡ some x
get_elem?-append [] fs i x h = cc
get_elem?-append (e ∷ es) fs zero x h = h
get_elem?-append (e ∷ es) fs (suc i) x h = get_elem?-append es fs i x h

pub get_elem?-append_last :
    (es : List Entry) (x : Entry) → get_elem? (es ++ (x ∷ [])) (length es) ≡ some x
get_elem?-append_last [] x = refl
get_elem?-append_last (e ∷ es) x = get_elem?-append_last es x

-- A new element changes no entry.
pub Held-append :
    (es : List Entry) (y : Entry) (ll : List ℕ) (l : List Entry)
    → Held es ll l
    → Held (es ++ (y ∷ [])) ll l
Held-append es y [] [] h = tt
Held-append es y [] (e ∷ l) h = absurd h
Held-append es y (i ∷ ll) [] h = absurd h
Held-append es y (i ∷ ll) (e ∷ l) (p, h) =
    (get_elem?-append es (y ∷ []) i e p, Held-append es y ll l h)
