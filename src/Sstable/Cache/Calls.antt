-- ===== src/Sstable/Cache/Calls.antt =====
-- What moving to the front, deleting and evicting do to the entries of the block cache.
use ascent_db.Prelude.{
  ℕ, zero, suc, ◌≡◌, ◌∙◌, refl, sym, ap, arith, List, [], ◌∷◌, length, get_elem?, Option, none,
  some, true, false, ◌==◌, if◌then◌else◌, Bool-cases, inl, inr, take, ==_iff,
}
use mathlib.Core.List.{get_last?}
use ascent_db.Record.{Record}
use ascent_db.Sstable.Cache.{BlockKey, Entry, same_key, item, delete_item, remove}
use ascent_db.Sstable.Cache.Views.{
  Held, position, Absent, Distinct, without, same_key_refl, same_key_sym, same_key_trans,
  same_key-eq, same_key-other, position-without,
}

-- The entry of the key.
unfoldable pub lookup : BlockKey → List Entry → Option Entry
lookup key [] = none
lookup key (e ∷ l) = if same_key e.key key then some e else lookup key l

-- The entry of the key in front, if there is one.
unfoldable pub touch : BlockKey → List Entry → List Entry
touch key l = elim (lookup key l) [ none ↦ l | some e ↦ e ∷ without key l ]

unfoldable pub value_of : Option Entry → Option (List Record)
value_of none = none
value_of (some e) = some e.value

pub length-without :
    (es : List Entry) (key : BlockKey) (ll : List ℕ) (l : List Entry) (i : ℕ)
    → Held es ll l
    → position key ll l ≡ some i
    → suc (length (without key l)) ≡ length l
unfolding position without
length-without es key [] l i h e = cc
length-without es key (j ∷ ll) [] i h e = absurd h
length-without es key (j ∷ ll) (x ∷ l) i (p, h) e = elim (Bool-cases (same_key x.key key)) [
  | inl t ↦ rw t refl
  | inr t ↦ rw t (ap suc (length-without es key ll l i h (rw t at e)))
]

pub lookup-position :
    (es : List Entry) (key : BlockKey) (ll : List ℕ) (l : List Entry) (i : ℕ) (x : Entry)
    → Held es ll l
    → position key ll l ≡ some i
    → get_elem? es i ≡ some x
    → lookup key l ≡ some x
unfolding position lookup
lookup-position es key [] l i x h e p = cc
lookup-position es key (j ∷ ll) [] i x h e p = absurd h
lookup-position es key (j ∷ ll) (y ∷ l) i x (q, h) e p = elim (Bool-cases (same_key y.key key)) [
  | inl t ↦
      let r : some j ≡ some i = rw t at e in
      let same : j ≡ i = cc r in rw t (cc (ap (get_elem? es) same, p, q))
  | inr t ↦ rw t (lookup-position es key ll l i x h (rw t at e) p)
]

pub lookup-Absent : (key : BlockKey) (l : List Entry) → Absent key l → lookup key l ≡ none
unfolding lookup
lookup-Absent key [] h = refl
lookup-Absent key (e ∷ l) (h, hs) = rw h (lookup-Absent key l hs)

position-same :
    (a b : BlockKey) (ll : List ℕ) (l : List Entry)
    → same_key a b ≡ true
    → position a ll l ≡ position b ll l
position-same a b ll l t = ap (λ k. position k ll l) (same_key-eq a b t)

-- The positions when a key that has one moves to the front.
pub position-front :
    (es : List Entry) (key k : BlockKey) (ll : List ℕ) (l : List Entry) (i : ℕ) (x : Entry)
    → Held es ll l
    → position key ll l ≡ some i
    → same_key x.key key ≡ true
    → position k (i ∷ remove i ll) (x ∷ without key l) ≡ position k ll l
unfolding position
position-front es key k ll l i x h e t = elim (Bool-cases (same_key key k)) [
  | inl s ↦ rw (same_key_trans x.key key k t s) (sym e ∙ position-same key k ll l s)
  | inr s ↦
      rw (same_key-other key x.key k (same_key_sym x.key key t) s)
        (position-without es key k ll l i h e s)
]

pub item-delete_item :
    (key k : BlockKey) (items : List (BlockKey × ℕ))
    → item k (delete_item key items) ≡ (if same_key key k then none else item k items)
unfolding item delete_item
item-delete_item key k [] = ground arith
item-delete_item key k ((k', i) ∷ items) = elim (Bool-cases (same_key k' key)) [
  | inl t ↦ rw (t, item-delete_item key k items, same_key-eq k' key t) (ground arith)
  | inr t ↦ elim (Bool-cases (same_key k' k)) [
    | inl s ↦ elim (Bool-cases (same_key key k)) [
      | inl u ↦ cc (same_key_trans k' k key s (same_key_sym key k u), t)
      | inr u ↦ rw (t, s, u) refl
    ]
    | inr s ↦ rw (t, s, item-delete_item key k items) refl
  ]
]

unequal :
    (es : List Entry) (i j : ℕ) (x y : Entry)
    → get_elem? es i ≡ some x
    → get_elem? es j ≡ some y
    → same_key y.key x.key ≡ false
    → (i == j) ≡ false
unequal es i j x y p q t = elim (Bool-cases (i == j)) [
  | inl s ↦
      let u : some x ≡ some y = cc (ap (get_elem? es) ((==_iff i j).0 s), p, q) in
      let same : x ≡ y = cc u in cc (ap (λ z. same_key z.key x.key) same, t, same_key_refl x.key)
  | inr s ↦ s
]

-- Keys that differ are not both the same as a third.
differ : (a b k : BlockKey) → same_key a b ≡ false → same_key b k ≡ true → same_key a k ≡ false
differ a b k p q = elim (Bool-cases (same_key a k)) [
  | inl t ↦ cc (same_key_trans a k b t (same_key_sym b k q), p)
  | inr t ↦ t
]

-- The last element of the list, and what is left without it.
pub record Last (es : List Entry) (ll : List ℕ) (l : List Entry) (n : ℕ) : Type 0 where
  pub i : ℕ
  pub x : Entry
  pub last : get_last? ll ≡ some i
  pub at_i : get_elem? es i ≡ some x
  pub others : Held es (remove i ll) (take n l)
  pub key_in : (key : BlockKey) → Absent key l → same_key x.key key ≡ false
  pub mapped :
      (k : BlockKey)
      → position k (remove i ll) (take n l) ≡ (if same_key x.key k then none else position k ll l)

pub last_lem :
    (es : List Entry) (ll : List ℕ) (l : List Entry) (n : ℕ)
    → Held es ll l
    → Distinct l
    → length l ≡ suc n
    → Last es ll l n
unfolding position remove
last_lem es [] [] n h d e = absurd (omega arith)
last_lem es [] (x ∷ l) n h d e = absurd h
last_lem es (i ∷ ll) [] n h d e = absurd h
last_lem es (i ∷ []) (x ∷ []) (suc n) h d e = absurd (omega arith)
last_lem es (i ∷ []) (x ∷ []) zero (p, h) d e =
    let t : (i == i) ≡ true = (==_iff i i).1 refl in
    record {
      i = i;
      x = x;
      last = refl;
      at_i = p;
      others = rw t tt;
      key_in = λ key a. a.0;
      mapped = λ k.
          rw t
            (elim (same_key x.key k)
              as (λ b. none ≡ (if b then none else (if b then some i else none))) [
                | true ↦ refl
                | false ↦ refl
              ]);
    }
last_lem es (i ∷ []) (x ∷ y ∷ l) n (p, h) d e = absurd h
last_lem es (i ∷ j ∷ ll) (x ∷ []) n (p, h) d e = absurd h
last_lem es (i ∷ j ∷ ll) (x ∷ y ∷ l) zero h d e = absurd (omega arith)
last_lem es (i ∷ j ∷ ll) (x ∷ y ∷ l) (suc n) (p, h) (a, d) e =
    let r = last_lem es (j ∷ ll) (y ∷ l) n h d (omega arith) in
    let other : same_key r.x.key x.key ≡ false = r.key_in x.key a in
    let ne : (i == r.i) ≡ false = unequal es i r.i x r.x p r.at_i other in
    record {
      i = r.i;
      x = r.x;
      last = r.last;
      at_i = r.at_i;
      others = rw ne (p, r.others);
      key_in = λ key b. r.key_in key b.1;
      mapped = λ k. rw ne (elim (Bool-cases (same_key x.key k)) [
        | inl t ↦ rw (t, differ r.x.key x.key k other t) refl
        | inr t ↦ rw t (r.mapped k)
      ]);
    }
