-- ===== src/Memtable/Relink.antt =====
-- After a node has been put in, the pointers lead through the longer list.
use ascent_db.Prelude.{
  ℕ, ◌≤◌, ◌<◌, ◌≡◌, ◌≢◌, ◌⊎◌, ◌∙◌, refl, sym, ap, arith, List, [], ◌∷◌, ◌++◌, some, false, ◌==◌,
  ==_iff, Bool-cases, inl, inr, ltb, ltb→lt, ltb→le,
}
use ascent_db.Memtable.{Heap}
use ascent_db.Memtable.Nodes.{
  height, pointer, first_above, last_above, first_above-up, first_above-skip, last_above-up,
  last_above-skip, Above-cases, Leads, Linked, has, last_above-has,
}
use ascent_db.Memtable.Splice.{SameNodes, Spliced}
use ascent_db.Memtable.Invariant.{Distinct}

pub has-false : (a b : ℕ) (l : List ℕ) → has a (b ∷ l) ≡ false → (a ≢ b) × (has a l ≡ false)
unfolding has
has-false a b l m = elim (Bool-cases (a == b)) [
  | inl e ↦ cc (rw e at m)
  | inr e ↦ (λ q. cc (e, (==_iff a b).1 q), rw e at m)
]

pub first_above-Same :
    {h h' : Heap} (i : ℕ) (l : List ℕ) → SameNodes h h' → first_above h' i l ≡ first_above h i l
unfolding first_above
first_above-Same i [] s = refl
first_above-Same i (q ∷ l) s = rw (s.heights q, first_above-Same i l s)

-- Whether a node is the last one above a level, and which node is then the first one behind it.
last-first :
    (h : Heap) (i p : ℕ) (l : List ℕ)
    → has p l ≡ false
    → ((last_above h i p l ≡ p)
        × ((rest : List ℕ) → first_above h i (l ++ rest) ≡ first_above h i rest))
      ⊎ ((last_above h i p l ≢ p)
          × ((rest rest' : List ℕ) → first_above h i (l ++ rest) ≡ first_above h i (l ++ rest')))
last-first h i p [] m = inl (unfold last_above in refl, λ rest. refl)
last-first h i p (q ∷ l) m = elim (Above-cases h i q) [
  | inl u ↦ inr (
    λ e.
        let moved : last_above h i q l ≡ p = sym (last_above-up h i p q l u) ∙ e in
        let (found, high) = last_above-has h l q i u in cc (moved, found, m),
    λ rest rest'. first_above-up h i q (l ++ rest) u ∙ sym (first_above-up h i q (l ++ rest') u),
  )
  | inr u ↦ elim (last-first h i p l (has-false p q l m).1) [
    | inl (e, f) ↦
        inl (last_above-skip h i p q l u ∙ e, λ rest. first_above-skip h i q (l ++ rest) u ∙ f rest)
    | inr (e, f) ↦ inr (
      λ e'. e (sym (last_above-skip h i p q l u) ∙ e'),
      λ rest rest'.
          first_above-skip h i q (l ++ rest) u
          ∙ f rest rest'
          ∙ sym (first_above-skip h i q (l ++ rest') u),
    )
  ]
]

-- A node that is not above a level makes no difference there.
first_above-middle :
    (h : Heap) (i new : ℕ) (l rest : List ℕ)
    → height h new ≤ i
    → first_above h i (l ++ new ∷ rest) ≡ first_above h i (l ++ rest)
unfolding first_above
first_above-middle h i new [] rest low = first_above-skip h i new rest low
first_above-middle h i new (q ∷ l) rest low = rw (first_above-middle h i new l rest low)

module _ (h h' : Heap) (new lvl : ℕ) (u : ℕ → ℕ) (back : List ℕ) (s : Spliced h h' new u 0 lvl)
    (new_height : height h new ≡ lvl) where
  -- The nodes that the new one does not stand behind are linked as before.
  pub Linked-other :
      (l : List ℕ)
      → has new l ≡ false
      → ((i : ℕ) → i < lvl → has (u i) l ≡ false)
      → Linked h l
      → Linked h' l
  unfolding Linked
  Linked-other [] m d linked = tt
  Linked-other (p ∷ l) m d (leads, linked) = (
    λ i high. elim (Bool-cases (ltb i lvl)) [
      | inl e ↦
          s.other_nodes p i (λ q. (has-false new p l m).0 (sym q))
            (λ q. (has-false (u i) p l (d i (ltb→lt i lvl e))).0 (sym q))
          ∙ leads i (rw (← s.same.heights p) high)
          ∙ ap some (sym (first_above-Same i l s.same))
      | inr e ↦
          s.other_levels p i (inr (ltb→le i lvl e))
          ∙ leads i (rw (← s.same.heights p) high)
          ∙ ap some (sym (first_above-Same i l s.same))
    ],
    Linked-other l (has-false new p l m).1 (λ i e. (has-false (u i) p l (d i e)).1) linked,
  )

  -- A node in front leads to the new one where it is the last above the level.
  Leads-front :
      (p : ℕ) (l : List ℕ)
      → has p l ≡ false
      → new ≢ p
      → ((i : ℕ) → i < lvl → i < height h p → u i ≡ last_above h i p l)
      → Leads h p (l ++ back)
      → Leads h' p (l ++ new ∷ back)
  Leads-front p l m d behind leads i high =
      let high' : i < height h p = rw (← s.same.heights p) high in
      let old : pointer h p i ≡ some (first_above h i (l ++ back)) = leads i high' in
      rw (first_above-Same i (l ++ new ∷ back) s.same) (elim (Bool-cases (ltb i lvl)) [
        | inl e ↦
            let low : i < lvl = ltb→lt i lvl e in
            elim (last-first h i p l m) [
              | inl (at_p, f) ↦
                  let up : u i ≡ p = behind i low high' ∙ at_p in
                  rw (f (new ∷ back), first_above-up h i new back (omega arith))
                    (rw (← up) (s.at_update i (omega arith) low))
              | inr (not_p, f) ↦
                  s.other_nodes p i (λ q. d (sym q)) (λ q. not_p (sym (behind i low high') ∙ sym q))
                  ∙ old
                  ∙ ap some (f back (new ∷ back))
            ]
        | inr e ↦
            let low : lvl ≤ i = ltb→le i lvl e in
            s.other_levels p i (inr low)
            ∙ old
            ∙ ap some (sym (first_above-middle h i new l back (omega arith)))
      ])

  pub Linked-new :
      ((i : ℕ) → i < lvl → pointer h (u i) i ≡ some (first_above h i back))
      → has new back ≡ false
      → ((i : ℕ) → i < lvl → has (u i) back ≡ false)
      → Linked h back
      → Linked h' (new ∷ back)
  unfolding Linked
  Linked-new found m d linked = (
    λ i high.
        let low : i < lvl = omega (arith, s.same.heights new) in
        s.at_node i (omega arith) low
        ∙ found i low
        ∙ ap some (sym (first_above-Same i back s.same)),
    Linked-other back m d linked,
  )

  -- By induction on the front, of which `u i` is the last node above the level `i`.
  pub Linked-spliced :
      (p : ℕ) (l : List ℕ)
      → Distinct (p ∷ l)
      → has new (p ∷ l) ≡ false
      → ((i : ℕ) → i < lvl → (b : ℕ) × (u i ≡ last_above h i b (p ∷ l)))
      → Linked h (p ∷ (l ++ back))
      → Linked h' (new ∷ back)
      → Linked h' (p ∷ (l ++ new ∷ back))
  unfolding Linked Distinct
  Linked-spliced p [] dist m ends linked behind = (
    Leads-front p [] dist.0 (has-false new p [] m).0
        (λ i low high. let (b, e) = ends i low in e ∙ last_above-up h i b p [] high) linked.0,
    behind,
  )
  Linked-spliced p (q ∷ l) dist m ends linked behind = (
    Leads-front p (q ∷ l) dist.0 (has-false new p (q ∷ l) m).0
        (λ i low high. let (b, e) = ends i low in e ∙ last_above-up h i b p (q ∷ l) high) linked.0,
    Linked-spliced q l dist.1 (has-false new p (q ∷ l) m).1
        (λ i low.
          let (b, e) = ends i low in
          elim (Above-cases h i p) [
            | inl up ↦ (p, e ∙ last_above-up h i b p (q ∷ l) up)
            | inr up ↦ (b, e ∙ last_above-skip h i b p (q ∷ l) up)
          ])
        linked.1 behind,
  )
