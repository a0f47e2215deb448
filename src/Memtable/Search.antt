-- ===== src/Memtable/Search.antt =====
-- What the loops of `search`, `insert` and `Seek` find.
use ascent_db.Prelude.{
  ℕ, zero, suc, ◌≤◌, ◌<◌, ◌≡◌, ◌∙◌, refl, sym, ap, arith, List, [], ◌∷◌, ◌++◌, length, All, none,
  some, Bool, true, false, ◌==◌, Bool-cases, inl, inr, is_less, ok,
}
use ascent_db.Record.{InternalKey, compare}
use ascent_db.Memtable.{Heap, walk, seek_down}
use ascent_db.Memtable.Nodes.{
  node_at, height, pointer, load-node_at, forward_at-pointer, first_above, last_above,
  first_above-up, first_above-skip, last_above-up, last_above-skip, Above-cases, Linked, has,
  Linked-tail, Linked-head, after, Linked-after, last_above-after, last_above-has,
}

-- Whether a node comes before a key.
unfoldable pub is_below : Heap → InternalKey → ℕ → Bool
is_below h key p = is_less (compare (node_at h p).key key)

-- The nodes before the key in front, the others behind.
pub record Split (h : Heap) (key : InternalKey) (front back : List ℕ) : Type 0 where
  pub linked : Linked h (0 ∷ (front ++ back))
  pub below : All (λ p. is_below h key p ≡ true) front
  pub not_below : All (λ p. is_below h key p ≡ false) back

-- One round of `walk`, by what the pointer leads to.
walk_end :
    (fuel : ℕ) (h : Heap) (key : InternalKey) (i p : ℕ)
    → pointer h p i ≡ some none
    → walk (suc fuel) h key i p ≡ ok p
unfolding walk
walk_end fuel h key i p e = rw (forward_at-pointer h p i e)

walk_stop :
    (fuel : ℕ) (h : Heap) (key : InternalKey) (i p q : ℕ)
    → pointer h p i ≡ some (some q)
    → i < height h q
    → is_below h key q ≡ false
    → walk (suc fuel) h key i p ≡ ok p
unfolding walk is_below
walk_stop fuel h key i p q e high b =
    rw (forward_at-pointer h p i e) (rw (load-node_at h q (omega arith)) (rw b))

walk_step :
    (fuel : ℕ) (h : Heap) (key : InternalKey) (i p q : ℕ)
    → pointer h p i ≡ some (some q)
    → i < height h q
    → is_below h key q ≡ true
    → walk (suc fuel) h key i p ≡ walk fuel h key i q
unfolding walk is_below
walk_step fuel h key i p q e high b =
    rw (forward_at-pointer h p i e) (rw (load-node_at h q (omega arith)) (rw b))

-- From `p` in front of `front ++ back`, the walk at level `i` ends at the last node of `front` above
-- the level.
pub walk_lem :
    (fuel : ℕ) (h : Heap) (key : InternalKey) (i p : ℕ) (front back : List ℕ)
    → pointer h p i ≡ some (first_above h i (front ++ back))
    → Linked h (front ++ back)
    → All (λ q. is_below h key q ≡ true) front
    → All (λ q. is_below h key q ≡ false) back
    → length front < fuel
    → walk fuel h key i p ≡ ok (last_above h i p front)
walk_lem zero h key i p front back e s a b enough = absurd (omega arith)
walk_lem (suc fuel) h key i p [] [] e s a b enough =
    unfold first_above last_above in walk_end fuel h key i p e
walk_lem (suc fuel) h key i p [] (q ∷ back) e s a (bq, b) enough = elim (Above-cases h i q) [
  | inl u ↦
      unfold last_above in
      walk_stop fuel h key i p q (e ∙ ap some (first_above-up h i q back u)) u bq
  | inr u ↦
      walk_lem (suc fuel) h key i p [] back (e ∙ ap some (first_above-skip h i q back u))
        (Linked-tail h q back s) a b enough
]
walk_lem (suc fuel) h key i p (q ∷ front) back e s (aq, a) b enough = elim (Above-cases h i q) [
  | inl u ↦
      walk_step fuel h key i p q (e ∙ ap some (first_above-up h i q (front ++ back) u)) u aq
      ∙ walk_lem fuel h key i q front back (Linked-head h q (front ++ back) s i u)
          (Linked-tail h q (front ++ back) s) a b (omega arith)
      ∙ ap ok (sym (last_above-up h i p q front u))
  | inr u ↦
      walk_lem (suc fuel) h key i p front back
        (e ∙ ap some (first_above-skip h i q (front ++ back) u)) (Linked-tail h q (front ++ back) s)
        a b (omega arith)
      ∙ ap ok (sym (last_above-skip h i p q front u))
]

after-All : (P : ℕ → Type 0) (p b : ℕ) (l : List ℕ) → All P l → All P (after p (b ∷ l))
unfolding after
after-All P p b [] all = elim (Bool-cases (p == b)) [ inl e ↦ rw e tt | inr e ↦ rw e tt ]
after-All P p b (q ∷ l) (hq, all) = elim (Bool-cases (p == b)) [
  | inl e ↦ rw e (hq, all)
  | inr e ↦ rw e (after-All P p q l all)
]

length-after : (p b : ℕ) (l : List ℕ) → length (after p (b ∷ l)) ≤ length l
unfolding after
length-after p b [] = ground arith
length-after p b (q ∷ l) = ground (arith, length-after p q l)

module _ (fuel : ℕ) (h : Heap) (key : InternalKey) (front back : List ℕ)
    (split : Split h key front back) (enough : length front < fuel) where
  -- The walk at level `i` from any node of the front that is high enough.
  pub walk-front :
      (i p : ℕ)
      → has p (0 ∷ front) ≡ true
      → i < height h p
      → i < height h 0
      → walk fuel h key i p ≡ ok (last_above h i 0 front)
  walk-front i p m high high0 =
      let (leads, linked) = Linked-after h (0 ∷ front) back p m split.linked in
      walk_lem fuel h key i p (after p (0 ∷ front)) back (leads i high) linked
        (after-All _ p 0 front split.below) split.not_below (omega (arith, length-after p 0 front))
      ∙ ap ok (last_above-after h (0 ∷ front) p 0 i m high ∙ last_above-up h i 0 0 front high0)

  -- The outer loop over `suc i` levels ends at the last node of the front.
  pub seek_down-front :
      (i p : ℕ)
      → has p (0 ∷ front) ≡ true
      → i < height h p
      → i < height h 0
      → seek_down fuel (suc i) h key p ≡ ok (last_above h 0 0 front)
  unfolding seek_down
  seek_down-front zero p m high high0 = rw (walk-front 0 p m high high0)
  seek_down-front (suc i) p m high high0 =
      let (m', high') = last_above-has h front 0 (suc i) high0 in
      rw (walk-front (suc i) p m high high0)
        (seek_down-front i (last_above h (suc i) 0 front) m' (omega arith) (omega arith))

  pub seek_down-levels :
      (n : ℕ) → 0 < n → n ≤ height h 0 → seek_down fuel n h key 0 ≡ ok (last_above h 0 0 front)
  seek_down-levels zero pos fits = absurd (omega arith)
  seek_down-levels (suc i) pos fits =
      seek_down-front i 0 (unfold has in refl) (omega arith) (omega arith)
