-- ===== src/Memtable/Permuted.antt =====
-- Putting a record in its place permutes the records, and an answer does not depend on their order.
use ascent_db.Prelude.{
  ◌≡◌, ◌≢◌, ◌∙◌, refl, List, [], ◌∷◌, All, Option, Sign, less, same, greater, is_less, flip, false,
  Bool-cases, inl, inr,
}
use mathlib.Core.Path.{subst}
use mathlib.Core.List.{Memᴰ, Permᴰ}
use mathlib.Core.List.Permᴰ
use ascent_db.Record.{InternalKey, Record, compare}
use ascent_db.Record.Order.{compare-flip, compare_trans}
use ascent_db.Sstable.Reader.{keys, Sorted}
use ascent_db.Sstable.Reader.Lookup.{Answer, is_less-eq}
use ascent_db.Memtable.Ordered.{ordered_insert}

pub All-Perm : {A : Type 0} (P : A → Type 0) {l l' : List A} → Permᴰ l l' → All P l → All P l'
All-Perm P Permᴰ.nil all = tt
All-Perm P (Permᴰ.cons e d) (h, all) = (subst P e h, All-Perm P d all)
All-Perm P (Permᴰ.swap e e') (h, (h', all)) = (subst P e' h', (subst P e h, all))
All-Perm P (Permᴰ.trans d d') all = All-Perm P d' (All-Perm P d all)

pub Memᴰ-Perm : {A : Type 0} {a : A} {l l' : List A} → Permᴰ l l' → Memᴰ a l → Memᴰ a l'
Memᴰ-Perm Permᴰ.nil m = elim m [ ]
Memᴰ-Perm (Permᴰ.cons e d) (Memᴰ.head q) = Memᴰ.head (q ∙ e)
Memᴰ-Perm (Permᴰ.cons e d) (Memᴰ.tail m) = Memᴰ.tail (Memᴰ-Perm d m)
Memᴰ-Perm (Permᴰ.swap e e') (Memᴰ.head q) = Memᴰ.tail (Memᴰ.head (q ∙ e))
Memᴰ-Perm (Permᴰ.swap e e') (Memᴰ.tail (Memᴰ.head q)) = Memᴰ.head (q ∙ e')
Memᴰ-Perm (Permᴰ.swap e e') (Memᴰ.tail (Memᴰ.tail m)) = Memᴰ.tail (Memᴰ.tail m)
Memᴰ-Perm (Permᴰ.trans d d') m = Memᴰ-Perm d' (Memᴰ-Perm d m)

-- The answer does not depend on the order of the records.
pub Answer-Perm :
    {key : InternalKey} {l l' : List Record} {o : Option Record}
    → Permᴰ l l'
    → Answer key l o
    → Answer key l' o
Answer-Perm d (Answer.found m e n all) = Answer.found (Memᴰ-Perm d m) e n (All-Perm _ d all)
Answer-Perm d (Answer.missing all) = Answer.missing (All-Perm _ d all)

pub ordered_insert-Perm : (r : Record) (xs : List Record) → Permᴰ (ordered_insert r xs) (r ∷ xs)
unfolding ordered_insert
ordered_insert-Perm r [] = Permᴰ.refl (r ∷ [])
ordered_insert-Perm r (x ∷ xs) =
    elim (Bool-cases (is_less (compare x.internal_key r.internal_key))) [
      | inl e ↦
          rw e (Permᴰ.trans (Permᴰ.cons refl (ordered_insert-Perm r xs)) (Permᴰ.swap refl refl))
      | inr e ↦ rw e (Permᴰ.refl (r ∷ x ∷ xs))
    ]

All-keys :
    (P : InternalKey → Type 0) (l : List Record) → All P (keys l) → All (λ r. P r.internal_key) l
All-keys P [] all = tt
All-keys P (r ∷ l) (h, all) = (h, All-keys P l all)

keys-All :
    (P : InternalKey → Type 0) (l : List Record) → All (λ r. P r.internal_key) l → All P (keys l)
keys-All P [] all = tt
keys-All P (r ∷ l) (h, all) = (h, keys-All P l all)

not_less-less :
    (a b : InternalKey) → is_less (compare a b) ≡ false → compare a b ≢ same → compare b a ≡ less
not_less-less a b e d = compare-flip a b ∙ turned (compare a b) e d
  where
    turned : (s : Sign) → is_less s ≡ false → s ≢ same → flip s ≡ less
    turned less e d = cc
    turned same e d = absurd (d refl)
    turned greater e d = refl

below-all :
    (a b : InternalKey) (ks : List InternalKey)
    → compare a b ≡ less
    → All (λ k. compare b k ≡ less) ks
    → All (λ k. compare a k ≡ less) ks
below-all a b [] e all = tt
below-all a b (k ∷ ks) e (h, all) = (compare_trans a b k e h, below-all a b ks e all)

pub ordered_insert-Sorted :
    (r : Record) (xs : List Record)
    → Sorted (keys xs)
    → All (λ x. compare x.internal_key r.internal_key ≢ same) xs
    → Sorted (keys (ordered_insert r xs))
unfolding ordered_insert Sorted
ordered_insert-Sorted r [] s d = (tt, tt)
ordered_insert-Sorted r (x ∷ xs) (before, s) (dx, d) =
    elim (Bool-cases (is_less (compare x.internal_key r.internal_key))) [
      | inl e ↦ rw e (
        keys-All _ (ordered_insert r xs) (
            All-Perm _ (Permᴰ.symm (ordered_insert-Perm r xs))
              (is_less-eq _ e, All-keys _ xs before)),
        ordered_insert-Sorted r xs s d,
      )
      | inr e ↦
          let first = not_less-less x.internal_key r.internal_key e dx in
          rw e
            ((first, below-all r.internal_key x.internal_key (keys xs) first before), (before, s))
    ]
