-- ===== src/Merge/Order.antt =====
-- What the heap takes out, and the order of the records in it.
use ascent_db.Prelude.{
  suc, ◌≡◌, ◌∙◌, refl, ap, arith, List, [], ◌∷◌, ◌++◌, append_assoc, length, All, some, Sign, less,
  same, greater, true, false, is_less, is_greater, flip, Bool-cases, inl, inr,
}
use mathlib.Core.List.{Permᴰ}
use mathlib.Core.List.Permᴰ
use ascent_db.Bytes.Compare.{compare_bytes_trans, compare_bytes-eq}
use ascent_db.Record.{Record, compare}
use ascent_db.Record.Order.{compare-flip}
use ascent_db.Merge.{Item, push_iter, less_item, pop}
use ascent_db.Memtable.Permuted.{All-Perm}

-- Not behind.
abbrev pub Upto : Record → Record → Type 0
Upto r x = is_greater (compare r.internal_key x.internal_key) ≡ false

-- No record comes before one that stands in front of it.
unfoldable pub Ascending : List Record → Type 0
Ascending [] = Unit {0}
Ascending (r ∷ rs) = All (Upto r) rs × Ascending rs

Upto-trans : (a b c : Record) → Upto a b → Upto b c → Upto a c
unfolding compare
Upto-trans a b c p q = ground (
  arith,
  compare_bytes_trans a.user_key b.user_key c.user_key,
  compare_bytes-eq a.user_key b.user_key,
  compare_bytes-eq b.user_key c.user_key,
)

not_less-Upto : (x y : Item) → less_item y x ≡ false → Upto x.current y.current
unfolding less_item
not_less-Upto x y e =
    ap is_greater (compare-flip y.current.internal_key x.current.internal_key)
    ∙ turned (compare y.current.internal_key x.current.internal_key) e
  where
    turned : (s : Sign) → is_less s ≡ false → is_greater (flip s) ≡ false
    turned less e = cc
    turned same e = refl
    turned greater e = refl

less-Upto : (x y : Item) → less_item y x ≡ true → Upto y.current x.current
unfolding less_item
less-Upto x y e = turned (compare y.current.internal_key x.current.internal_key) e
  where
    turned : (s : Sign) → is_less s ≡ true → is_greater s ≡ false
    turned less e = refl
    turned same e = refl
    turned greater e = cc

pub All-Upto : (a b : Record) (l : List Record) → Upto a b → All (Upto b) l → All (Upto a) l
All-Upto a b [] e all = tt
All-Upto a b (r ∷ l) e (h, all) = (Upto-trans a b r e h, All-Upto a b l e all)

All-Upto_items :
    (x y : Item) (l : List Item)
    → Upto x.current y.current
    → All (λ z. Upto y.current z.current) l
    → All (λ z. Upto x.current z.current) l
All-Upto_items x y [] e all = tt
All-Upto_items x y (z ∷ l) e (h, all) =
    (Upto-trans x.current y.current z.current e h, All-Upto_items x y l e all)

-- What `pop` does of a heap that is not empty.
pub record Popped (items : List Item) (x : Item) (rest : List Item) : Type 0 where
  pub popped : pop items ≡ some (x, rest)
  pub split : Permᴰ items (x ∷ rest)
  pub least : All (λ z. Upto x.current z.current) rest

pub pop-Popped :
    (y : Item) (items : List Item) → (x : Item) × (rest : List Item) × Popped (y ∷ items) x rest
unfolding pop
pop-Popped y [] = (y, [], record { popped = refl; split = Permᴰ.refl (y ∷ []); least = tt })
pop-Popped y (z ∷ items) =
    let (x, rest, p) = pop-Popped z items in
    elim (Bool-cases (less_item x y)) [
      | inl e ↦ (
        x,
        y ∷ rest,
        record {
          popped = rw (p.popped, e);
          split = Permᴰ.trans (Permᴰ.cons refl p.split) (Permᴰ.swap refl refl);
          least = (less-Upto y x e, p.least);
        },
      )
      | inr e ↦ (
        y,
        z ∷ items,
        record {
          popped = rw (p.popped, e);
          split = Permᴰ.refl (y ∷ z ∷ items);
          least =
              All-Perm _ (Permᴰ.symm p.split)
                (not_less-Upto y x e, All-Upto_items y x rest (not_less-Upto y x e) p.least);
        },
      )
    ]

-- All records that the iterators in a heap have still to visit.
unfoldable pub held : List Item → List Record
held [] = []
held (x ∷ items) = x.iter ++ held items

swap_front : {A : Type 0} (xs ys zs : List A) → Permᴰ (xs ++ (ys ++ zs)) (ys ++ (xs ++ zs))
swap_front xs ys zs =
    rw (← append_assoc xs ys zs, ← append_assoc ys xs zs)
      (Permᴰ.append_right zs (Permᴰ.append_comm xs ys))

pub held-Perm : {l l' : List Item} → Permᴰ l l' → Permᴰ (held l) (held l')
unfolding held
held-Perm Permᴰ.nil = Permᴰ.nil
held-Perm (Permᴰ.cons {a = a} {l₂ = l₂} e d) = rw e (Permᴰ.append_left _ (held-Perm d))
held-Perm (Permᴰ.swap {a = a} {b = b} {l = l} e e') =
    rw (← e, ← e') (swap_front a.iter b.iter (held l))
held-Perm (Permᴰ.trans d d') = Permᴰ.trans (held-Perm d) (held-Perm d')

pub length-Perm : {A : Type 0} {l l' : List A} → Permᴰ l l' → length l ≡ length l'
length-Perm Permᴰ.nil = refl
length-Perm (Permᴰ.cons e d) = ap suc (length-Perm d)
length-Perm (Permᴰ.swap e e') = refl
length-Perm (Permᴰ.trans d d') = length-Perm d ∙ length-Perm d'

pub held-push_iter :
    (it : List Record) (items : List Item) → held (push_iter it items) ≡ it ++ held items
unfolding held push_iter
held-push_iter [] items = refl
held-push_iter (r ∷ rs) items = refl
