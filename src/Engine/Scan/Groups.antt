-- ===== src/Engine/Scan/Groups.antt =====
-- The records of one user key, in front of a list in order.
use ascent_db.Prelude.{
  ℕ, zero, suc, ◌≤◌, ◌<◌, ◌≡◌, refl, ap, arith, List, [], ◌∷◌, ◌++◌, append_assoc, append-nil,
  length, All, All-weaken, Option, none, some, false, Bool-cases, inl, inr, less, ltb, ltb→lt,
  ltb→le, if◌then◌else◌, ok,
}
use mathlib.Core.List.{Memᴰ}
use ascent_db.Bytes.Compare.{
  compare_bytes, compare_bytes_trans, compare_bytes-eq, equal_bytes, equal_bytes_iff,
}
use ascent_db.Record.{InternalKey, Record, compare}
use ascent_db.Sstable.Reader.Lookup.{Answer}
use ascent_db.Merge.{Item, empty, push_iter, advanced}
use ascent_db.Merge.Order.{Upto, Ascending}
use ascent_db.Merge.Drain.{Yields, merge_record-popped, pop_and_advance-popped}
use ascent_db.Engine.Answers.{Answer-better}
use ascent_db.Engine.Read.{better}
use ascent_db.Engine.Scan.{pick, collect}

-- The records in front that have the user key, and those behind them.
unfoldable pub group : List ℕ → List Record → List Record
group u [] = []
group u (r ∷ l) = let rest = group u l in if equal_bytes r.user_key u then r ∷ rest else []

unfoldable pub behind : List ℕ → List Record → List Record
behind u [] = []
behind u (r ∷ l) = let rest = behind u l in if equal_bytes r.user_key u then rest else r ∷ l

-- What the inner loop of advance finds in a list.
unfoldable pub best_of : ℕ → Option Record → List Record → Option Record
best_of seq_num best [] = best
best_of seq_num best (r ∷ l) = best_of seq_num (pick seq_num best r) l

pub group-behind : (u : List ℕ) (l : List Record) → l ≡ group u l ++ behind u l
unfolding group behind
group-behind u [] = refl
group-behind u (r ∷ l) = elim (Bool-cases (equal_bytes r.user_key u)) [
  | inl e ↦ rw e (ap (◌∷◌ r) (group-behind u l))
  | inr e ↦ rw e refl
]

pub group-All : (u : List ℕ) (l : List Record) → All (λ r. r.user_key ≡ u) (group u l)
unfolding group
group-All u [] = tt
group-All u (r ∷ l) = elim (Bool-cases (equal_bytes r.user_key u)) [
  | inl e ↦ rw e ((equal_bytes_iff r.user_key u).0 e, group-All u l)
  | inr e ↦ rw e tt
]

-- Behind a user key that is smaller.
abbrev pub Above : List ℕ → Record → Type 0
Above u r = compare_bytes u r.user_key ≡ less

-- A record that is not before one of the key, and not of it, is of a larger one.
pub Upto-Above :
    (r x : Record) → Upto r x → equal_bytes x.user_key r.user_key ≡ false → Above r.user_key x
unfolding compare
Upto-Above r x h e =
    ground (arith, compare_bytes-eq r.user_key x.user_key, equal_bytes_iff x.user_key r.user_key)

pub Above-Upto : (u : List ℕ) (x y : Record) → Above u x → Upto x y → Above u y
unfolding compare
Above-Upto u x y h e =
    ground
      (arith, compare_bytes-eq x.user_key y.user_key, compare_bytes_trans u x.user_key y.user_key)

-- In a list in order, everything behind the group of the first record is of a larger user key.
pub behind-Above :
    (r : Record) (l : List Record)
    → All (Upto r) l
    → Ascending l
    → All (Above r.user_key) (behind r.user_key l)
unfolding behind Ascending
behind-Above r [] all o = tt
behind-Above r (x ∷ l) (h, all) (before, o) =
    elim (Bool-cases (equal_bytes x.user_key r.user_key)) [
      | inl e ↦ rw e (behind-Above r l all o)
      | inr e ↦
          let above = Upto-Above r x h e in
          rw e (above, All-weaken (λ y. Above-Upto r.user_key x y above) l before)
    ]

pub behind-Ascending : (u : List ℕ) (l : List Record) → Ascending l → Ascending (behind u l)
unfolding behind Ascending
behind-Ascending u [] o = tt
behind-Ascending u (x ∷ l) (before, o) = elim (Bool-cases (equal_bytes x.user_key u)) [
  | inl e ↦ rw e (behind-Ascending u l o)
  | inr e ↦ rw e (before, o)
]

pub behind-le : (u : List ℕ) (l : List Record) → length (behind u l) ≤ length l
unfolding behind
behind-le u [] = omega arith
behind-le u (r ∷ l) = elim (Bool-cases (equal_bytes r.user_key u)) [
  | inl e ↦ rw e (omega (arith, behind-le u l))
  | inr e ↦ rw e (omega arith)
]

abbrev pub as_of : List ℕ → ℕ → InternalKey
as_of u n = record { user_key = u; seq_num = n; typ = 0 }

visible : ℕ → Record → Option Record
visible n r = if ltb n r.seq_num then none else some r

visible-Answer :
    (u : List ℕ) (n : ℕ) (r : Record) → r.user_key ≡ u → Answer (as_of u n) (r ∷ []) (visible n r)
unfolding visible
visible-Answer u n r e = elim (Bool-cases (ltb n r.seq_num)) [
  | inl t ↦ rw t (Answer.missing ((λ q. ltb→lt n r.seq_num t), tt))
  | inr t ↦ rw t (Answer.found (Memᴰ.head refl) e (ltb→le n r.seq_num t) ((λ q v. omega arith), tt))
]

pick-better :
    (n : ℕ) (best : Option Record) (r : Record) → pick n best r ≡ better best (visible n r)
unfolding pick better visible
pick-better n none r = elim (Bool-cases (ltb n r.seq_num)) [ inl t ↦ rw t refl | inr t ↦ rw t refl ]
pick-better n (some b) r = elim (Bool-cases (ltb n r.seq_num)) [
  | inl t ↦ rw t refl
  | inr t ↦ rw t refl
]

best_of-Answer_from :
    (u : List ℕ) (n : ℕ) (seen : List Record) (best : Option Record) (g : List Record)
    → All (λ r. r.user_key ≡ u) g
    → Answer (as_of u n) seen best
    → Answer (as_of u n) (seen ++ g) (best_of n best g)
unfolding best_of
best_of-Answer_from u n seen best [] all answer = rw append-nil answer
best_of-Answer_from u n seen best (r ∷ g) (e, all) answer = rw (← append_assoc seen (r ∷ []) g) (
    best_of-Answer_from u n (seen ++ (r ∷ [])) (pick n best r) g all (
      rw (pick-better n best r)
        (Answer-better seen (r ∷ []) best (visible n r) answer (visible-Answer u n r e))))

-- The inner loop of advance finds the newest visible record of the group.
pub best_of-Answer :
    (u : List ℕ) (n : ℕ) (g : List Record)
    → All (λ r. r.user_key ≡ u) g
    → Answer (as_of u n) g (best_of n none g)
best_of-Answer u n g all = best_of-Answer_from u n [] none g all (Answer.missing tt)

-- The inner loop takes the group off the heap.
pub collect_lem :
    (fuel n : ℕ) (u : List ℕ) (heap : List Item) (best : Option Record) (l : List Record)
    → Yields heap l
    → length l < fuel
    → (heap' : List Item) × (collect fuel n u heap best ≡ ok (best_of n best (group u l), heap'))
      × Yields heap' (behind u l)
unfolding collect empty group behind best_of
collect_lem zero n u heap best l y enough = absurd (omega arith)
collect_lem (suc fuel) n u heap best [] Yields.done enough = ([], refl, Yields.done)
collect_lem (suc fuel) n u heap best (r ∷ l)
      (Yields.more {y = y} {items = others} {rest = rest} {x = x} e m) enough =
    let top = merge_record-popped (y ∷ others) rest x e in
    let popped = pop_and_advance-popped (y ∷ others) rest x e in
    elim (Bool-cases (equal_bytes x.current.user_key u)) [
      | inl t ↦
          let (heap', q, y') =
            collect_lem fuel n u (push_iter (advanced x.iter) rest) (pick n best x.current) l m
              (omega arith) in
          rw t (heap', rw (top, popped, t) q, y')
      | inr t ↦ rw t (y ∷ others, rw (top, t) refl, Yields.more e m)
    ]
