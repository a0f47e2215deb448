-- ===== src/Memtable/Ordered.antt =====
-- The records of a skip list after a node has been put in behind the smaller ones.
use ascent_db.Prelude.{
  ℕ, ◌≡◌, ◌≢◌, refl, sym, ap, List, [], ◌∷◌, ◌++◌, All, Sign, less, same, greater, flip, is_less,
  is_greater, if◌then◌else◌, true, false, Bool-cases, inl, inr,
}
use ascent_db.Record.{Record, compare}
use ascent_db.Record.Order.{compare-flip}
use ascent_db.Memtable.{Heap}
use ascent_db.Memtable.Nodes.{node_at, has}
use ascent_db.Memtable.Search.{is_below}
use ascent_db.Memtable.Invariant.{entry, entries, front, back, behind, front-append-back, InOrder}
use ascent_db.Memtable.Relink.{has-false}

-- The record stands in front of the first one that is not before it.
unfoldable pub ordered_insert : Record → List Record → List Record
ordered_insert r [] = r ∷ []
ordered_insert r (x ∷ xs) =
    let rest = ordered_insert r xs in
    if is_less (compare x.internal_key r.internal_key) then x ∷ rest else r ∷ x ∷ xs

less-not_greater : (s : Sign) → is_less s ≡ true → is_greater s ≡ false
less-not_greater less e = refl
less-not_greater same e = refl
less-not_greater greater e = cc

not_less-flip : (s : Sign) → is_less s ≡ false → is_greater (flip s) ≡ false
not_less-flip less e = cc
not_less-flip same e = refl
not_less-flip greater e = refl

pub All-middle :
    {A : Type 0} (P : A → Type 0) (l r : List A) {a : A} → P a → All P (l ++ r) → All P (l ++ a ∷ r)
All-middle P [] r ha all = (ha, all)
All-middle P (b ∷ l) r ha (hb, all) = (hb, All-middle P l r ha all)

-- In `h'` the list keeps its records, and `new` holds the record `r`.
module _ (h h' : Heap) (new : ℕ) (r : Record) (kept : (p : ℕ) → p ≢ new → entry h' p ≡ entry h p)
    (at_new : entry h' new ≡ r) where
  entries-same : (l : List ℕ) → has new l ≡ false → entries h' l ≡ entries h l
  entries-same [] m = refl
  entries-same (p ∷ l) m =
      let (d, m') = has-false new p l m in rw (kept p (λ e. d (sym e)), entries-same l m')

  pub entries-placed :
      (l : List ℕ)
      → has new l ≡ false
      → entries h' (front h r.internal_key l ++ new ∷ back h r.internal_key l)
        ≡ ordered_insert r (entries h l)
  unfolding front back ordered_insert is_below entry
  entries-placed [] m = rw at_new
  entries-placed (p ∷ l) m =
      let (d, m') = has-false new p l m in
      elim (Bool-cases (is_less (compare (node_at h p).key r.internal_key))) [
        | inl e ↦ rw e (rw (kept p (λ q. d (sym q)), entries-placed l m'))
        | inr e ↦ rw e (rw (at_new, kept p (λ q. d (sym q)), entries-same l m'))
      ]

  key-kept : (p : ℕ) → new ≢ p → (node_at h' p).key ≡ (node_at h p).key
  unfolding entry
  key-kept p d = ap (λ x. x.internal_key) (kept p (λ q. d (sym q)))

  key-new : (node_at h' new).key ≡ r.internal_key
  unfolding entry
  key-new = ap (λ x. x.internal_key) at_new

  before-kept :
      (p : ℕ) (l : List ℕ)
      → new ≢ p
      → has new l ≡ false
      → All (λ q. is_greater (compare (node_at h p).key (node_at h q).key) ≡ false) l
      → All (λ q. is_greater (compare (node_at h' p).key (node_at h' q).key) ≡ false) l
  before-kept p [] d m all = tt
  before-kept p (q ∷ l) d m (hq, all) =
      let (dq, m') = has-false new q l m in
      (rw (key-kept p d, key-kept q dq) hq, before-kept p l d m' all)

  InOrder-kept : (l : List ℕ) → has new l ≡ false → InOrder h l → InOrder h' l
  unfolding InOrder
  InOrder-kept [] m o = tt
  InOrder-kept (p ∷ l) m (before, o) =
      let (d, m') = has-false new p l m in (before-kept p l d m' before, InOrder-kept l m' o)

  before-new :
      (l : List ℕ)
      → has new l ≡ false
      → All (λ q. is_below h r.internal_key q ≡ false) l
      → All (λ q. is_greater (compare (node_at h' new).key (node_at h' q).key) ≡ false) l
  unfolding is_below
  before-new [] m all = tt
  before-new (q ∷ l) m (hq, all) =
      let (d, m') = has-false new q l m in
      (
        rw (key-new, key-kept q d, compare-flip (node_at h q).key r.internal_key)
            (not_less-flip _ hq),
        before-new l m' all,
      )

  pub InOrder-placed :
      (l : List ℕ)
      → has new l ≡ false
      → InOrder h l
      → InOrder h' (front h r.internal_key l ++ new ∷ back h r.internal_key l)
  unfolding front back InOrder
  InOrder-placed [] m o = (tt, tt)
  InOrder-placed (p ∷ l) m (before, o) =
      let (d, m') = has-false new p l m in
      let less_or_not = Bool-cases (is_below h r.internal_key p) in
      elim less_or_not [
        | inl e ↦
            let joined : All
                (λ q. is_greater (compare (node_at h' p).key (node_at h' q).key) ≡ false)
                (front h r.internal_key l ++ back h r.internal_key l) =
              rw (front-append-back h r.internal_key l) (before-kept p l d m' before) in
            rw e (
              All-middle _ (front h r.internal_key l) (back h r.internal_key l)
                  (rw (key-new, key-kept p d) (less-not_greater _ (unfold is_below in e))) joined,
              InOrder-placed l m' o,
            )
        | inr e ↦ rw e (
          before-new (p ∷ l) m (e, behind h r.internal_key p l before e),
          InOrder-kept (p ∷ l) m (before, o),
        )
      ]
